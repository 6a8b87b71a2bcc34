-- ===== src/Ladder/Nearest.antt =====
-- `get_nearest_price` gives a price of the ladder, and none is nearer.
use flumine.Prelude.{
  ◌%◌, ◌≤◌, ◌<◌, ◌≡◌, refl, sym, ◌∙◌, true, List, [], ◌∷◌, arith, ltb, leb, contains, Bool-cases,
  tests, ltb→lt, leb→le, inl, inr,
}
use flumine.Prelude.Decimal.{Price}
use flumine.Ladder.{cutoffs, min_price, max_price, prices, find_step, round_to, get_nearest_price}
use flumine.Ladder.Table.{in_band, on_ladder, IsStepped, contains-make_prices}
use flumine.Ladder.Rounding.{
  IsTable, below_band, dist, in_band-mod, not_ltb, on_ladder-ge, on_ladder_self, round_to-mod,
  round_to_bounds, round_to_nearest, sub-mod,
}

record IsNearest (p r cursor : Price) (rows : List (Price × Price)) : Type 0 where
  member : on_ladder r cursor rows ≡ true
  nearest : (x : Price) → on_ladder x cursor rows ≡ true → dist p r ≤ dist p x

find_step-IsNearest :
    (p cursor step : Price) (rows : List (Price × Price))
    → 0 < step
    → cursor % step ≡ 0
    → IsTable cursor rows
    → cursor ≤ p
    → p ≤ max_price
    → IsNearest p (round_to (find_step p step rows) p) cursor rows
unfolding find_step
find_step-IsNearest p cursor step [] positive h table below above =
    let r_eq : round_to step p ≡ p =
      omega (arith, round_to_bounds step p cursor cursor positive h h below (omega arith)) in
    record { member = ground arith; nearest = λ x on. omega arith }
find_step-IsNearest p cursor step ((cutoff, step') ∷ rows) positive h table below above =
    elim (Bool-cases (ltb p cutoff)) [
      | inl here ↦ rw here (
          let bounds =
            round_to_bounds step' p cursor cutoff table.0 table.2 table.3 below (ground arith) in
          record {
            member = ground (
              arith,
              on_ladder_self cutoff rows table.4,
              sub-mod step' (round_to step' p) cursor (round_to-mod step' p) table.2 bounds.0,
            );
            nearest = λ x on. elim (Bool-cases (in_band x cursor cutoff step')) [
              | inl inside ↦
                  round_to_nearest step' p x table.0
                    (in_band-mod x cursor cutoff step' table.2 inside)
              | inr beyond ↦ omega (
                tests,
                ltb→lt p cutoff here,
                on_ladder-ge x cutoff rows table.4 (rw beyond at on),
                round_to_nearest step' p cutoff table.0 table.3,
              )
            ];
          })
      | inr later ↦ rw later (
          let rest =
            find_step-IsNearest p cutoff step' rows table.0 table.3 table.4 (ground arith) above in
          record {
            member = ground (arith, rest.member);
            nearest = λ x on. elim (Bool-cases (in_band x cursor cutoff step')) [
              | inl inside ↦ omega (
                arith,
                below_band x cursor cutoff step' inside,
                not_ltb p cutoff later,
                rest.nearest cutoff (on_ladder_self cutoff rows table.4),
              )
              | inr beyond ↦ rest.nearest x (rw beyond at on)
            ];
          })
    ]

cutoffs-IsTable : IsTable min_price cutoffs
cutoffs-IsTable = omega arith

cutoffs-IsStepped : IsStepped cutoffs
cutoffs-IsStepped = omega arith

-- Membership in `PRICES` is the reading of the table.
pub contains-prices : (x : Price) → contains x prices ≡ on_ladder x min_price cutoffs
unfolding prices
contains-prices x = contains-make_prices x min_price cutoffs cutoffs-IsStepped

on_ladder-le_max :
    (x cursor : Price) (rows : List (Price × Price))
    → IsTable cursor rows
    → on_ladder x cursor rows ≡ true
    → x ≤ max_price
on_ladder-le_max x cursor [] h on = ground arith
on_ladder-le_max x cursor ((cutoff, step) ∷ rows) h on =
    ground (arith, on_ladder-le_max x cutoff rows h.4, le_max cutoff rows h.4)
  where
    le_max :
        (cutoff : Price) (rows : List (Price × Price)) → IsTable cutoff rows → cutoff ≤ max_price
    le_max cutoff [] h = omega arith
    le_max cutoff ((c, s) ∷ rows) h = omega (arith, le_max c rows h.4)

near_low : (p x : Price) → p ≤ min_price → min_price ≤ x → dist p min_price ≤ dist p x
near_low p x h k = omega arith

near_high : (p x : Price) → max_price < p → x ≤ max_price → dist p max_price ≤ dist p x
near_high p x h k = omega arith

get_nearest_price-IsNearest :
    (price : Price) → IsNearest price (get_nearest_price price) min_price cutoffs
unfolding get_nearest_price
get_nearest_price-IsNearest price = elim (Bool-cases (leb price min_price)) [
  | inl low ↦ rw low (record {
    member = on_ladder_self min_price cutoffs cutoffs-IsTable;
    nearest = λ x on.
        near_low price x (leb→le price min_price low)
          (on_ladder-ge x min_price cutoffs cutoffs-IsTable on);
  })
  | inr above ↦ elim (Bool-cases (ltb max_price price)) [
    | inl high ↦
        rw (above, high)
          (record {
            member = refl;
            nearest = λ x on.
                near_high price x (ltb→lt max_price price high)
                  (on_ladder-le_max x min_price cutoffs cutoffs-IsTable on);
          })
    | inr inside ↦
        rw (above, inside)
          (find_step-IsNearest price min_price 1 cutoffs (omega arith) refl cutoffs-IsTable
            (ground arith) (not_ltb max_price price inside))
  ]
]

-- For every price, `get_nearest_price` gives a member of `PRICES`, and a member of `PRICES` is no
-- nearer to the price than that.
pub get_nearest_price_lem :
    (price x : Price)
    → contains x prices ≡ true
    → (contains (get_nearest_price price) prices ≡ true)
      × (dist price (get_nearest_price price) ≤ dist price x)
get_nearest_price_lem price x on = (
  contains-prices (get_nearest_price price) ∙ (get_nearest_price-IsNearest price).member,
  (get_nearest_price-IsNearest price).nearest x (sym (contains-prices x) ∙ on),
)
