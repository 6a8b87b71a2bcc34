-- ===== src/Exposure/Placed.antt =====
-- What placing a back adds to the exposure.
use flumine.Prelude.{
  ℕ, ◌≡◌, refl, sym, ap, ◌∙◌, inl, inr, false, ◌||◌, Option, none, List, [], ◌∷◌, ◌++◌, arith, All,
  Bool-cases, ◌==◌,
}
use flumine.Prelude.Int.{pos, ◌+ℤ◌, ◌-ℤ◌, negate, int_laws, +ℤ_comm, +ℤ_assoc, eq_of_parts}
use flumine.Prelude.Decimal.{Price, Amount, IsRound, round2, round2_self, +ℤ-IsRound}
use flumine.Order.{
  Side, back, lay, Order, OrderType, limit, limit_on_close, market_on_close, Persistence,
  order_size_matched, order_size_remaining,
}
use flumine.Exposure.{
  Bet, Bets, no_bets, sum_sizes, add_matched, add_unmatched, add_liability, add_typed, add_order,
  collect, is_violated, is_excluded, is_zero, exposures_of, get_exposures,
  calculate_unmatched_exposure,
}

-- Sizes of two decimal places, matched and remaining.
abbrev pub HasRoundSizes : List Order → Type 0
HasRoundSizes =
    All (λ order. IsRound (order_size_matched order) × IsRound (order_size_remaining order))

collect-append :
    (exclusion : Option ℕ) (orders : List Order) (order : Order) (bets : Bets)
    → collect exclusion (orders ++ order ∷ []) bets
      ≡ add_order exclusion order (collect exclusion orders bets)
unfolding collect
collect-append exclusion [] order bets = refl
collect-append exclusion (o ∷ orders) order bets =
    collect-append exclusion orders order (add_order exclusion o bets)

sum_sizes_snoc :
    (bets : List Bet) (bet : Bet) → sum_sizes (bets ++ bet ∷ []) ≡ sum_sizes bets +ℤ bet.1
unfolding sum_sizes
sum_sizes_snoc [] bet = +ℤ_comm bet.1 (pos 0)
sum_sizes_snoc (b ∷ bets) bet =
    rw (sum_sizes_snoc bets bet) (sym (+ℤ_assoc b.1 (sum_sizes bets) bet.1))

-- The unmatched backs have sizes of two decimal places.
abbrev IsRoundBets : Bets → Type 0
IsRoundBets bets = IsRound (sum_sizes bets.ub)

add_unmatched-IsRound :
    (price : Price) (order : Order) (bets : Bets)
    → IsRound (order_size_remaining order)
    → IsRoundBets bets
    → IsRoundBets (add_unmatched price order bets)
unfolding add_unmatched
add_unmatched-IsRound price order bets r h =
    elim (Bool-cases (price == 0 || is_zero (order_size_remaining order))) [
      | inl skipped ↦ rw skipped h
      | inr kept ↦ rw kept (by_side order.side)
    ]
  where
    by_side :
        (side : Side)
        → IsRoundBets (elim side [
          | back ↦ record bets { ub = bets.ub ++ (pos price, order_size_remaining order) ∷ [] }
          | lay ↦ record bets { ul = bets.ul ++ (pos price, order_size_remaining order) ∷ [] }
        ])
    by_side back =
        rw (sum_sizes_snoc bets.ub (pos price, order_size_remaining order)) (+ℤ-IsRound _ _ h r)
    by_side lay = h

add_matched-ub : (order : Order) (bets : Bets) → (add_matched order bets).ub ≡ bets.ub
unfolding add_matched
add_matched-ub order bets = ground arith

add_liability-ub :
    (liability : Amount) (order : Order) (bets : Bets)
    → (add_liability liability order bets).ub ≡ bets.ub
unfolding add_liability
add_liability-ub liability order bets = ground arith

add_typed-IsRound :
    (order_type : OrderType) (order : Order) (bets : Bets)
    → IsRound (order_size_remaining order)
    → IsRoundBets bets
    → IsRoundBets (add_typed order_type order bets)
add_typed-IsRound (limit price size k) order bets r h =
    add_unmatched-IsRound price order (add_matched order bets) r (rw (add_matched-ub order bets) h)
add_typed-IsRound (limit_on_close l p) order bets r h = rw (add_liability-ub l order bets) h
add_typed-IsRound (market_on_close l) order bets r h = rw (add_liability-ub l order bets) h

add_order-IsRound :
    (exclusion : Option ℕ) (order : Order) (bets : Bets)
    → IsRound (order_size_remaining order)
    → IsRoundBets bets
    → IsRoundBets (add_order exclusion order bets)
unfolding add_order
add_order-IsRound exclusion order bets r h =
    elim (Bool-cases (is_excluded exclusion order || is_violated order.status)) [
      | inl skipped ↦ rw skipped h
      | inr kept ↦ rw kept (add_typed-IsRound order.order_type order bets r h)
    ]

collect-IsRound :
    (exclusion : Option ℕ) (orders : List Order) (bets : Bets)
    → HasRoundSizes orders
    → IsRoundBets bets
    → IsRoundBets (collect exclusion orders bets)
unfolding collect
collect-IsRound exclusion [] bets h r = r
collect-IsRound exclusion (order ∷ orders) bets h r =
    collect-IsRound exclusion orders (add_order exclusion order bets) h.1
      (add_order-IsRound exclusion order bets h.0.1 r)

-- A back that has just been placed: nothing is matched, and its whole size remains.
pub record IsPlacedBack (price : Price) (size : Amount) (k : Persistence) (order : Order)
    : Type 0 where
  pub type_eq : order.order_type ≡ limit price size k
  pub side_eq : order.side ≡ back
  pub in_force : is_violated order.status ≡ false
  pub unmatched : order_size_matched order ≡ pos 0
  pub remains : order_size_remaining order ≡ size
  pub priced : (price == 0) ≡ false
  pub sized : is_zero size ≡ false
  pub rounded : IsRound size

add_order_placed :
    {price : Price} {size : Amount} {k : Persistence} (order : Order) (bets : Bets)
    → IsPlacedBack price size k order
    → add_order none order bets ≡ record bets { ub = bets.ub ++ (pos price, size) ∷ [] }
unfolding add_order add_matched add_unmatched
add_order_placed order bets p = ground arith

negate-IsRound : (a : Amount) → IsRound a → IsRound (negate a)
unfolding negate
negate-IsRound a h = ground arith

lose_lem :
    (sum size : Amount)
    → IsRound sum
    → IsRound size
    → round2 (negate (sum +ℤ size)) ≡ round2 (negate sum) -ℤ size
lose_lem sum size h k =
    round2_self _ (negate-IsRound (sum +ℤ size) (+ℤ-IsRound sum size h k))
    ∙ eq_of_parts (negate (sum +ℤ size)) (negate sum -ℤ size) (omega int_laws)
    ∙ ap (λ x. x -ℤ size) (sym (round2_self (negate sum) (negate-IsRound sum h)))

empty-IsRound : IsRoundBets no_bets
unfolding sum_sizes
empty-IsRound = omega arith

-- A back of a size with two decimal places that is added to a selection lowers the worst profit on a
-- loss by exactly its size, and leaves the worst profit on a win as it was, where the sizes of the
-- other orders have two decimal places too.
pub get_exposures-placed_back :
    {price : Price} {size : Amount} {k : Persistence} (orders : List Order) (order : Order)
    → HasRoundSizes orders
    → IsPlacedBack price size k order
    → let before = get_exposures none orders in
      let after = get_exposures none (orders ++ order ∷ []) in
      (after.worst_possible_profit_on_lose ≡ before.worst_possible_profit_on_lose -ℤ size)
      × (after.worst_possible_profit_on_win ≡ before.worst_possible_profit_on_win)
unfolding get_exposures exposures_of calculate_unmatched_exposure
get_exposures-placed_back {price} {size} {k} orders order rounded p =
    let bets = collect none orders no_bets in
    rw (collect-append none orders order no_bets, add_order_placed order bets p)
      (rw
        (
          sum_sizes_snoc bets.ub (pos price, size),
          lose_lem (sum_sizes bets.ub) size
              (collect-IsRound none orders no_bets rounded empty-IsRound) p.rounded,
        )
        (omega int_laws, refl))
