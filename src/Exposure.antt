-- ===== src/Exposure.antt =====
-- The exposures of a strategy on a selection: `calculate_matched_exposure` and
-- `calculate_unmatched_exposure` of utils.py, `get_exposures` and `selection_exposure` of
-- markets/blotter.py.
pub mod Worst
pub mod Placed
use flumine.Prelude.{
  ℕ, Bool, true, false, not, ◌&&◌, ◌||◌, Option, none, some, List, [], ◌∷◌, ◌++◌, ◌==◌,
  if◌then◌else◌,
}
use flumine.Prelude.Int.{ℤ, pos, ◌+ℤ◌, ◌-ℤ◌, ◌*ℤ◌, ◌==ℤ◌, negate, scale, min_ℤ, max_ℤ}
use flumine.Prelude.Decimal.{Price, Amount, round2, round_product}
use flumine.Order.{
  Side, back, lay, Order, OrderStatus, OrderType, limit, limit_on_close, market_on_close,
  order_size_matched, order_average_price, order_size_remaining,
}

-- `(price, size)`
abbrev pub Bet : Type 0
Bet = ℤ × Amount

-- `sum(-i[1] for i in bets)` and `sum(i[1] for i in bets)`
unfoldable pub sum_sizes : List Bet → Amount
sum_sizes [] = pos 0
sum_sizes ((price, size) ∷ bets) = size +ℤ sum_sizes bets

-- `sum((i[0] - 1) * i[1] for i in bets)`, in millionths
unfoldable pub sum_winnings : List Bet → ℤ
sum_winnings [] = pos 0
sum_winnings ((price, size) ∷ bets) = (price -ℤ pos 100) *ℤ size +ℤ sum_winnings bets

-- `calculate_matched_exposure`: the profit if the selection wins, and if it loses. A sum over no
-- bets is 0, as in the source's other branches.
unfoldable pub calculate_matched_exposure : List Bet → List Bet → Amount × Amount
calculate_matched_exposure mb ml = (
  round_product (sum_winnings mb +ℤ negate (sum_winnings ml)),
  round2 (sum_sizes ml +ℤ negate (sum_sizes mb)),
)

-- `calculate_unmatched_exposure`
unfoldable pub calculate_unmatched_exposure : List Bet → List Bet → Amount × Amount
calculate_unmatched_exposure ub ul =
    (round_product (negate (sum_winnings ul)), round2 (negate (sum_sizes ub)))

-- The lists and the liabilities that the loop of `get_exposures` fills.
pub record Bets : Type 0 where
  pub mb : List Bet
  pub ml : List Bet
  pub ub : List Bet
  pub ul : List Bet
  pub moc_win_liability : Amount
  pub moc_lose_liability : Amount

abbrev pub no_bets : Bets
no_bets = record {
  mb = [];
  ml = [];
  ub = [];
  ul = [];
  moc_win_liability = pos 0;
  moc_lose_liability = pos 0;
}

abbrev pub is_zero : Amount → Bool
is_zero x = x ==ℤ pos 0

-- The two appends of a limit order.
unfoldable pub add_matched : Order → Bets → Bets
add_matched order bets =
    let bet : Bet = (order_average_price order, order_size_matched order) in
    if is_zero (order_size_matched order) then bets else elim order.side [
      | back ↦ record bets { mb = bets.mb ++ bet ∷ [] }
      | lay ↦ record bets { ml = bets.ml ++ bet ∷ [] }
    ]

unfoldable pub add_unmatched : Price → Order → Bets → Bets
add_unmatched price order bets =
    let bet : Bet = (pos price, order_size_remaining order) in
    if price == 0 || is_zero (order_size_remaining order) then bets else elim order.side [
      | back ↦ record bets { ub = bets.ub ++ bet ∷ [] }
      | lay ↦ record bets { ul = bets.ul ++ bet ∷ [] }
    ]

unfoldable pub add_liability : Amount → Order → Bets → Bets
add_liability liability order bets = elim order.side [
  | back ↦ record bets { moc_lose_liability = bets.moc_lose_liability -ℤ liability }
  | lay ↦ record bets { moc_win_liability = bets.moc_win_liability -ℤ liability }
]

abbrev pub add_typed : OrderType → Order → Bets → Bets
add_typed (limit price size persistence_type) order bets =
    add_unmatched price order (add_matched order bets)
add_typed (limit_on_close liability price) order bets = add_liability liability order bets
add_typed (market_on_close liability) order bets = add_liability liability order bets

-- `order == exclusion`, or an order in violation
abbrev pub is_excluded : Option ℕ → Order → Bool
is_excluded none order = false
is_excluded (some id) order = order.id == id

abbrev pub is_violated : Option OrderStatus → Bool
is_violated (some OrderStatus.violation) = true
is_violated _ = false

-- The body of the loop.
unfoldable pub add_order : Option ℕ → Order → Bets → Bets
add_order exclusion order bets =
    if is_excluded exclusion order || is_violated order.status
    then bets
    else add_typed order.order_type order bets

unfoldable pub collect : Option ℕ → List Order → Bets → Bets
collect exclusion [] bets = bets
collect exclusion (order ∷ orders) bets = collect exclusion orders (add_order exclusion order bets)

pub record Exposures : Type 0 where
  pub matched_profit_if_win : Amount
  pub matched_profit_if_lose : Amount
  pub worst_potential_unmatched_profit_if_win : Amount
  pub worst_potential_unmatched_profit_if_lose : Amount
  pub worst_possible_profit_on_win : Amount
  pub worst_possible_profit_on_lose : Amount

unfoldable pub exposures_of : Bets → Exposures
exposures_of bets =
    let matched = calculate_matched_exposure bets.mb bets.ml in
    let unmatched = calculate_unmatched_exposure bets.ub bets.ul in
    record {
      matched_profit_if_win = matched.0;
      matched_profit_if_lose = matched.1;
      worst_potential_unmatched_profit_if_win = unmatched.0;
      worst_potential_unmatched_profit_if_lose = unmatched.1;
      worst_possible_profit_on_win = matched.0 +ℤ unmatched.0 +ℤ bets.moc_win_liability;
      worst_possible_profit_on_lose = matched.1 +ℤ unmatched.1 +ℤ bets.moc_lose_liability;
    }

-- `get_exposures`, of the strategy's orders on the selection
unfoldable pub get_exposures : Option ℕ → List Order → Exposures
get_exposures exclusion orders = exposures_of (collect exclusion orders no_bets)

-- `selection_exposure`
unfoldable pub selection_exposure : List Order → Amount
selection_exposure orders =
    let exposures = get_exposures none orders in
    max_ℤ
      (negate
        (min_ℤ exposures.worst_possible_profit_on_win exposures.worst_possible_profit_on_lose))
      (pos 0)
