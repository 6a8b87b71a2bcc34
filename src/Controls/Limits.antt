-- ===== src/Controls/Limits.antt =====
-- What the order controls let through.
use flumine.Prelude.{
  ◌≡◌, refl, sym, subst, ◌⊎◌, Bool, true, false, none, some, List, [], ◌∷◌, ◌++◌, arith, contains,
}
use flumine.Prelude.Int.{
  pos, ◌+ℤ◌, ◌≤ℤ◌, ◌<ℤ◌, ltb_ℤ, negate, scale, scale_parts, eq_of_parts, +ℤ_parts, int_laws,
}
use flumine.Prelude.Decimal.{Price, Amount, IsRound, round2, round2-IsRound}
use flumine.Ladder.{prices}
use flumine.Order.{Order, Side, Persistence, limit}
use flumine.Exposure.{get_exposures}
use flumine.Exposure.Placed.{HasRoundSizes, IsPlacedBack, get_exposures-placed_back}
use flumine.Controls.{
  Minimums, validate_size, validate_price, validate_min_size, order_validation, place,
  ExposureLimits, order_exposure_of, exposure_limits, strategy_exposure, at_risk,
}

-- A limit order that the exchange would take: a positive size of two decimal places, a price of the
-- ladder, and at least the least size or the least payout where the account has such.
pub record IsValidLimit (m : Minimums) (price : Price) (size : Amount) : Type 0 where
  pub size_positive : pos 0 <ℤ size
  pub size_round : IsRound size
  pub on_ladder : contains price prices ≡ true
  pub large_enough :
      (m.min_bet_validation ≡ false)
      ⊎ (m.min_bet_size ≤ℤ size)
      ⊎ (scale 100 m.min_bet_payout ≤ℤ scale price size)

size_valid : (size : Amount) → validate_size (some size) ≡ none → (pos 0 <ℤ size) × IsRound size
unfolding validate_size
size_valid size h =
    let same : size ≡ round2 size = eq_of_parts size (round2 size) (ground arith) in
    (ground arith, subst IsRound (sym same) (round2-IsRound size))

-- A limit order that `OrderValidation` lets through has a positive size of two decimal places and a
-- price of the ladder, and, where the account has minimums, reaches the least size or the least
-- payout.
pub order_validation-IsValidLimit :
    (m : Minimums) (side : Side) (price : Price) (size : Amount) (k : Persistence)
    → order_validation m side (limit price size k) ≡ none
    → IsValidLimit m price size
unfolding order_validation
order_validation-IsValidLimit m side price size k h =
    let sized : validate_size (some size) ≡ none = ground arith in
    let priced : validate_price (some price) ≡ none = ground arith in
    let enough : validate_min_size m price size ≡ none = ground arith in
    record {
      size_positive = (size_valid size sized).0;
      size_round = (size_valid size sized).1;
      on_ladder = unfold validate_price in ground arith;
      large_enough = unfold validate_min_size in ground arith;
    }

-- The two tests, in millionths, on amounts.
within :
    (max_order max_selection current size : Amount) (a b : Bool)
    → ltb_ℤ (scale 100 max_order) (scale 100 size) ≡ a
    → ltb_ℤ (scale 100 max_selection) (scale 100 current +ℤ scale 100 size) ≡ b
    → a ≡ false
    → b ≡ false
    → (size ≤ℤ max_order) × (current +ℤ size ≤ℤ max_selection)
within max_order max_selection current size a b e f p q = ground (
  arith,
  scale_parts 100 max_order,
  scale_parts 100 max_selection,
  scale_parts 100 current,
  scale_parts 100 size,
  +ℤ_parts (scale 100 current) (scale 100 size),
  +ℤ_parts current size,
)

-- In millionths, the exposure of a back is its size.
exposure_of_back :
    (limits : ExposureLimits) (orders : List Order) (order : Order) {price : Price} {size : Amount}
    {k : Persistence}
    → IsPlacedBack price size k order
    → exposure_limits limits place orders order ≡ none
    → (size ≤ℤ limits.max_order_exposure)
      × (negate (get_exposures none orders).worst_possible_profit_on_lose +ℤ size
          ≤ℤ limits.max_selection_exposure)
unfolding exposure_limits
exposure_of_back limits orders order {size = size} p h =
    let current = negate (get_exposures none orders).worst_possible_profit_on_lose in
    let exposure : order_exposure_of order.side order.order_type ≡ scale 100 size =
      unfold order_exposure_of in ground arith in
    let risk : at_risk order.side (get_exposures none orders) ≡ current = ground arith in
    within limits.max_order_exposure limits.max_selection_exposure current size
      (ltb_ℤ (scale 100 limits.max_order_exposure) (scale 100 size))
      (ltb_ℤ (scale 100 limits.max_selection_exposure) (scale 100 current +ℤ scale 100 size)) refl
      refl (ground arith) (ground arith)

-- A back of a size with two decimal places that `StrategyExposure` lets through for placing risks no
-- more than the strategy's limit on an order, and once it is among the strategy's orders on the
-- selection, the worst profit there on a loss is no less than minus the strategy's limit on a
-- selection. The sizes of the other orders have two decimal places too.
pub strategy_exposure-bounds_loss :
    {price : Price} {size : Amount} {k : Persistence} (limits : ExposureLimits)
    (orders : List Order) (order : Order)
    → HasRoundSizes orders
    → IsPlacedBack price size k order
    → strategy_exposure limits true place orders order ≡ none
    → (size ≤ℤ limits.max_order_exposure)
      × (negate limits.max_selection_exposure
          ≤ℤ (get_exposures none (orders ++ order ∷ [])).worst_possible_profit_on_lose)
unfolding strategy_exposure
strategy_exposure-bounds_loss limits orders order rounded p h =
    let (order_fits, selection_fits) = exposure_of_back limits orders order p h in
    (order_fits, rw (get_exposures-placed_back orders order rounded p).0 (omega int_laws))
