-- ===== src/Controls.antt =====
-- The trading and client controls: controls/__init__.py, controls/tradingcontrols.py and
-- controls/clientcontrols.py. A control answers none, or the message with which `_on_error` raises:
-- the first message ends the control.
pub mod Limits
pub mod Hourly
use flumine.Prelude.{
  ℕ, ◌+◌, ◌*◌, ◌/◌, Bool, true, false, not, ◌&&◌, ◌||◌, Option, none, some, List, [], ◌∷◌, ◌==◌,
  ltb, leb, contains, if◌then◌else◌,
}
use flumine.Prelude.Int.{ℤ, pos, ◌+ℤ◌, ◌-ℤ◌, ◌==ℤ◌, ltb_ℤ, leb_ℤ, negate, scale}
use flumine.Prelude.Decimal.{Price, Amount, round2, winnings}
use flumine.Book.{MarketStatus, is_open}
use flumine.Ladder.{prices}
use flumine.Order.{Side, back, lay, Order, OrderType, limit, limit_on_close, market_on_close}
use flumine.Exposure.{Exposures, get_exposures}

pub data PackageType : Type 0 where
  place cancel update replace : PackageType

pub data ControlError : Type 0 where
  size_none size_not_positive size_not_round price_none price_invalid : ControlError
  liability_none liability_not_positive liability_not_round : ControlError
  below_min_bet_size below_min_liability below_min_bsp_liability : ControlError
  market_not_open strategy_refused order_exposure selection_exposure transaction_count :
      ControlError

-- Of two checks in a row the first that raises.
infixl 5 ◌then_check◌
abbrev pub ◌then_check◌ : Option ControlError → Option ControlError → Option ControlError
none then_check next = next
some error then_check next = some error

-- `_validate_betfair_size`
unfoldable pub validate_size : Option Amount → Option ControlError
validate_size none = some size_none
validate_size (some size) =
    if leb_ℤ size (pos 0)
    then some size_not_positive
    else if not (size ==ℤ round2 size)
    then some size_not_round
    else none

-- `_validate_betfair_price`
unfoldable pub validate_price : Option Price → Option ControlError
validate_price none = some price_none
validate_price (some price) = if not (contains price prices) then some price_invalid else none

-- `_validate_betfair_liability`
unfoldable pub validate_liability : Option Amount → Option ControlError
validate_liability none = some liability_none
validate_liability (some liability) =
    if leb_ℤ liability (pos 0)
    then some liability_not_positive
    else if not (liability ==ℤ round2 liability)
    then some liability_not_round
    else none

-- What the client's account fixes (clients/betfairclient.py).
pub record Minimums : Type 0 where
  pub min_bet_validation : Bool
  pub min_bet_size : Amount
  pub min_bet_payout : Amount
  pub min_bsp_liability : Amount

-- `_validate_betfair_min_size` of a limit order; the product counts millionths.
unfoldable pub validate_min_size : Minimums → Price → Amount → Option ControlError
validate_min_size m price size =
    if not m.min_bet_validation
    then none
    else if ltb_ℤ size m.min_bet_size && ltb_ℤ (scale price size) (scale 100 m.min_bet_payout)
    then some below_min_bet_size
    else none

-- The same of the orders at the starting price.
unfoldable pub validate_min_liability : Minimums → Side → Amount → Option ControlError
validate_min_liability m side liability = if not m.min_bet_validation then none else elim side [
  | back ↦ if ltb_ℤ liability m.min_bet_size then some below_min_liability else none
  | lay ↦ if ltb_ℤ liability m.min_bsp_liability then some below_min_bsp_liability else none
]

-- `OrderValidation._validate_betfair_order`
unfoldable pub order_validation : Minimums → Side → OrderType → Option ControlError
order_validation m side (limit price size persistence_type) =
    validate_size (some size)
    then_check validate_price (some price)
    then_check validate_min_size m price size
order_validation m side (limit_on_close liability price) =
    validate_price (some price)
    then_check validate_liability (some liability)
    then_check validate_min_liability m side liability
order_validation m side (market_on_close liability) =
    validate_liability (some liability) then_check validate_min_liability m side liability

-- `MarketValidation`, given the market's status if there is such a market. `_on_error` raises, so the
-- call of `order.executable()` behind it is never made.
unfoldable pub market_validation : Option MarketStatus → Option ControlError
market_validation none = none
market_validation (some status) = if is_open status then none else some market_not_open

-- The settings of the strategy that `StrategyExposure` reads.
pub record ExposureLimits : Type 0 where
  pub max_order_exposure : Amount
  pub max_selection_exposure : Amount

-- `order_exposure`, in millionths
unfoldable pub order_exposure_of : Side → OrderType → ℤ
order_exposure_of side (limit price size persistence_type) = elim side [
  | back ↦ scale 100 size
  | lay ↦ winnings price size
]
order_exposure_of side (limit_on_close liability price) = scale 100 liability
order_exposure_of side (market_on_close liability) = scale 100 liability

abbrev pub exclusion_of : PackageType → Order → Option ℕ
exclusion_of replace order = some order.id
exclusion_of _ order = none

-- `-current_exposures[..]`: a back is at risk if the selection loses, a lay if it wins.
abbrev pub at_risk : Side → Exposures → Amount
at_risk back exposures = negate exposures.worst_possible_profit_on_lose
at_risk lay exposures = negate exposures.worst_possible_profit_on_win

-- The two limits, given the strategy's orders on the selection.
unfoldable pub exposure_limits :
    ExposureLimits → PackageType → List Order → Order → Option ControlError
exposure_limits limits package_type orders order =
    let exposure = order_exposure_of order.side order.order_type in
    let current = at_risk order.side (get_exposures (exclusion_of package_type order) orders) in
    if ltb_ℤ (scale 100 limits.max_order_exposure) exposure
    then some order_exposure
    else if ltb_ℤ (scale 100 limits.max_selection_exposure) (scale 100 current +ℤ exposure)
    then some selection_exposure
    else none

-- `StrategyExposure._validate`; `valid` is what `strategy.validate_order` answers
unfoldable pub strategy_exposure :
    ExposureLimits → Bool → PackageType → List Order → Order → Option ControlError
strategy_exposure limits valid place orders order =
    if valid then exposure_limits limits place orders order else some strategy_refused
strategy_exposure limits valid replace orders order = exposure_limits limits replace orders order
strategy_exposure limits valid _ orders order = none
