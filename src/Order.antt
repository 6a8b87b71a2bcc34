-- ===== src/Order.antt =====
-- The order of order/order.py, its order types (order/ordertype.py) and the record of its simulated
-- matching (the fields of backtest/simulated.py). The methods on the order alone stand here; those
-- that reach its trade are in `Trade`.
use flumine.Prelude.{ℕ, Bool, true, false, Option, none, some, List, [], ◌∷◌, ◌++◌, if◌then◌else◌}
use flumine.Prelude.Int.{ℤ, pos, ◌-ℤ◌, ◌==ℤ◌, ltb_ℤ}
use flumine.Prelude.Decimal.{Price, Amount, round2}
use flumine.Book.{RunnerStatus}
use flumine.Wap.{Fill}

pub data Side : Type 0 where
  back lay : Side

pub data OrderStatus : Type 0 where
  pending cancelling updating replacing : OrderStatus
  executable execution_complete expired violation : OrderStatus

pub data Persistence : Type 0 where
  lapse persist market_on_close : Persistence

-- `LimitOrder`, `LimitOnCloseOrder` and `MarketOnCloseOrder`; the instruction options that the
-- framework only passes on (time in force, minimum fill, bet target) are left out.
pub data OrderType : Type 0 where
  limit : (price : Price) (size : Amount) (persistence_type : Persistence) → OrderType
  limit_on_close : (liability : Amount) (price : Price) → OrderType
  market_on_close : (liability : Amount) → OrderType

-- A bet identifier is a text. `str(None)`, which a refused simulated placement yields, is one too.
pub data BetId : Type 0 where
  bet : ℕ → BetId
  none_text : BetId

pub record Simulated : Type 0 where
  pub size_matched : Amount
  pub average_price_matched : ℤ
  pub matched : List Fill
  pub size_cancelled : Amount
  pub size_lapsed : Amount
  pub size_voided : Amount
  pub market_version : Option ℕ
  pub piq : Amount
  pub bsp_reconciled : Bool

-- `Simulated.__init__`
abbrev pub fresh_simulated : Simulated
fresh_simulated = record {
  size_matched = pos 0;
  average_price_matched = pos 0;
  matched = [];
  size_cancelled = pos 0;
  size_lapsed = pos 0;
  size_voided = pos 0;
  market_version = none;
  piq = pos 0;
  bsp_reconciled = false;
}

-- What the framework reads of a `CurrentOrder` of the order stream and of a place instruction report.
pub data ExchangeStatus : Type 0 where
  pending executable execution_complete expired : ExchangeStatus

pub record CurrentOrder : Type 0 where
  pub bet_id : BetId
  pub status : ExchangeStatus
  pub average_price_matched : ℤ
  pub size_matched : Amount
  pub size_remaining : Amount

pub record PlaceReport : Type 0 where
  pub average_price_matched : ℤ
  pub size_matched : Amount

pub data ViolationMsg : Type 0 where
  control_error strategy_refused : ViolationMsg

-- `update_data` of the source is the two optional fields `size_reduction` and `new_price`;
-- `strategy` is `trade.strategy`, `is_simulated` is `_simulated`, and the last
-- of the responses are `responses.current_order`, `.place_response` and `.date_time_placed`.
pub record Order : Type 0 where
  pub id : ℕ
  pub trade : ℕ
  pub strategy : ℕ
  pub side : Side
  pub order_type : OrderType
  pub market_id : ℕ
  pub selection_id : ℕ
  pub handicap : ℕ
  pub runner_status : Option RunnerStatus
  pub number_of_dead_heat_winners : Option ℕ
  pub status : Option OrderStatus
  pub status_log : List OrderStatus
  pub violation_msg : Option ViolationMsg
  pub bet_id : Option BetId
  pub size_reduction : Option Amount
  pub new_price : Option Price
  pub simulated : Simulated
  pub is_simulated : Bool
  pub current_order : Option CurrentOrder
  pub place_response : Option PlaceReport
  pub date_time_placed : Option ℕ
  pub publish_time : Option ℕ
  pub date_time_execution_complete : Option ℕ
  pub cleared_order : Option ℕ

-- `BaseOrder.__init__`
abbrev pub new_order : Bool → ℕ → ℕ → ℕ → Side → OrderType → ℕ → ℕ → ℕ → Order
new_order is_simulated id trade strategy side order_type market_id selection_id handicap = record {
  id = id;
  trade = trade;
  strategy = strategy;
  side = side;
  order_type = order_type;
  market_id = market_id;
  selection_id = selection_id;
  handicap = handicap;
  runner_status = none;
  number_of_dead_heat_winners = none;
  status = none;
  status_log = [];
  violation_msg = none;
  bet_id = none;
  size_reduction = none;
  new_price = none;
  simulated = fresh_simulated;
  is_simulated = is_simulated;
  current_order = none;
  place_response = none;
  date_time_placed = none;
  publish_time = none;
  date_time_execution_complete = none;
  cleared_order = none;
}

-- The first two lines of `BaseOrder._update_status`.
unfoldable pub set_status : OrderStatus → Order → Order
set_status status order = record order {
  status_log = order.status_log ++ status ∷ [];
  status = some status;
}

-- `update_data.clear()`
unfoldable pub clear_update_data : Order → Order
clear_update_data order = record order { size_reduction = none; new_price = none }

unfoldable pub status_complete : OrderStatus → Bool
status_complete execution_complete = true
status_complete expired = true
status_complete violation = true
status_complete _ = false

-- `BaseOrder.complete`, which is false for an order with no status yet
unfoldable pub complete : Option OrderStatus → Bool
unfolding status_complete
complete none = false
complete (some status) = status_complete status

-- `Simulated.size_remaining`
unfoldable pub size_remaining : OrderType → Simulated → Amount
size_remaining (limit price size persistence_type) s =
    round2 (size -ℤ s.size_matched -ℤ s.size_cancelled -ℤ s.size_lapsed -ℤ s.size_voided)
size_remaining _ s = pos 0

-- `Simulated.take_sp`
unfoldable pub take_sp : OrderType → Bool
take_sp (limit price size market_on_close) = true
take_sp (limit price size _) = false
take_sp _ = true

-- `Simulated.status`: is it EXECUTION_COMPLETE?
unfoldable pub simulated_complete : OrderType → Simulated → Bool
unfolding take_sp size_remaining
simulated_complete order_type s =
    if take_sp order_type then s.bsp_reconciled else size_remaining order_type s ==ℤ pos 0

-- `BetfairOrder.size_matched`: of the simulation, the stream, the place response, or 0
unfoldable pub order_size_matched : Order → Amount
order_size_matched order =
    if order.is_simulated then order.simulated.size_matched else elim order.current_order [
      | some current ↦ current.size_matched
      | none ↦ elim order.place_response [ some report ↦ report.size_matched | none ↦ pos 0 ]
    ]

-- `BetfairOrder.average_price_matched`
unfoldable pub order_average_price : Order → ℤ
order_average_price order =
    if order.is_simulated then order.simulated.average_price_matched else elim order.current_order [
      | some current ↦ current.average_price_matched
      | none ↦ elim order.place_response [
        | some report ↦ report.average_price_matched
        | none ↦ pos 0
      ]
    ]

-- What remains where no report says so: neither a place response nor nothing has a size remaining.
unfoldable pub unreported_remaining : OrderType → Amount → Amount
unreported_remaining (limit price size persistence_type) matched =
    if ltb_ℤ (pos 0) matched then round2 (size -ℤ matched) else size
unreported_remaining (limit_on_close liability price) matched = liability
unreported_remaining (market_on_close liability) matched = liability

-- `BetfairOrder.size_remaining`
unfoldable pub order_size_remaining : Order → Amount
order_size_remaining order =
    if order.is_simulated
    then size_remaining order.order_type order.simulated
    else elim order.current_order [
      | some current ↦ current.size_remaining
      | none ↦ unreported_remaining order.order_type (order_size_matched order)
    ]
