-- ===== src/Trade.antt =====
-- The trade of order/trade.py, and the object store through which orders, trades and the runner
-- contexts of the strategies reach one another. `clock` is the time that `datetime.utcnow()` gives.
pub mod Status
pub mod Completion
use flumine.Prelude.{
  ℕ, zero, suc, Bool, true, false, not, ◌&&◌, Option, none, some, List, [], ◌∷◌, ◌++◌, ◌==◌,
  if◌then◌else◌,
}
use flumine.Order.{
  Order, OrderStatus, violation, ViolationMsg, set_status, clear_update_data, complete,
}
use flumine.Strategy.{RunnerContext, new_context, context_place, context_reset}

pub data TradeStatus : Type 0 where
  pending live complete_ : TradeStatus

pub record Trade : Type 0 where
  pub id : ℕ
  pub market_id : ℕ
  pub selection_id : ℕ
  pub handicap : ℕ
  pub strategy : ℕ
  pub place_reset_seconds : ℕ
  pub reset_seconds : ℕ
  pub orders : List ℕ
  pub offset_orders : List ℕ
  pub status : TradeStatus
  pub status_log : List TradeStatus
  pub date_time_complete : Option ℕ

-- The key of `strategy._invested`, with the strategy.
pub record ContextKey : Type 0 where
  pub strategy : ℕ
  pub market_id : ℕ
  pub selection_id : ℕ
  pub handicap : ℕ

abbrev pub same_key : ContextKey → ContextKey → Bool
same_key k j =
    k.strategy == j.strategy
    && k.market_id == j.market_id
    && k.selection_id == j.selection_id
    && k.handicap == j.handicap

-- References are identifiers: an order's or a trade's `id`.
pub record World : Type 0 where
  pub clock : ℕ
  pub orders : ℕ → Order
  pub trades : ℕ → Trade
  pub contexts : ContextKey → Option RunnerContext

abbrev pub update {ℓ} : {A : Type ℓ} → (ℕ → A) → ℕ → A → ℕ → A
update f k v j = if j == k then v else f j

unfoldable pub set_order : ℕ → Order → World → World
set_order o order w = record w { orders = update w.orders o order }

unfoldable pub set_trade : ℕ → Trade → World → World
set_trade t trade w = record w { trades = update w.trades t trade }

abbrev pub trade_key : Trade → ContextKey
trade_key trade = record {
  strategy = trade.strategy;
  market_id = trade.market_id;
  selection_id = trade.selection_id;
  handicap = trade.handicap;
}

-- `get_runner_context`: a missing context is made.
unfoldable pub get_runner_context : ContextKey → World → RunnerContext
get_runner_context key w = elim (w.contexts key) [
  | some context ↦ context
  | none ↦ new_context key.selection_id
]

unfoldable pub set_context : ContextKey → RunnerContext → World → World
set_context key context w = record w {
  contexts = λ j. if same_key j key then some context else w.contexts j;
}

-- `for order in orders: if not order.complete: return False`
unfoldable pub orders_complete : World → List ℕ → Bool
orders_complete w [] = true
orders_complete w (o ∷ os) = complete (w.orders o).status && orders_complete w os

abbrev pub is_live : TradeStatus → Bool
is_live live = true
is_live _ = false

-- `Trade.complete`
unfoldable pub trade_complete : World → ℕ → Bool
trade_complete w t =
    is_live (w.trades t).status
    && orders_complete w (w.trades t).offset_orders
    && orders_complete w (w.trades t).orders

-- The first two lines of `Trade._update_status`.
unfoldable pub set_trade_status : ℕ → TradeStatus → World → World
set_trade_status t status w =
    let trade = w.trades t in
    set_trade t (record trade { status_log = trade.status_log ++ status ∷ []; status = status }) w

-- What `complete_trade` does after the status: the time, and the reset of the runner context.
unfoldable pub finish_trade : ℕ → World → World
finish_trade t w =
    let trade = w.trades t in
    let w' = set_trade t (record trade { date_time_complete = some w.clock }) w in
    set_context (trade_key trade)
      (context_reset w.clock t (get_runner_context (trade_key trade) w')) w'

-- `complete_trade` calls `_update_status`, which calls `complete_trade` while the trade is complete:
-- the two methods as one recursion over the depth of their calls; none is a call too deep.
unfoldable pub update_status_depth : ℕ → ℕ → TradeStatus → World → Option World
update_status_depth zero t status w = none
update_status_depth (suc depth) t status w =
    let w' = set_trade_status t status w in
    let nested = update_status_depth depth t complete_ w' in
    if trade_complete w' t
    then elim nested [ none ↦ none | some w'' ↦ some (finish_trade t w'') ]
    else some w'

-- `complete_trade`, whose inner `_update_status` never recurs.
unfoldable pub complete_trade : ℕ → World → World
complete_trade t w = finish_trade t (set_trade_status t complete_ w)

-- `_update_status`
unfoldable pub trade_update_status : ℕ → TradeStatus → World → World
trade_update_status t status w =
    let w' = set_trade_status t status w in if trade_complete w' t then complete_trade t w' else w'

-- `__enter__` and the clean `__exit__`
unfoldable pub enter_trade : ℕ → World → World
enter_trade t w = trade_update_status t pending w

unfoldable pub exit_trade : ℕ → World → World
exit_trade t w = trade_update_status t live w

abbrev pub is_violation : OrderStatus → Bool
is_violation violation = true
is_violation _ = false

-- `BaseOrder._update_status`
unfoldable pub order_update_status : ℕ → OrderStatus → World → World
order_update_status o status w =
    let w' = set_order o (set_status status (w.orders o)) w in
    let t = (w.orders o).trade in
    if trade_complete w' t && not (is_violation status) then complete_trade t w' else w'

-- An assignment to fields of an order.
abbrev pub modify_order : ℕ → (Order → Order) → World → World
modify_order o f w = set_order o (f (w.orders o)) w

unfoldable pub placing : ℕ → World → World
placing o w = order_update_status o OrderStatus.pending w

unfoldable pub executable : ℕ → World → World
executable o w = modify_order o clear_update_data (order_update_status o OrderStatus.executable w)

abbrev pub stamp_complete : ℕ → Order → Order
stamp_complete now order = record order { date_time_execution_complete = some now }

unfoldable pub execution_complete : ℕ → World → World
execution_complete o w =
    modify_order o (λ order. clear_update_data (stamp_complete w.clock order))
      (order_update_status o OrderStatus.execution_complete w)

unfoldable pub cancelling : ℕ → World → World
cancelling o w = order_update_status o OrderStatus.cancelling w

unfoldable pub updating : ℕ → World → World
updating o w = order_update_status o OrderStatus.updating w

unfoldable pub replacing : ℕ → World → World
replacing o w = order_update_status o OrderStatus.replacing w

abbrev pub note_violation : ViolationMsg → Order → Order
note_violation msg order = record order { violation_msg = some msg }

unfoldable pub violate : ViolationMsg → ℕ → World → World
violate msg o w =
    modify_order o (λ order. clear_update_data (note_violation msg order))
      (order_update_status o violation w)
