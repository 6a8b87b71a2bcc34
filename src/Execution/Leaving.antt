-- ===== src/Execution/Leaving.antt =====
-- Leaving the context of a trade completes it with the last of its orders.
use flumine.Prelude.{ℕ, ◌≡◌, refl, sym, subst, ◌∙◌, ap, true, ◌||◌, some, arith, contains, Distinct}
use flumine.Order.{OrderStatus, set_status, clear_update_data, complete}
use flumine.Trade.{
  World, TradeStatus, pending, live, set_order, set_trade, set_trade_status, enter_trade,
  exit_trade, trade_update_status, trade_complete, order_update_status, execution_complete,
  trade_key, modify_order, stamp_complete, get_runner_context,
}
use flumine.Trade.Completion.{
  live_in_context, orders_complete_of, IsCompleted, complete_trade-IsCompleted,
}

-- While a trade is PENDING nothing completes it.
pub enter_trade-eq : (t : ℕ) (w : World) → enter_trade t w ≡ set_trade_status t pending w
unfolding enter_trade trade_update_status trade_complete set_trade_status set_trade
enter_trade-eq t w = ground arith

-- The order that has ended, in a store whose trade is PENDING.
abbrev pub ended : ℕ → World → World
ended o w =
    modify_order o (λ order. clear_update_data (stamp_complete w.clock order))
      (set_order o (set_status OrderStatus.execution_complete (w.orders o)) w)

pub execution_complete-pending :
    (o : ℕ) (w : World)
    → (w.trades (w.orders o).trade).status ≡ pending
    → execution_complete o w ≡ ended o w
unfolding execution_complete order_update_status trade_complete set_order
execution_complete-pending o w e = ground arith

pub ended-status :
    (o : ℕ) (w : World) → ((ended o w).orders o).status ≡ some OrderStatus.execution_complete
unfolding set_order set_status clear_update_data
ended-status o w = ground arith

status_trade :
    (t : ℕ) (status : TradeStatus) (w : World)
    → trade_key ((set_trade_status t status w).trades t) ≡ trade_key (w.trades t)
unfolding set_trade_status set_trade
status_trade t status w = ground arith

pub status_context :
    (t : ℕ) (status : TradeStatus) (w : World)
    → live_in_context (set_trade_status t status w) t ≡ live_in_context w t
unfolding get_runner_context set_trade_status set_trade
status_context t status w = ap (λ k. (get_runner_context k w).live_trades) (status_trade t status w)

pub status_orders :
    (t : ℕ) (status : TradeStatus) (w : World)
    → (((set_trade_status t status w).trades t).orders ≡ (w.trades t).orders)
      × (((set_trade_status t status w).trades t).offset_orders ≡ (w.trades t).offset_orders)
      × (((set_trade_status t status w).trades t).status ≡ status)
      × ((set_trade_status t status w).orders ≡ w.orders)
unfolding set_trade_status set_trade
status_orders t status w = (ground arith, ground arith, ground arith, refl)

completes :
    (t : ℕ) (w : World)
    → (w.trades t).status ≡ live
    → ((p : ℕ)
        → (contains p (w.trades t).orders || contains p (w.trades t).offset_orders) ≡ true
        → complete (w.orders p).status ≡ true)
    → trade_complete w t ≡ true
unfolding trade_complete
completes t w lives all = ground (
  arith,
  orders_complete_of w (w.trades t).orders (λ p m. all p (ground arith)),
  orders_complete_of w (w.trades t).offset_orders (λ p m. all p (ground arith)),
)

-- Leaving the context of a trade whose orders are all complete completes the trade.
pub exit_trade-completes :
    (t : ℕ) (w : World)
    → ((p : ℕ)
        → (contains p (w.trades t).orders || contains p (w.trades t).offset_orders) ≡ true
        → complete (w.orders p).status ≡ true)
    → Distinct (live_in_context w t)
    → IsCompleted t (set_trade_status t live w) (exit_trade t w)
unfolding exit_trade trade_update_status
exit_trade-completes t w all distinct = rw done (
    complete_trade-IsCompleted t (set_trade_status t live w)
      (subst Distinct (sym (status_context t live w)) distinct))
  where
    done : trade_complete (set_trade_status t live w) t ≡ true
    done =
        let (orders_eq, offset_eq, status_eq, store_eq) = status_orders t live w in
        completes t (set_trade_status t live w) status_eq
          (λ p m. ap (λ f. complete (f p).status) store_eq ∙ all p (rw (orders_eq, offset_eq) at m))
