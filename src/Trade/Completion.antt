-- ===== src/Trade/Completion.antt =====
-- A trade completes with the last of its orders, and not before.
use flumine.Prelude.{
  ℕ, ◌≡◌, refl, ap, true, false, ◌||◌, none, some, List, [], ◌∷◌, arith, ◌==◌, contains,
  contains-remove_self, Distinct,
}
use flumine.Order.{OrderStatus, set_status, clear_update_data, complete, status_complete}
use flumine.Strategy.{context_reset}
use flumine.Trade.{
  live, complete_, World, trade_key, set_order, set_trade, set_context, get_runner_context,
  set_trade_status, finish_trade, complete_trade, is_violation, orders_complete, trade_complete,
  order_update_status, execution_complete,
}

-- The trades whose runner context still counts them as live.
abbrev pub live_in_context : World → ℕ → List ℕ
live_in_context w t = (get_runner_context (trade_key (w.trades t)) w).live_trades

pub orders_complete_of :
    (w : World) (os : List ℕ)
    → ((o : ℕ) → contains o os ≡ true → complete (w.orders o).status ≡ true)
    → orders_complete w os ≡ true
unfolding orders_complete
orders_complete_of w [] h = refl
orders_complete_of w (o ∷ os) h =
    ground (arith, h o, orders_complete_of w os (λ p m. h p (ground arith)))

orders_incomplete :
    (w : World) (o : ℕ) (os : List ℕ)
    → contains o os ≡ true
    → complete (w.orders o).status ≡ false
    → orders_complete w os ≡ false
unfolding orders_complete
orders_incomplete w o [] m h = cc
orders_incomplete w o (p ∷ os) m h = ground (arith, orders_incomplete w o os)

module _ (o : ℕ) (w : World) where
  abbrev t : ℕ
  t = (w.orders o).trade

  -- Every other order of the trade, offset or not, is complete.
  abbrev pub OthersComplete : Type 0
  OthersComplete =
      (p : ℕ)
      → (contains p (w.trades t).orders || contains p (w.trades t).offset_orders) ≡ true
      → (p == o) ≡ false
      → complete (w.orders p).status ≡ true

  module _ (status : OrderStatus) (done : status_complete status ≡ true) where
    abbrev after : World
    after = set_order o (set_status status (w.orders o)) w

    all_complete :
        OthersComplete
        → (p : ℕ) → (contains p (w.trades t).orders || contains p (w.trades t).offset_orders) ≡ true
        → complete (after.orders p).status ≡ true
    unfolding set_order set_status complete
    all_complete others p m = ground (arith, others p, done)

    completes : (w.trades t).status ≡ live → OthersComplete → trade_complete after t ≡ true
    unfolding set_order trade_complete
    completes lives others = ground (
      arith,
      orders_complete_of after (w.trades t).orders (λ p m. all_complete others p (ground arith)),
      orders_complete_of after (w.trades t).offset_orders
          (λ p m. all_complete others p (ground arith)),
    )

-- What `complete_trade` leaves.
pub record IsCompleted (t : ℕ) (w w' : World) : Type 0 where
  pub orders_eq : w'.orders ≡ w.orders
  pub status_eq : (w'.trades t).status ≡ complete_
  pub time_eq : (w'.trades t).date_time_complete ≡ some w.clock
  pub reset_eq : contains t (live_in_context w' t) ≡ false

pub complete_trade-IsCompleted :
    (t : ℕ) (w : World) → Distinct (live_in_context w t) → IsCompleted t w (complete_trade t w)
unfolding complete_trade finish_trade set_trade_status set_trade set_context get_runner_context
    context_reset
complete_trade-IsCompleted t w distinct = record {
  orders_eq = refl;
  status_eq = ground arith;
  time_eq = ground arith;
  reset_eq = ground (arith, contains-remove_self t (live_in_context w t) distinct);
}

-- A closing status of the last open order completes the trade.
order_update_status-IsCompleted :
    (o : ℕ) (w : World) (status : OrderStatus)
    → status_complete status ≡ true
    → is_violation status ≡ false
    → (w.trades (w.orders o).trade).status ≡ live
    → OthersComplete o w
    → Distinct (live_in_context w (w.orders o).trade)
    → IsCompleted
        (w.orders o).trade
        (set_order o (set_status status (w.orders o)) w)
        (order_update_status o status w)
unfolding order_update_status
order_update_status-IsCompleted o w status closing kept lives others distinct =
    rw (completes o w status closing lives others, kept)
      (complete_trade-IsCompleted (w.orders o).trade
        (set_order o (set_status status (w.orders o)) w) same)
  where
    same :
        Distinct
          (live_in_context (set_order o (set_status status (w.orders o)) w) (w.orders o).trade)
    same = unfold set_order get_runner_context in distinct

-- The order whose execution completes as the last of a live trade: the order has the status and
-- nothing left to update, the trade is complete as of now, and the runner context no longer counts
-- it as live.
pub execution_complete-completes :
    (o : ℕ) (w : World)
    → (w.trades (w.orders o).trade).status ≡ live
    → OthersComplete o w
    → Distinct (live_in_context w (w.orders o).trade)
    → let w' = execution_complete o w in
      let t = (w.orders o).trade in
      ((w'.orders o).status ≡ some OrderStatus.execution_complete)
      × ((w'.orders o).size_reduction ≡ none)
      × ((w'.trades t).status ≡ complete_)
      × ((w'.trades t).date_time_complete ≡ some w.clock)
      × (contains t (live_in_context w' t) ≡ false)
unfolding execution_complete set_order set_status clear_update_data get_runner_context
execution_complete-completes o w lives others distinct =
    let c =
      order_update_status-IsCompleted o w OrderStatus.execution_complete
        (unfold status_complete in refl) refl lives others distinct in
    (
      ground (arith, ap (λ f. (f o).status) c.orders_eq),
      ground arith,
      c.status_eq,
      c.time_eq,
      c.reset_eq,
    )

-- An order of the trade that takes a status which is not a closing one leaves every trade and every
-- runner context as it was, and only its own record is changed: the status is set and logged.
pub order_update_status-keeps :
    (o : ℕ) (w : World) (status : OrderStatus)
    → status_complete status ≡ false
    → contains o (w.trades (w.orders o).trade).orders ≡ true
    → order_update_status o status w ≡ set_order o (set_status status (w.orders o)) w
unfolding order_update_status trade_complete
order_update_status-keeps o w status open_ member =
    let after = set_order o (set_status status (w.orders o)) w in
    let stays : orders_complete after (after.trades (w.orders o).trade).orders ≡ false =
      orders_incomplete after o (after.trades (w.orders o).trade).orders
        (unfold set_order in member) (unfold set_order set_status complete in ground arith) in
    ground arith
