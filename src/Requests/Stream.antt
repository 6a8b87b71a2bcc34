-- ===== src/Requests/Stream.antt =====
-- What a report of the order stream does to an order's status.
use flumine.Prelude.{ℕ, ◌≡◌, Bool, true, false, Option, some, arith}
use flumine.Order.{OrderStatus, ExchangeStatus, CurrentOrder, complete, status_complete}
use flumine.Trade.{World, set_order}
use flumine.Requests.{
  take_current, process_status, process_current_order, is_pending, is_executable,
}

-- A closing status is neither PENDING nor EXECUTABLE.
closed-idle :
    (status : Option OrderStatus)
    → complete status ≡ true
    → (is_pending status ≡ false) × (is_executable status ≡ false)
unfolding complete status_complete
closed-idle status h = ground arith

-- An order that is complete stays as it is, whatever the stream reports of it: its status, its log
-- and every other order, trade and runner context are left alone, and the report is noted.
process_current_order-keeps :
    (async_place_orders : Bool) (current : CurrentOrder) (simulated : ExchangeStatus) (o : ℕ)
    (w : World)
    → complete (w.orders o).status ≡ true
    → let w' = process_current_order async_place_orders current simulated o w in
      ((w'.orders o).status ≡ (w.orders o).status)
      × ((w'.orders o).current_order ≡ some current)
      × (w'.trades ≡ w.trades)
      × (w'.contexts ≡ w.contexts)
unfolding process_current_order process_status set_order take_current
process_current_order-keeps async_place_orders current simulated o w done =
    let (p, e) = closed-idle (w.orders o).status done in ground arith
