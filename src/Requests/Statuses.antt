-- ===== src/Requests/Statuses.antt =====
-- The statuses of the orders and their logs, under each change of a status.
use flumine.Prelude.{
  ℕ, ◌≡◌, refl, sym, ap, ◌∙◌, subst, Bool, true, false, ◌&&◌, Option, none, some, List, [], ◌∷◌,
  ◌++◌, ◌==◌, arith, if◌then◌else◌, Bool-cases, inl, inr,
}
use mathlib.Core.Bool.{true≢false}
use flumine.Order.{
  Order, OrderStatus, set_status, ExchangeStatus, CurrentOrder, ViolationMsg, clear_update_data,
}
use flumine.Trade.{
  World, set_order, modify_order, order_update_status, complete_trade, finish_trade,
  set_trade_status, set_trade, set_context, placing, stamp_complete, note_violation, executable,
  execution_complete, violate,
}
use flumine.Requests.{
  is_pending, stream_complete, stream_executable, has_bet_id, is_executable, place_request,
  process_status, process_current_order, take_current,
}

-- A status that waits for the answer to a cancellation, update or replacement.
abbrev pub is_requested : OrderStatus → Bool
is_requested OrderStatus.cancelling = true
is_requested OrderStatus.updating = true
is_requested OrderStatus.replacing = true
is_requested _ = false

-- The last of a log that follows a status.
abbrev pub last_of : Option OrderStatus → List OrderStatus → Option OrderStatus
last_of previous [] = previous
last_of previous (status ∷ log) = last_of (some status) log

-- Each requested status of the log comes right after EXECUTABLE.
abbrev pub Follows : Option OrderStatus → List OrderStatus → Type 0
Follows previous [] = Unit
Follows previous (status ∷ log) =
    (is_requested status ≡ true → is_executable previous ≡ true) × Follows (some status) log

-- The status is the last one of the log, in which requests follow EXECUTABLE.
pub record IsLogged (order : Order) : Type 0 where
  pub current : order.status ≡ last_of none order.status_log
  pub follows : Follows none order.status_log

abbrev pub Logs : World → Type 0
Logs w = (o : ℕ) → IsLogged (w.orders o)

last_of-append :
    (previous : Option OrderStatus) (log : List OrderStatus) (status : OrderStatus)
    → last_of previous (log ++ status ∷ []) ≡ some status
last_of-append previous [] status = refl
last_of-append previous (s ∷ log) status = last_of-append (some s) log status

append-Follows :
    (previous : Option OrderStatus) (log : List OrderStatus) (status : OrderStatus)
    → Follows previous log
    → (is_requested status ≡ true → is_executable (last_of previous log) ≡ true)
    → Follows previous (log ++ status ∷ [])
append-Follows previous [] status f h = (h, tt)
append-Follows previous (s ∷ log) status f h = (f.0, append-Follows (some s) log status f.1 h)

set_status-IsLogged :
    (status : OrderStatus) (order : Order)
    → IsLogged order
    → (is_requested status ≡ true → is_executable order.status ≡ true)
    → IsLogged (set_status status order)
unfolding set_status
set_status-IsLogged status order l h = record {
  current = sym (last_of-append none order.status_log status);
  follows =
      append-Follows none order.status_log status l.follows
        (λ r. subst (λ s. is_executable s ≡ true) l.current (h r));
}

-- A write that leaves the status and the log alone.
abbrev pub Silent : (Order → Order) → Type 0
Silent f =
    (order : Order) → ((f order).status ≡ order.status) × ((f order).status_log ≡ order.status_log)

Silent-IsLogged :
    (f : Order → Order) (order : Order) → Silent f → IsLogged order → IsLogged (f order)
Silent-IsLogged f order silent l = record {
  current = (silent order).0 ∙ l.current ∙ ap (last_of none) (sym (silent order).1);
  follows = subst (Follows none) (sym (silent order).1) l.follows;
}

pub set_order-Logs :
    (o : ℕ) (order : Order) (w : World) → Logs w → IsLogged order → Logs (set_order o order w)
unfolding set_order
set_order-Logs o order w logs l p = elim (Bool-cases (p == o)) [
  | inl same ↦ rw same l
  | inr other ↦ rw other (logs p)
]

pub modify_order-Logs :
    (o : ℕ) (f : Order → Order) (w : World) → Silent f → Logs w → Logs (modify_order o f w)
modify_order-Logs o f w silent logs =
    set_order-Logs o (f (w.orders o)) w logs (Silent-IsLogged f (w.orders o) silent (logs o))

-- The completion of a trade leaves the orders alone.
completion-orders :
    (b : Bool) (t : ℕ) (w : World) → (if b then complete_trade t w else w).orders ≡ w.orders
unfolding complete_trade finish_trade set_trade_status set_trade set_context
completion-orders true t w = refl
completion-orders false t w = refl

pub order_update_status-orders :
    (o : ℕ) (status : OrderStatus) (w : World)
    → (order_update_status o status w).orders
      ≡ (set_order o (set_status status (w.orders o)) w).orders
unfolding order_update_status
order_update_status-orders o status w =
    completion-orders _ (w.orders o).trade (set_order o (set_status status (w.orders o)) w)

pub order_update_status-Logs :
    (o : ℕ) (status : OrderStatus) (w : World)
    → (is_requested status ≡ true → is_executable (w.orders o).status ≡ true)
    → Logs w
    → Logs (order_update_status o status w)
order_update_status-Logs o status w h logs p =
    subst (λ orders. IsLogged (orders p)) (sym (order_update_status-orders o status w))
      (set_order-Logs o (set_status status (w.orders o)) w logs
        (set_status-IsLogged status (w.orders o) (logs o) h) p)

clear_update_data-Silent : Silent clear_update_data
unfolding clear_update_data
clear_update_data-Silent order = (refl, refl)

pub executable-Logs : (o : ℕ) (w : World) → Logs w → Logs (executable o w)
unfolding executable
executable-Logs o w logs =
    modify_order-Logs o clear_update_data _ clear_update_data-Silent
      (order_update_status-Logs o OrderStatus.executable w (λ r. absurd (true≢false (sym r))) logs)

pub execution_complete-Logs : (o : ℕ) (w : World) → Logs w → Logs (execution_complete o w)
unfolding execution_complete clear_update_data
execution_complete-Logs o w logs =
    modify_order-Logs o (λ order. clear_update_data (stamp_complete w.clock order)) _
      (λ order. (refl, refl))
      (order_update_status-Logs o OrderStatus.execution_complete w
        (λ r. absurd (true≢false (sym r))) logs)

pub violate-Logs : (msg : ViolationMsg) (o : ℕ) (w : World) → Logs w → Logs (violate msg o w)
unfolding violate clear_update_data
violate-Logs msg o w logs =
    modify_order-Logs o (λ order. clear_update_data (note_violation msg order)) _
      (λ order. (refl, refl))
      (order_update_status-Logs o OrderStatus.violation w (λ r. absurd (true≢false (sym r))) logs)

pub place_request-Logs :
    (publish_time o : ℕ) (w : World) → Logs w → Logs (place_request publish_time o w)
unfolding place_request placing
place_request-Logs publish_time o w logs =
    order_update_status-Logs o OrderStatus.pending _ (λ r. absurd (true≢false (sym r)))
      (modify_order-Logs o (λ order. record order { publish_time = some publish_time }) w
        (λ order. (refl, refl)) logs)

if-Logs : (b : Bool) (w w' : World) → Logs w → Logs w' → Logs (if b then w else w')
if-Logs true w w' l l' = l
if-Logs false w w' l l' = l'

process_status-Logs :
    (status : ExchangeStatus) (o : ℕ) (w : World) → Logs w → Logs (process_status status o w)
unfolding process_status
process_status-Logs status o w logs =
    let done = execution_complete-Logs o w logs in
    let closing = if-Logs (stream_complete status) (execution_complete o w) w done logs in
    if-Logs (has_bet_id (w.orders o).bet_id && is_pending (w.orders o).status) _ _
      (if-Logs (stream_executable status) (executable o w) _ (executable-Logs o w logs) closing)
      (if-Logs (is_executable (w.orders o).status) _ w closing logs)

pub process_current_order-Logs :
    (async_place_orders : Bool) (current : CurrentOrder) (simulated : ExchangeStatus) (o : ℕ)
    (w : World)
    → Logs w
    → Logs (process_current_order async_place_orders current simulated o w)
unfolding process_current_order take_current
process_current_order-Logs async_place_orders current simulated o w logs =
    process_status-Logs _ o (modify_order o (take_current async_place_orders current) w)
      (modify_order-Logs o (take_current async_place_orders current) w (λ order. (refl, refl)) logs)

pub written-status :
    (o : ℕ) (f : Order → Order) (w : World)
    → Silent f
    → ((modify_order o f w).orders o).status ≡ (w.orders o).status
unfolding set_order
written-status o f w silent = ground (arith, (silent (w.orders o)).0)
