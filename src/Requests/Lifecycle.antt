-- ===== src/Requests/Lifecycle.antt =====
-- The log of an order's statuses, whatever happens to the orders of the store.
use flumine.Prelude.{
  ℕ, ◌≡◌, refl, sym, subst, Bool, true, false, not, Option, some, ◌==◌, if◌then◌else◌, Bool-cases,
  of_not, inl, inr,
}
use flumine.Prelude.Decimal.{Price, Amount}
use flumine.Order.{
  Order, OrderStatus, OrderType, Side, limit, limit_on_close, market_on_close, Persistence,
  ExchangeStatus, CurrentOrder, ViolationMsg, new_order, order_size_remaining,
}
use flumine.Trade.{
  World, set_order, modify_order, order_update_status, executable, execution_complete, cancelling,
  updating, replacing, violate,
}
use flumine.Requests.{
  UpdateError, no_bet_id, has_bet_id, too_large, same_persistence, Request, accepted, refused,
  is_executable, place_request, cancel_typed, cancel_request, update_typed, update_request,
  replace_priced, replace_typed, replace_request, process_current_order,
}
use flumine.Requests.Statuses.{
  set_order-Logs, modify_order-Logs, order_update_status-Logs, executable-Logs,
  execution_complete-Logs, violate-Logs, place_request-Logs, process_current_order-Logs,
  written-status, Logs, Silent,
}

-- What is left of the store by a request, which raises where it is refused.
abbrev pub outcome : World → Request → World
outcome w (accepted w') = w'
outcome w (refused _) = w

requested-Logs :
    (status : OrderStatus) (f : Order → Order) (o : ℕ) (w : World)
    → is_executable (w.orders o).status ≡ true
    → Silent f
    → Logs w
    → Logs (order_update_status o status (modify_order o f w))
requested-Logs status f o w h silent logs =
    order_update_status-Logs o status (modify_order o f w)
      (λ r. subst (λ s. is_executable s ≡ true) (sym (written-status o f w silent)) h)
      (modify_order-Logs o f w silent logs)

-- A guard of a request: the refusal keeps the store.
guarded-Logs :
    (b : Bool) (error : UpdateError) (w : World) (request : Request)
    → Logs w
    → (b ≡ false → Logs (outcome w request))
    → Logs (outcome w (if b then refused error else request))
guarded-Logs true error w request logs h = logs
guarded-Logs false error w request logs h = h refl

module _ (o : ℕ) (w : World) (logs : Logs w) where
  cancel_typed-Logs :
      (order_type : OrderType) (x : Option Amount)
      → Logs (outcome w (cancel_typed order_type x o w))
  unfolding cancelling
  cancel_typed-Logs (limit price size k) x =
      guarded-Logs (too_large x (order_size_remaining (w.orders o))) _ w _ logs (λ fits.
        guarded-Logs (not (is_executable (w.orders o).status)) _ w _ logs (λ h.
          requested-Logs OrderStatus.cancelling (λ order. record order { size_reduction = x }) o w
            (of_not _ h) (λ order. (refl, refl)) logs))
  cancel_typed-Logs (limit_on_close l p) x = logs
  cancel_typed-Logs (market_on_close l) x = logs

  update_typed-Logs :
      (order_type : OrderType) (k : Persistence) → Logs (outcome w (update_typed order_type k o w))
  unfolding updating
  update_typed-Logs (limit price size k') k =
      guarded-Logs (same_persistence k' k) _ w _ logs (λ differs.
        guarded-Logs (not (is_executable (w.orders o).status)) _ w _ logs (λ h.
          requested-Logs OrderStatus.updating
            (λ order. record order { order_type = limit price size k }) o w (of_not _ h)
            (λ order. (refl, refl)) logs))
  update_typed-Logs (limit_on_close l p) k = logs
  update_typed-Logs (market_on_close l) k = logs

  replace_priced-Logs :
      (price new_price : Price) → Logs (outcome w (replace_priced price new_price o w))
  unfolding replacing
  replace_priced-Logs price new_price = guarded-Logs (price == new_price) _ w _ logs (λ differs.
      guarded-Logs (not (is_executable (w.orders o).status)) _ w _ logs (λ h.
        requested-Logs OrderStatus.replacing (λ order. record order { new_price = some new_price })
          o w (of_not _ h) (λ order. (refl, refl)) logs))

  replace_typed-Logs :
      (order_type : OrderType) (new_price : Price)
      → Logs (outcome w (replace_typed order_type new_price o w))
  replace_typed-Logs (limit price size k) new_price = replace_priced-Logs price new_price
  replace_typed-Logs (limit_on_close l p) new_price = replace_priced-Logs p new_price
  replace_typed-Logs (market_on_close l) new_price = logs

  -- A request that needs a bet id.
  with_bet-Logs :
      (request : Request)
      → Logs (outcome w request)
      → Logs (outcome w (if has_bet_id (w.orders o).bet_id then request else refused no_bet_id))
  with_bet-Logs request l = elim (Bool-cases (has_bet_id (w.orders o).bet_id)) [
    | inl placed ↦ rw placed l
    | inr missing ↦ rw missing logs
  ]

-- What happens to the store: an order is made, placed, requested to change, with the store as it was
-- where that raises, reported by the order stream, or put by an answer or a control into one of the
-- other statuses; or fields other than the status are written.
pub data Step : World → World → Type 0 where
  creates :
      (is_simulated : Bool) (o trade strategy : ℕ) (side : Side) (order_type : OrderType)
      (market_id selection_id handicap : ℕ) (w : World)
      → Step w (
          set_order o
            (new_order is_simulated o trade strategy side order_type market_id selection_id
              handicap)
            w)
  places : (publish_time o : ℕ) (w : World) → Step w (place_request publish_time o w)
  cancels : (x : Option Amount) (o : ℕ) (w : World) → Step w (outcome w (cancel_request x o w))
  updates : (k : Persistence) (o : ℕ) (w : World) → Step w (outcome w (update_request k o w))
  replaces : (price : Price) (o : ℕ) (w : World) → Step w (outcome w (replace_request price o w))
  reports :
      (async_place_orders : Bool) (current : CurrentOrder) (simulated : ExchangeStatus) (o : ℕ)
      (w : World)
      → Step w (process_current_order async_place_orders current simulated o w)
  rests : (o : ℕ) (w : World) → Step w (executable o w)
  completes : (o : ℕ) (w : World) → Step w (execution_complete o w)
  violates : (msg : ViolationMsg) (o : ℕ) (w : World) → Step w (violate msg o w)
  writes : (o : ℕ) (f : Order → Order) (w : World) → Silent f → Step w (modify_order o f w)

pub data Run : World → World → Type 0 where
  stop : (w : World) → Run w w
  go : (w w' w'' : World) → Step w w' → Run w' w'' → Run w w''

Step-Logs : (w w' : World) → Step w w' → Logs w → Logs w'
unfolding cancel_request update_request replace_request
Step-Logs _ _ (creates is_simulated o trade strategy side order_type m s h w) logs =
    set_order-Logs o _ w logs (record { current = refl; follows = tt })
Step-Logs _ _ (places publish_time o w) logs = place_request-Logs publish_time o w logs
Step-Logs _ _ (cancels x o w) logs =
    with_bet-Logs o w logs _ (cancel_typed-Logs o w logs (w.orders o).order_type x)
Step-Logs _ _ (updates k o w) logs =
    with_bet-Logs o w logs _ (update_typed-Logs o w logs (w.orders o).order_type k)
Step-Logs _ _ (replaces price o w) logs =
    with_bet-Logs o w logs _ (replace_typed-Logs o w logs (w.orders o).order_type price)
Step-Logs _ _ (reports async_place_orders current simulated o w) logs =
    process_current_order-Logs async_place_orders current simulated o w logs
Step-Logs _ _ (rests o w) logs = executable-Logs o w logs
Step-Logs _ _ (completes o w) logs = execution_complete-Logs o w logs
Step-Logs _ _ (violates msg o w) logs = violate-Logs msg o w logs
Step-Logs _ _ (writes o f w silent) logs = modify_order-Logs o f w silent logs

-- However orders are made, placed, requested to change, reported, answered and refused, in whatever
-- order, the status of each order is the last one it logged, and in its log each CANCELLING, UPDATING
-- and REPLACING comes right after EXECUTABLE.
pub Run-Logs : (w w' : World) → Run w w' → Logs w → Logs w'
Run-Logs _ _ (stop w) logs = logs
Run-Logs _ _ (go w w' w'' step run) logs = Run-Logs w' w'' run (Step-Logs w w' step logs)
