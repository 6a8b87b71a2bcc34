-- ===== src/Requests.antt =====
-- The requests on a placed order, `BetfairOrder.place`, `cancel`, `update` and `replace` of
-- order/order.py, and `process_current_order` of order/process.py, which takes over what the order
-- stream reports.
pub mod Guards
pub mod Stream
pub mod Statuses
pub mod Lifecycle
use flumine.Prelude.{
  ℕ, Bool, true, false, not, ◌&&◌, ◌||◌, Option, none, some, List, [], ◌∷◌, ◌==◌, if◌then◌else◌,
}
use flumine.Prelude.Int.{ℤ, pos, ◌-ℤ◌, ◌==ℤ◌, ltb_ℤ}
use flumine.Prelude.Decimal.{Price, Amount}
use flumine.Order.{
  Order, OrderStatus, OrderType, limit, limit_on_close, market_on_close, Persistence, lapse,
  persist, BetId, ExchangeStatus, CurrentOrder, order_size_remaining,
}
use flumine.Trade.{
  World, modify_order, placing, executable, execution_complete, cancelling, updating, replacing,
}

-- The messages of `OrderUpdateError`.
pub data UpdateError : Type 0 where
  no_bet_id size_reduction_too_large current_status persistence_types_match : UpdateError
  prices_match unsupported_order_type : UpdateError

pub data Request : Type 0 where
  accepted : World → Request
  refused : UpdateError → Request

abbrev pub is_executable : Option OrderStatus → Bool
is_executable (some OrderStatus.executable) = true
is_executable _ = false

abbrev pub has_bet_id : Option BetId → Bool
has_bet_id none = false
has_bet_id (some _) = true

abbrev pub same_persistence : Persistence → Persistence → Bool
same_persistence lapse lapse = true
same_persistence persist persist = true
same_persistence Persistence.market_on_close Persistence.market_on_close = true
same_persistence _ _ = false

-- `size_reduction and self.size_remaining - size_reduction < 0`
abbrev pub too_large : Option Amount → Amount → Bool
too_large none remaining = false
too_large (some x) remaining = not (x ==ℤ pos 0) && ltb_ℤ (remaining -ℤ x) (pos 0)

-- `place`
unfoldable pub place_request : ℕ → ℕ → World → World
place_request publish_time o w =
    placing o (modify_order o (λ order. record order { publish_time = some publish_time }) w)

abbrev pub cancel_limit : Option Amount → ℕ → World → Request
cancel_limit size_reduction o w =
    if too_large size_reduction (order_size_remaining (w.orders o))
    then refused size_reduction_too_large
    else if not (is_executable (w.orders o).status)
    then refused current_status
    else accepted (
        cancelling o (modify_order o (λ order. record order { size_reduction = size_reduction }) w))

abbrev pub cancel_typed : OrderType → Option Amount → ℕ → World → Request
cancel_typed (limit price size persistence_type) size_reduction o w =
    cancel_limit size_reduction o w
cancel_typed _ size_reduction o w = refused unsupported_order_type

-- `cancel`
unfoldable pub cancel_request : Option Amount → ℕ → World → Request
cancel_request size_reduction o w =
    if has_bet_id (w.orders o).bet_id
    then cancel_typed (w.orders o).order_type size_reduction o w
    else refused no_bet_id

abbrev pub update_typed : OrderType → Persistence → ℕ → World → Request
update_typed (limit price size persistence_type) new_persistence_type o w =
    if same_persistence persistence_type new_persistence_type
    then refused persistence_types_match
    else if not (is_executable (w.orders o).status)
    then refused current_status
    else accepted (
        updating o (
          modify_order o
            (λ order. record order { order_type = limit price size new_persistence_type }) w))
update_typed _ new_persistence_type o w = refused unsupported_order_type

-- `update`
unfoldable pub update_request : Persistence → ℕ → World → Request
update_request new_persistence_type o w =
    if has_bet_id (w.orders o).bet_id
    then update_typed (w.orders o).order_type new_persistence_type o w
    else refused no_bet_id

abbrev pub replace_priced : Price → Price → ℕ → World → Request
replace_priced price new_price o w =
    if price == new_price
    then refused prices_match
    else if not (is_executable (w.orders o).status)
    then refused current_status
    else accepted
        (replacing o (modify_order o (λ order. record order { new_price = some new_price }) w))

abbrev pub replace_typed : OrderType → Price → ℕ → World → Request
replace_typed (limit price size persistence_type) new_price o w = replace_priced price new_price o w
replace_typed (limit_on_close liability price) new_price o w = replace_priced price new_price o w
replace_typed (market_on_close liability) new_price o w = refused unsupported_order_type

-- `replace`
unfoldable pub replace_request : Price → ℕ → World → Request
replace_request new_price o w =
    if has_bet_id (w.orders o).bet_id
    then replace_typed (w.orders o).order_type new_price o w
    else refused no_bet_id

-- `order.current_order.status`: is it EXECUTABLE, or is it EXECUTION_COMPLETE or EXPIRED?
abbrev pub stream_executable : ExchangeStatus → Bool
stream_executable ExchangeStatus.executable = true
stream_executable _ = false

abbrev pub stream_complete : ExchangeStatus → Bool
stream_complete ExchangeStatus.execution_complete = true
stream_complete ExchangeStatus.expired = true
stream_complete _ = false

abbrev pub is_pending : Option OrderStatus → Bool
is_pending (some OrderStatus.pending) = true
is_pending _ = false

-- `update_current_order`, and the betId of an order placed asynchronously
unfoldable pub take_current : Bool → CurrentOrder → Order → Order
take_current async_place_orders current order = record order {
  current_order = some current;
  bet_id =
      if async_place_orders && not (has_bet_id order.bet_id)
      then some current.bet_id
      else order.bet_id;
}

-- The status that the stream's report stands for: of an order that is matched by the simulation the
-- status of the simulation is asked instead, which the caller gives.
unfoldable pub process_status : ExchangeStatus → ℕ → World → World
process_status status o w =
    let order = w.orders o in
    if has_bet_id order.bet_id && is_pending order.status
    then (if stream_executable status
        then executable o w
        else if stream_complete status
        then execution_complete o w
        else w)
    else if is_executable order.status
    then if stream_complete status then execution_complete o w else w
    else w

-- `process_current_order`
unfoldable pub process_current_order : Bool → CurrentOrder → ExchangeStatus → ℕ → World → World
process_current_order async_place_orders current simulated_status o w =
    let w' = modify_order o (take_current async_place_orders current) w in
    process_status (if (w.orders o).is_simulated then simulated_status else current.status) o w'
