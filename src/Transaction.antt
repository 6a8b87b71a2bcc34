-- ===== src/Transaction.antt =====
-- The transaction of execution/transaction.py: requests pass the controls, change the orders and
-- wait in lists until they leave in packages. Market notes and the log of trades are left out.
pub mod Requests
pub mod Execution
use flumine.Prelude.{
  ℕ, ◌+◌, Bool, true, false, Option, none, some, List, [], ◌∷◌, ◌++◌, if◌then◌else◌, length,
}
use flumine.Prelude.Decimal.{Price, Amount}
use flumine.Order.{Order, Persistence, ViolationMsg, control_error}
use flumine.Strategy.{context_place}
use flumine.Trade.{World, violate, trade_key, get_runner_context, set_context}
use flumine.Requests.{
  Request, accepted, refused, UpdateError, place_request, cancel_request, update_request,
  replace_request,
}
use flumine.Blotter.{Blotter, has_order, set_item}
use flumine.Controls.{PackageType, place, cancel, update, replace, ControlError}
use flumine.Controls.Hourly.{TransactionCount}
use flumine.Package.{Package, Pending, new_package, create_order_package}

-- What the controls may change: the store, where a missing runner context is made, and the count of
-- the client.
pub record Desk : Type 0 where
  pub world : World
  pub count : TransactionCount

-- A control, of the framework or of the client: it raises an error or lets the request through.
abbrev pub Control : Type 0
Control = Blotter → PackageType → ℕ → Desk → Option ControlError × Desk

-- A market's transaction, with the framework's state that its requests reach. `sent` holds the
-- packages that were given to `process_order_package`.
pub record Transaction : Type 0 where
  pub desk : Desk
  pub blotter : Blotter
  pub publish_time : ℕ
  pub market_id : ℕ
  pub bet_delay : ℕ
  pub async_place_orders : Bool
  pub pending_orders : Bool
  pub pending_place : List Pending
  pub pending_cancel : List Pending
  pub pending_update : List Pending
  pub pending_replace : List Pending
  pub sent : List Package

-- A request returns a truth value or raises; the state is kept either way.
pub data Result : Type 0 where
  returned : Bool → Transaction → Result
  already_placed : Transaction → Result
  update_error : UpdateError → Transaction → Result

abbrev pub with_world : (World → World) → Desk → Desk
with_world f d = record d { world = f d.world }

-- `_on_error` of a control, which raises
unfoldable pub on_error : ℕ → ControlError → Desk → Option ControlError × Desk
on_error o error d = (some error, with_world (violate control_error o) d)

-- The call of a control: its `_validate`, which ends with `_on_error` at the first test that fails
unfoldable pub control_of : Control → Control
control_of validate b package_type o d =
    let (error, d') = validate b package_type o d in
    elim error [ none ↦ (none, d') | some e ↦ on_error o e d' ]

-- `_validate_controls`, which catches the error of the first control that raises
unfoldable pub validate_controls : List Control → Blotter → PackageType → ℕ → Desk → Bool × Desk
validate_controls [] b package_type o d = (true, d)
validate_controls (control ∷ controls) b package_type o d =
    let (error, d') = control b package_type o d in
    let rest = validate_controls controls b package_type o d' in
    elim error [ none ↦ rest | some e ↦ (false, d') ]

-- `runner_context.place(order.trade.id)`
unfoldable pub place_trade : ℕ → World → World
place_trade o w =
    let key = trade_key (w.trades (w.orders o).trade) in
    set_context key (context_place w.clock (w.orders o).trade (get_runner_context key w)) w

-- `place_order`, from the placing of the order on
unfoldable pub place_valid : ℕ → Option ℕ → Bool → Transaction → Result
place_valid o market_version execute t =
    let d = with_world (place_request t.publish_time o) t.desk in
    if has_order o t.blotter
    then already_placed (record t { desk = d })
    else let b = set_item o (d.world.orders o) t.blotter in
      if execute
      then returned true (record t {
        desk = with_world (place_trade o) d;
        blotter = b;
        pending_place = t.pending_place ++ (o, market_version) ∷ [];
        pending_orders = true;
      })
      else returned true (record t { desk = d; blotter = b })

-- `place_order`; an order that replaces another (`execute` is false) passes no control
unfoldable pub place_order : List Control → ℕ → Option ℕ → Bool → Transaction → Result
place_order controls o market_version execute t =
    if execute
    then (let (valid, d) = validate_controls controls t.blotter place o t.desk in
        let t' = record t { desk = d } in
        if valid then place_valid o market_version execute t' else returned false t')
    else place_valid o market_version execute t

-- What a request on a placed order does: the order's own refusal is raised.
abbrev pub requested : Request → (Transaction → Transaction) → Transaction → Result
requested (refused error) wait t = update_error error t
requested (accepted w) wait t =
    returned true (wait (record t { desk = record t.desk { world = w }; pending_orders = true }))

-- `cancel_order`
unfoldable pub cancel_order : List Control → ℕ → Option Amount → Transaction → Result
cancel_order controls o size_reduction t =
    let (valid, d) = validate_controls controls t.blotter cancel o t.desk in
    let t' = record t { desk = d } in
    if valid
    then requested (cancel_request size_reduction o d.world)
        (λ s. record s { pending_cancel = s.pending_cancel ++ (o, none) ∷ [] }) t'
    else returned false t'

-- `update_order`
unfoldable pub update_order : List Control → ℕ → Persistence → Transaction → Result
update_order controls o new_persistence_type t =
    let (valid, d) = validate_controls controls t.blotter update o t.desk in
    let t' = record t { desk = d } in
    if valid
    then requested (update_request new_persistence_type o d.world)
        (λ s. record s { pending_update = s.pending_update ++ (o, none) ∷ [] }) t'
    else returned false t'

-- `replace_order`
unfoldable pub replace_order : List Control → ℕ → Price → Option ℕ → Transaction → Result
replace_order controls o new_price market_version t =
    let (valid, d) = validate_controls controls t.blotter replace o t.desk in
    let t' = record t { desk = d } in
    if valid
    then requested (replace_request new_price o d.world)
        (λ s. record s { pending_replace = s.pending_replace ++ (o, market_version) ∷ [] }) t'
    else returned false t'

-- The packages of one list; an empty list makes none.
abbrev pub packages_of :
    (PackageType → ℕ) → Transaction → PackageType → Bool → List Pending → List Package
packages_of order_limit t package_type async_ pending =
    create_order_package
      (λ chunk v. new_package t.market_id chunk package_type t.bet_delay async_ v)
      (order_limit package_type) pending

-- `execute`; `order_limit` is the exchange's
unfoldable pub execute : (PackageType → ℕ) → Transaction → ℕ × Transaction
execute order_limit t =
    let packages =
      packages_of order_limit t place t.async_place_orders t.pending_place
      ++ packages_of order_limit t cancel false t.pending_cancel
      ++ packages_of order_limit t update false t.pending_update
      ++ packages_of order_limit t replace false t.pending_replace in
    (
      length packages,
      record t {
        pending_place = [];
        pending_cancel = [];
        pending_update = [];
        pending_replace = [];
        pending_orders = elim packages [ [] ↦ t.pending_orders | _ ∷ _ ↦ false ];
        sent = t.sent ++ packages;
      },
    )

-- `__exit__`
unfoldable pub exit_transaction : (PackageType → ℕ) → Transaction → Transaction
exit_transaction order_limit t =
    let (sent_count, t') = execute order_limit t in if t.pending_orders then t' else t
