-- ===== src/Tests/Sessions.antt =====
-- Transactions and packages on examples.
use flumine.Prelude.{ℕ, ◌+◌, ◌≡◌, refl, true, false, none, some, List, [], ◌∷◌, arith}
use flumine.Order.{OrderStatus}
use flumine.Trade.{World, violate}
use flumine.Order.{control_error}
use flumine.Blotter.{new_blotter}
use flumine.Controls.{PackageType, ControlError}
use flumine.Controls
use flumine.Controls.Hourly.{new_count}
use flumine.Package.{Pending, new_package, create_order_package}
use flumine.Package.Groups.{count_pending, count_packages, Fits, create_order_package_lem}
use flumine.Transaction.{
  Desk, Control, Transaction, returned, with_world, on_error, control_of, validate_controls,
  place_order, execute,
}
use flumine.Transaction.Requests.{IsPlaced, RefusedBy, place_order-RefusedBy, place_order-IsPlaced}
use flumine.Transaction.Execution.{count_waiting, execute_lem}
use flumine.Tests.{some_order, some_world}

-- The world with its order not placed yet.
abbrev new_world : World
new_world = record some_world { orders = λ o. some_order; contexts = λ k. none }

abbrev some_desk : Desk
some_desk = record { world = new_world; count = new_count }

abbrev some_transaction : Transaction
some_transaction = record {
  desk = some_desk;
  blotter = new_blotter;
  publish_time = 1_000;
  market_id = 10;
  bet_delay = 0;
  async_place_orders = false;
  pending_orders = false;
  pending_place = [];
  pending_cancel = (3, none) ∷ [];
  pending_update = [];
  pending_replace = [];
  sent = [];
}

-- Tests of controls that let everything through, and that refuse everything.
abbrev passing : Control
passing b package_type o d = (none, d)

abbrev refusing : Control
refusing b package_type o d = (some ControlError.market_not_open, d)

abbrev refused_desk : Desk
refused_desk = with_world (violate control_error 1) some_desk

abbrev refused_transaction : Transaction
refused_transaction = record some_transaction { desk = refused_desk }

place_order-RefusedBy_example :
    RefusedBy new_blotter 1 (passing ∷ refusing ∷ []) some_desk refused_desk
    × (refused_transaction ≡ record some_transaction { desk = refused_desk })
    × ((refused_desk.world.orders 1).status ≡ some OrderStatus.violation)
place_order-RefusedBy_example =
    place_order-RefusedBy (passing ∷ refusing ∷ []) 1 none some_transaction refused_transaction
      (unfold place_order validate_controls control_of on_error in refl)

place_order-IsPlaced_example :
    (t' : Transaction) × (place_order (passing ∷ []) 1 (some 7) true some_transaction
      ≡ returned true t')
    × IsPlaced 1 (some 7) some_transaction t'
place_order-IsPlaced_example =
    place_order-IsPlaced (passing ∷ []) 1 (some 7) some_transaction some_desk
      (unfold validate_controls in refl) refl refl

abbrev limit_of : PackageType → ℕ
limit_of Controls.place = 200
limit_of _ = 60

execute_lem_example :
    let t' = (execute limit_of some_transaction).1 in
    (count_packages 3 t'.sent ≡ count_packages 3 [] + count_waiting 3 some_transaction)
    × (count_waiting 3 t' ≡ 0)
    × (t'.desk ≡ some_transaction.desk)
    × (t'.blotter ≡ some_transaction.blotter)
execute_lem_example =
    execute_lem limit_of some_transaction 3 (omega arith) (omega arith) (omega arith) (omega arith)

abbrev some_pending : List Pending
some_pending = (1, none) ∷ (2, some 7) ∷ (3, none) ∷ (4, none) ∷ []

create_order_package_lem_example :
    let packages =
      create_order_package
        (λ chunk v. new_package 10 chunk Controls.place 0 false v)
        2
        some_pending in
    (count_packages 3 packages ≡ count_pending 3 some_pending) × Fits 2 packages
create_order_package_lem_example =
    create_order_package_lem 10 Controls.place 0 false 2 3 some_pending (omega arith)
