-- ===== src/Execution/Replacing/Refusal.antt =====
-- A replacement needs a cancellation that succeeds.
use flumine.Prelude.{ℕ, ◌≡◌, false, none, List, ◌∷◌, arith, Option-cases, inl, inr}
use flumine.Book.{is_open}
use flumine.Order.{Order}
use flumine.Trade.{enter_trade}
use flumine.Simulated.{PlaceTerms, cancel}
use flumine.Package.{Package, package_orders}
use flumine.Execution.{Exchange}
use flumine.Execution.Replacing.{replace_cancelled, replace_one, replace_each, execute_replace}

cancel_shut :
    (x : Exchange) (order : Order)
    → is_open x.book.status ≡ false
    → (cancel x.book order).0.size_cancelled ≡ none
unfolding cancel
cancel_shut x order shut = ground arith

replace_one_shut :
    (terms : PlaceTerms) (o : ℕ) (x : Exchange)
    → is_open x.book.status ≡ false
    → replace_one terms o x ≡ none
unfolding replace_one replace_cancelled
replace_one_shut terms o x shut =
    let order = (enter_trade (x.world.orders o).trade x.world).orders o in
    elim (Option-cases (x.world.orders o).new_price) [
      | inl missing ↦ rw (replace_one, missing)
      | inr (price, known) ↦ rw (replace_one, known, cancel_shut x order shut)
    ]

-- A package of replacements that holds an order raises an exception where the market is not open,
-- whatever the orders are.
pub execute_replace_shut :
    (terms : PlaceTerms) (p : Package) (x : Exchange) (o : ℕ) (os : List ℕ)
    → package_orders x.world.orders p ≡ o ∷ os
    → is_open x.book.status ≡ false
    → execute_replace terms p x ≡ none
unfolding execute_replace replace_each
execute_replace_shut terms p x o os waiting shut =
    rw (execute_replace, waiting, replace_each, replace_one_shut terms o x shut)
