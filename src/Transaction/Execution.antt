-- ===== src/Transaction/Execution.antt =====
-- `execute` sends what waits and leaves nothing.
use flumine.Prelude.{ℕ, ◌+◌, ◌<◌, ◌≡◌, refl, Bool, false, List, ◌++◌, arith}
use flumine.Controls.{PackageType, place, cancel, update, replace}
use flumine.Package.{Pending}
use flumine.Package.Groups.{
  count_pending, count_packages, count_packages-append, create_order_package_lem,
}
use flumine.Transaction.{Transaction, packages_of, execute}

-- How often an order waits.
abbrev pub count_waiting : ℕ → Transaction → ℕ
count_waiting o t =
    count_pending o t.pending_place
    + count_pending o t.pending_cancel
    + count_pending o t.pending_update
    + count_pending o t.pending_replace

count-packages_of :
    (order_limit : PackageType → ℕ) (t : Transaction) (package_type : PackageType) (async_ : Bool)
    (o : ℕ) (pending : List Pending)
    → 0 < order_limit package_type
    → count_packages o (packages_of order_limit t package_type async_ pending)
      ≡ count_pending o pending
count-packages_of order_limit t package_type async_ o pending h =
    (create_order_package_lem t.market_id package_type t.bet_delay async_ (order_limit package_type)
      o pending h).0

-- The packages of the four lists.
count-sent :
    (order_limit : PackageType → ℕ) (t : Transaction) (o : ℕ)
    → 0 < order_limit place
    → 0 < order_limit cancel
    → 0 < order_limit update
    → 0 < order_limit replace
    → count_packages o (
        t.sent
        ++ (packages_of order_limit t place t.async_place_orders t.pending_place
            ++ packages_of order_limit t cancel false t.pending_cancel
            ++ packages_of order_limit t update false t.pending_update
            ++ packages_of order_limit t replace false t.pending_replace))
      ≡ count_packages o t.sent + count_waiting o t
count-sent order_limit t o p c u r =
    let ps = packages_of order_limit t place t.async_place_orders t.pending_place in
    let cs = packages_of order_limit t cancel false t.pending_cancel in
    let us = packages_of order_limit t update false t.pending_update in
    let rs = packages_of order_limit t replace false t.pending_replace in
    omega (
      arith,
      count_packages-append o t.sent (ps ++ cs ++ us ++ rs),
      count_packages-append o (ps ++ cs ++ us) rs,
      count_packages-append o (ps ++ cs) us,
      count_packages-append o ps cs,
      count-packages_of order_limit t place t.async_place_orders o t.pending_place p,
      count-packages_of order_limit t cancel false o t.pending_cancel c,
      count-packages_of order_limit t update false o t.pending_update u,
      count-packages_of order_limit t replace false o t.pending_replace r,
    )

-- With positive limits, an order is in the packages that `execute` sends as often as it waited;
-- nothing waits afterwards, and the store and the blotter are as before.
pub execute_lem :
    (order_limit : PackageType → ℕ) (t : Transaction) (o : ℕ)
    → 0 < order_limit place
    → 0 < order_limit cancel
    → 0 < order_limit update
    → 0 < order_limit replace
    → let t' = (execute order_limit t).1 in
      (count_packages o t'.sent ≡ count_packages o t.sent + count_waiting o t)
      × (count_waiting o t' ≡ 0)
      × (t'.desk ≡ t.desk)
      × (t'.blotter ≡ t.blotter)
unfolding execute
execute_lem order_limit t o p c u r = (count-sent order_limit t o p c u r, refl, refl, refl)
