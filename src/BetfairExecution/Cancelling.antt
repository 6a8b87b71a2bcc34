-- ===== src/BetfairExecution/Cancelling.antt =====
-- After the reports of a package of cancellations no order of it is left CANCELLING.
use flumine.Prelude.{
  ℕ, ◌+◌, ◌≡◌, ◌⊎◌, refl, ap, ◌∙◌, Bool, true, false, ◌||◌, Option, some, List, [], ◌∷◌, ◌==◌,
  arith, contains, moves_or, or_true, Bool-cases, inl, inr,
}
use flumine.Order.{OrderStatus, set_status, clear_update_data, order_size_remaining}
use flumine.Trade.{
  World, TradeStatus, set_order, set_trade, set_context, set_trade_status, finish_trade,
  complete_trade, trade_update_status, enter_trade, exit_trade, order_update_status, executable,
  execution_complete,
}
use flumine.Package.{Package, package_orders}
use flumine.Execution.{Exchange, count_failures}
use flumine.BetfairExecution.{
  ReportStatus, CancelInstructionReport, Lookup, order_lookup, pop_order, in_trade,
  settle_cancel_report, cancel_reports, reset_left, process_cancel, failed, cancels_all,
}
use flumine.BetfairExecution.Lookups.{
  found, pop_order-found, DistinctBets, order_lookup-found, All-absent_nil,
}

-- The order is EXECUTABLE or EXECUTION_COMPLETE.
abbrev pub is_settled_status : Option OrderStatus → Bool
is_settled_status (some OrderStatus.executable) = true
is_settled_status (some OrderStatus.execution_complete) = true
is_settled_status _ = false

abbrev pub is_settled : ℕ → World → Bool
is_settled o w = is_settled_status (w.orders o).status

update_status-orders :
    (t : ℕ) (status : TradeStatus) (w : World) → (trade_update_status t status w).orders ≡ w.orders
unfolding trade_update_status complete_trade finish_trade set_trade_status set_trade set_context
update_status-orders t status w = ground arith

executable-settled :
    (o p : ℕ) (w : World) → is_settled p (executable o w) ≡ (p == o || is_settled p w)
unfolding executable order_update_status set_order set_status clear_update_data complete_trade
    finish_trade set_trade_status set_trade set_context
executable-settled o p w = ground arith

complete-settled :
    (o p : ℕ) (w : World) → is_settled p (execution_complete o w) ≡ (p == o || is_settled p w)
unfolding execution_complete order_update_status set_order set_status clear_update_data
    complete_trade finish_trade set_trade_status set_trade set_context
complete-settled o p w = ground arith

report_cases :
    (s : ReportStatus)
    → (s ≡ ReportStatus.success) ⊎ ((s ≡ ReportStatus.failure) ⊎ (s ≡ ReportStatus.timeout))
report_cases ReportStatus.success = inl refl
report_cases ReportStatus.failure = inr (inl refl)
report_cases ReportStatus.timeout = inr (inr refl)

report-settled :
    (r : CancelInstructionReport) (o p : ℕ) (w : World)
    → is_settled p (settle_cancel_report r o w) ≡ (p == o || is_settled p w)
unfolding settle_cancel_report
report-settled r o p w = elim (report_cases r.status) [
  | inl ok ↦ elim (Bool-cases (cancels_all r.size_cancelled (order_size_remaining (w.orders o)))) [
    | inl whole ↦ rw (settle_cancel_report, ok, whole) (complete-settled o p w)
    | inr part ↦ rw (settle_cancel_report, ok, part) (executable-settled o p w)
  ]
  | inr (inl not_done) ↦ rw (settle_cancel_report, not_done) (executable-settled o p w)
  | inr (inr late) ↦ rw (settle_cancel_report, late) (executable-settled o p w)
]

in_trade-settled :
    (o p : ℕ) (f : World → World) (w : World)
    → ((v : World) → is_settled p (f v) ≡ (p == o || is_settled p v))
    → is_settled p (in_trade o f w) ≡ (p == o || is_settled p w)
unfolding enter_trade exit_trade
in_trade-settled o p f w h =
    let t = (w.orders o).trade in
    ap (λ s. is_settled_status (s p).status)
      (update_status-orders t TradeStatus.live (f (enter_trade t w)))
    ∙ h (enter_trade t w)
    ∙ ap (λ s. p == o || is_settled_status (s p).status)
        (update_status-orders t TradeStatus.pending w)

reset_left-settled :
    (p : ℕ) (l : Lookup) (w : World)
    → (contains p (found l) || is_settled p w) ≡ true
    → is_settled p (reset_left l w) ≡ true
unfolding reset_left
reset_left-settled p [] w h = h
reset_left-settled p (item ∷ l) w h =
    reset_left-settled p l (in_trade item.1 (executable item.1) w) (
      rw (in_trade-settled item.1 p (executable item.1) w (executable-settled item.1 p))
        (ground arith))

-- Each report is of an order of the lookup, and no two of one order.
abbrev pub Answered : List CancelInstructionReport → Lookup → Type 0
Answered [] l = Unit
Answered (r ∷ rs) l =
    (o : ℕ) × (l' : Lookup) × (pop_order r.bet_id l ≡ some (o, l')) × Answered rs l'

cancel_reports-settled :
    (rs : List CancelInstructionReport) (l : Lookup) (w : World)
    → Answered rs l
    → (w' : World) × (left : Lookup) × (n : ℕ) × (cancel_reports rs l w ≡ some (w', left, n))
      × ((p : ℕ)
          → (contains p (found l) || is_settled p w) ≡ true
          → (contains p (found left) || is_settled p w') ≡ true)
unfolding cancel_reports
cancel_reports-settled [] l w h = (w, l, 0, refl, λ p k. k)
cancel_reports-settled (r ∷ rs) l w (o, l', popped, answered) =
    let v = in_trade o (settle_cancel_report r o) w in
    let (w', left, n, runs, keeps) = cancel_reports-settled rs l' v answered in
    (
      w',
      left,
      failed r.status + n,
      rw (cancel_reports, popped, runs) refl,
      λ p k. keeps p (
          rw (in_trade-settled o p (settle_cancel_report r o) w (report-settled r o p)) (
            moves_or (contains p (found l')) (contains p (found l)) (p == o) (is_settled p w)
              (pop_order-found p o r.bet_id l l' popped) k)),
    )

count_failures-world : (n : ℕ) (x : Exchange) → (count_failures n x).world ≡ x.world
count_failures-world n x = ground arith

-- Where the bet ids of a package's orders differ, and each report is of an order of the package and
-- no two of one order, the cancellation raises nothing and each order of the package is then
-- EXECUTABLE or EXECUTION_COMPLETE, whether a report is of it or not.
pub process_cancel-settles :
    (p : Package) (rs : List CancelInstructionReport) (x : Exchange)
    → DistinctBets x.world.orders (package_orders x.world.orders p)
    → Answered rs (order_lookup x.world.orders (package_orders x.world.orders p) [])
    → (x' : Exchange) × (process_cancel p rs x ≡ some x')
      × ((o : ℕ)
          → contains o (package_orders x.world.orders p) ≡ true
          → is_settled o x'.world ≡ true)
unfolding process_cancel
process_cancel-settles p rs x distinct answered =
    let os = package_orders x.world.orders p in
    let (w, left, n, runs, keeps) =
      cancel_reports-settled rs (order_lookup x.world.orders os []) x.world answered in
    (
      count_failures n (record x { world = reset_left left w }),
      rw (process_cancel, runs) refl,
      λ o listed.
          ap (is_settled o) (count_failures-world n (record x { world = reset_left left w }))
          ∙ reset_left-settled o left w (
              keeps o (
                or_true (contains o (found (order_lookup x.world.orders os [])))
                  (is_settled o x.world)
                  (order_lookup-found x.world.orders o os [] distinct
                    (All-absent_nil x.world.orders os) (or_true (contains o os) false listed)))),
    )
