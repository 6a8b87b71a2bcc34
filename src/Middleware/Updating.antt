-- ===== src/Middleware/Updating.antt =====
-- The removal of other runners, and a whole market update of the middleware, keep a tracked order.
use flumine.Prelude.{ℕ, ◌≡◌, refl, subst, false, List, [], ◌∷◌, All, ==_iff, leb}
use flumine.Prelude.Decimal.{Price, Amount}
use flumine.Book.{MarketBook}
use flumine.Blotter.{Blotter, iter}
use flumine.Order.{Order, Persistence}
use flumine.Trade.{World, modify_order}
use flumine.Simulated.Placing.{IsLimit}
use flumine.Middleware.{
  StreamingUpdate, Middleware, Removal, reduce_order, remove_from, process_runner_removal,
  process_removals, process_runners, process_streaming_update, market_analytics, run_middleware,
}
use flumine.Middleware.Orders.{is_hit, pick_kept, reduced-KeepsRest}
use flumine.Middleware.Tracking.{
  IsTracked, IsFair, with_simulated, set_order-IsTracked, process_simulated_orders-IsTracked,
}

module _ (price : Price) (size : Amount) (k : Persistence) (before : Order) where
  abbrev Tracked : Order → Type 0
  Tracked = IsTracked price size k before

  remove_from-IsTracked :
      (market_id : ℕ) (r : Removal) (order : Order)
      → is_hit market_id r before ≡ false
      → Tracked order
      → Tracked (remove_from market_id r order)
  unfolding remove_from
  remove_from-IsTracked market_id r order other t =
      pick_kept Tracked order.is_simulated (is_hit market_id r order) (leb 250 r.adjustment_factor)
        _ _ _ (rw (t.market_eq, t.selection_eq, t.handicap_eq) other) t
        (with_simulated price size k before order (reduce_order r.adjustment_factor order.simulated)
          (reduced-KeepsRest r.adjustment_factor order t.limit_order).0.sound t)

  process_runner_removal-IsTracked :
      (market_id : ℕ) (r : Removal) (o : ℕ) (os : List ℕ) (w : World)
      → is_hit market_id r before ≡ false
      → Tracked (w.orders o)
      → Tracked ((process_runner_removal market_id r os w).orders o)
  unfolding process_runner_removal
  process_runner_removal-IsTracked market_id r o [] w other t = t
  process_runner_removal-IsTracked market_id r o (q ∷ os) w other t =
      process_runner_removal-IsTracked market_id r o os (modify_order q (remove_from market_id r) w)
        other
        (set_order-IsTracked price size k before o q (remove_from market_id r (w.orders q)) w
          (λ same.
            subst (λ p. Tracked (remove_from market_id r (w.orders p))) ((==_iff o q).0 same)
              (remove_from-IsTracked market_id r (w.orders o) other t))
          t)

  process_removals-IsTracked :
      (market_id : ℕ) (rs : List Removal) (o : ℕ) (os : List ℕ) (w : World)
      → All (λ r. is_hit market_id r before ≡ false) rs
      → Tracked (w.orders o)
      → Tracked ((process_removals market_id rs os w).orders o)
  unfolding process_removals
  process_removals-IsTracked market_id [] o os w others t = t
  process_removals-IsTracked market_id (r ∷ rs) o os w others t =
      process_removals-IsTracked market_id rs o os (process_runner_removal market_id r os w)
        others.1 (process_runner_removal-IsTracked market_id r o os w others.0 t)

-- The removals that a book tells of and the middleware does not know.
abbrev pub new_removals : StreamingUpdate → MarketBook → Middleware → List Removal
new_removals update book m =
    (process_runners (process_streaming_update update book.runners) book.runners
      (market_analytics book.market_id m) m.runner_removals).2

-- A market update, the removals of runners and the matching of all live orders included, keeps a
-- limit order at a positive price that is a back or does not take the starting price, where no new
-- removal is of the order's runner: it never has more matched, cancelled, lapsed and voided than its
-- size, and stays on its runner.
pub run_middleware-IsTracked :
    {price : Price} {size : Amount} {k : Persistence} (liability : Amount)
    (update : StreamingUpdate) (book : MarketBook) (b : Blotter) (m : Middleware) (w : World)
    (o : ℕ)
    → IsFair price size k (w.orders o)
    → IsLimit price size k (w.orders o)
    → All (λ r. is_hit book.market_id r (w.orders o) ≡ false) (new_removals update book m)
    → IsTracked price size k (w.orders o) ((run_middleware liability update book b m w).1.orders o)
unfolding run_middleware
run_middleware-IsTracked {price} {size} {k} liability update book b m w o fair l others =
    process_simulated_orders-IsTracked price size k (w.orders o) liability book _ o b.live_orders _
      fair
      (process_removals-IsTracked price size k (w.orders o) book.market_id
        (new_removals update book m) o (iter b) w others
        (record {
          limit_order = l;
          side_eq = refl;
          market_eq = refl;
          selection_eq = refl;
          handicap_eq = refl;
        }))
