-- ===== src/PaperTrading.antt =====
-- The order stream of paper trading, streams/simulatedorderstream.py, with what `process_current_orders`
-- of order/process.py does with its reports. A report is the order itself: it is found by its own id,
-- has its own bet id, and what is noted of it is never read of a simulated order, so that a report
-- comes down to the status that the simulation gives.
pub mod Reports
pub mod Syncing
use flumine.Prelude.{
  ℕ, Bool, true, false, not, ◌&&◌, Option, none, some, List, [], ◌∷◌, ◌++◌, ◌==◌, keep,
  if◌then◌else◌,
}
use flumine.Order.{Order}
use flumine.Trade.{World}
use flumine.Blotter.{iter}
use flumine.Markets.{Markets, live_orders}
use flumine.Requests.{process_status}
use flumine.Process.{Floor, simulated_status}

-- `order.simulated and order.trade.client == self.client`; a trade's client is its strategy's.
abbrev pub is_polled : (ℕ → ℕ) → ℕ → Order → Bool
is_polled client_of client order = order.is_simulated && client_of order.strategy == client

-- `_get_current_orders`
unfoldable pub get_current_orders : (ℕ → ℕ) → ℕ → World → Markets → List ℕ
get_current_orders client_of client w [] = []
get_current_orders client_of client w (item ∷ ms) =
    let rest = get_current_orders client_of client w ms in
    if item.1.closed
    then rest
    else keep (λ o. is_polled client_of client (w.orders o)) (iter item.1.blotter) ++ rest

-- The reports, one after the other
unfoldable pub process_polled : List ℕ → World → World
process_polled [] w = w
process_polled (o ∷ os) w = process_polled os (process_status (simulated_status (w.orders o)) o w)

-- One round of `run`, whose event is handled before the next one
unfoldable pub poll_orders : (ℕ → ℕ) → ℕ → Floor → Floor
poll_orders client_of client f =
    if live_orders f.markets
    then record f {
      world = process_polled (get_current_orders client_of client f.world f.markets) f.world;
    }
    else f
