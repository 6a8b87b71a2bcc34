-- ===== src/Framework/Steps.antt =====
-- The framework with its threads: a step handles the next event, or is another thread's, which puts
-- an event into the queue, changes the store or changes a market's blotter.
use flumine.Prelude.{ℕ, ◌≡◌, some, List, ◌∷◌}
use flumine.Trade.{World}
use flumine.Blotter.{Blotter}
use flumine.Framework.{Event, Framework, Hooks, on_floor, change_market, put, process_event}

pub data Step (hooks : Hooks) : Framework → Framework → Type 0 where
  arrives : (event : Event) (s : Framework) → Step hooks s (put event s)
  executes :
      (w : World) (s : Framework) → Step hooks s (record s { floor = record s.floor { world = w } })
  stores :
      (market_id : ℕ) (b : Blotter) (s : Framework)
      → Step hooks s (on_floor (change_market market_id (λ m. record m { blotter = b })) s)
  handles :
      (event : Event) (rest : List Event) (s s' : Framework)
      → s.handler_queue ≡ event ∷ rest
      → process_event hooks event (record s { handler_queue = rest }) ≡ some s'
      → Step hooks s s'

pub data Run (hooks : Hooks) : Framework → Framework → Type 0 where
  stop : (s : Framework) → Run hooks s s
  go : (s s' s'' : Framework) → Step hooks s s' → Run hooks s' s'' → Run hooks s s''
