-- ===== src/Backtest.antt =====
-- The backtest of backtest/backtest.py, with the part of baseflumine.py that closes a market. The
-- streams' generators do not read the framework's state, so the order of the books is computed
-- first, and then the books are processed.
pub mod Cycles
pub mod Queue
pub mod Live
pub mod Run
pub mod Ends
use flumine.Prelude.{
  ℕ, zero, suc, ◌+◌, ◌-◌, Bool, true, false, not, ◌&&◌, Option, none, some, List, [], ◌∷◌, ◌++◌,
  ◌==◌, ltb, leb, keep, length, if◌then◌else◌,
}
use flumine.Prelude.Int.{pos, ◌==ℤ◌}
use flumine.Prelude.Decimal.{Amount}
use flumine.Prelude.Dict.{lookup, insert}
use flumine.Book.{MarketBook, MarketStatus}
use flumine.Order.{Order, OrderType, limit, simulated_complete, order_size_remaining}
use flumine.Trade.{World, TradeStatus, complete_, execution_complete}
use flumine.Controls.Hourly.{TransactionCount}
use flumine.Package.{Package, Latencies, calc_simulated_delay}
use flumine.Blotter.{Blotter, complete_order, process_closed_market}
use flumine.Markets.{Market, Markets, new_market, add_market, take_book, close_market}
use flumine.Middleware.{StreamingUpdate, Middleware, run_middleware}
use flumine.Execution.{Exchange}
use flumine.Execution.Replacing.{handler}

-- `[epoch, [MarketBook], gen]`: what the generator has still to give is a list.
pub record Cycle (A : Type 0) : Type 0 where
  pub epoch : ℕ
  pub batch : A
  pub rest : List A

module _ {A : Type 0} where
  -- `cycles.sort(key=lambda x: x[0])`, which is stable
  unfoldable pub insert_cycle : Cycle A → List (Cycle A) → List (Cycle A)
  insert_cycle c [] = c ∷ []
  insert_cycle c (d ∷ cycles) =
      if leb c.epoch d.epoch then c ∷ d ∷ cycles else d ∷ insert_cycle c cycles

  unfoldable pub sort_cycles : List (Cycle A) → List (Cycle A)
  sort_cycles [] = []
  sort_cycles (c ∷ cycles) = insert_cycle c (sort_cycles cycles)

  -- Each round of the loop takes one batch.
  unfoldable pub batches : List (List A) → ℕ
  batches [] = 0
  batches (stream ∷ streams) = length stream + batches streams

module _ {A : Type 0} (epoch_of : A → ℕ) where
  abbrev pub new_cycle : A → List A → Cycle A
  new_cycle batch rest = record { epoch = epoch_of batch; batch = batch; rest = rest }

  -- "create cycles"; none is the StopIteration of a stream that gives nothing
  unfoldable pub create_cycles : List (List A) → Option (List (Cycle A))
  create_cycles [] = some []
  create_cycles ([] ∷ streams) = none
  create_cycles ((batch ∷ rest) ∷ streams) = elim (create_cycles streams) [
    | none ↦ none
    | some cycles ↦ some (new_cycle batch rest ∷ cycles)
  ]

  -- "gen next" and "add back"
  unfoldable pub add_back : List A → List (Cycle A) → List (Cycle A)
  add_back [] cycles = cycles
  add_back (batch ∷ rest) cycles = cycles ++ new_cycle batch rest ∷ []

  -- `while cycles`, with fuel for its rounds
  unfoldable pub mux_loop : ℕ → List (Cycle A) → List A
  mux_loop zero cycles = []
  mux_loop (suc fuel) cycles = elim (sort_cycles cycles) [
    | [] ↦ []
    | c ∷ others ↦ c.batch ∷ mux_loop fuel (add_back c.rest others)
  ]

  -- The batches of an event's streams in the order in which they are processed
  unfoldable pub mux : List (List A) → Option (List A)
  mux streams = elim (create_cycles streams) [
    | none ↦ none
    | some cycles ↦ some (mux_loop (batches streams) cycles)
  ]

-- A package in `handler_queue`, with the object's identity and the time of its making
pub record Waiting : Type 0 where
  pub id : ℕ
  pub request : Package
  pub created : ℕ

-- `FlumineBacktest`, with the counters of packages, of new orders and of bet ids
pub record Session : Type 0 where
  pub world : World
  pub markets : Markets
  pub handler_queue : List Waiting
  pub next_package : ℕ
  pub middleware : Middleware
  pub next_id : ℕ
  pub bet_id : ℕ
  pub count : TransactionCount

-- The settings, and the strategies: what the loops over them leave, which is the user's code.
pub record Setup : Type 0 where
  pub latencies : Latencies
  pub best_price_execution : Bool
  pub min_bsp_liability : Amount
  pub process_market_book : MarketBook → Session → Session
  pub process_orders : ℕ → Session → Session
  pub process_closed_market : MarketBook → Session → Session
  pub finish : Session → Session

-- `process_order_package`
unfoldable pub process_order_package : Package → Session → Session
process_order_package p s = record s {
  handler_queue =
      s.handler_queue
      ++ (record { id = s.next_package; request = p; created = s.world.clock }) ∷ [];
  next_package = s.next_package + 1;
}

-- The condition of `_check_pending_packages`, at a time
unfoldable pub is_due : Latencies → ℕ → ℕ → Waiting → Bool
is_due l now market_id q =
    q.request.market_id == market_id
    && ltb (calc_simulated_delay l q.request.package_type q.request.bet_delay) (now - q.created)

-- What the simulated execution reaches in a session
abbrev pub exchange : Market → MarketBook → Session → Exchange
exchange market book s = record {
  world = s.world;
  book = book;
  blotter = market.blotter;
  next_id = s.next_id;
  bet_id = s.bet_id;
  count = s.count;
}

abbrev pub take_exchange : Market → Exchange → Session → Session
take_exchange market x s = record s {
  world = x.world;
  markets = insert market.market_id (record market { blotter = x.blotter }) s.markets;
  next_id = x.next_id;
  bet_id = x.bet_id;
  count = x.count;
}

-- `execution.handler` in a session; none is an exception. The markets of a backtest have a book.
unfoldable pub run_package : Setup → Package → Session → Option Session
run_package setup p s = elim (lookup p.market_id s.markets) [
  | none ↦ none
  | some market ↦ elim market.market_book [
    | none ↦ none
    | some book ↦ elim (handler setup.best_price_execution p (exchange market book s)) [
      | none ↦ none
      | some x ↦ some (take_exchange market x s)
    ]
  ]
]

-- The loop over the queue in `_check_pending_packages`, with the list `processed`; no time passes
-- in it.
unfoldable pub run_due :
    Setup → ℕ → ℕ → List Waiting → List Waiting → Session → Option (List Waiting × Session)
run_due setup now market_id [] processed s = some (processed, s)
run_due setup now market_id (q ∷ qs) processed s =
    if is_due setup.latencies now market_id q
    then elim (run_package setup q.request s) [
      | none ↦ none
      | some s' ↦ run_due setup now market_id qs (processed ++ q ∷ []) s'
    ]
    else run_due setup now market_id qs processed s

-- `self.handler_queue.remove(p)`, the first that is the same object; none is a ValueError
unfoldable pub remove_package : Waiting → List Waiting → Option (List Waiting)
remove_package p [] = none
remove_package p (q ∷ qs) =
    if p.id == q.id
    then some qs
    else elim (remove_package p qs) [ none ↦ none | some rest ↦ some (q ∷ rest) ]

unfoldable pub remove_packages : List Waiting → List Waiting → Option (List Waiting)
remove_packages [] qs = some qs
remove_packages (p ∷ ps) qs = elim (remove_package p qs) [
  | none ↦ none
  | some rest ↦ remove_packages ps rest
]

-- `_check_pending_packages`, at a time
unfoldable pub check_pending_packages : Setup → ℕ → ℕ → Session → Option Session
check_pending_packages setup now market_id s =
    elim (run_due setup now market_id s.handler_queue [] s) [
      | none ↦ none
      | some (processed, s') ↦ elim (remove_packages processed s'.handler_queue) [
        | none ↦ none
        | some qs ↦ some (record s' { handler_queue = qs })
      ]
    ]

-- Is there nothing left to match? Every order of a backtest is simulated.
unfoldable pub is_done : Order → Bool
is_done order = elim order.order_type [
  | limit price size persistence_type ↦ order_size_remaining order ==ℤ pos 0
  | _ ↦ simulated_complete order.order_type order.simulated
]

abbrev pub is_complete_status : TradeStatus → Bool
is_complete_status complete_ = true
is_complete_status _ = false

abbrev pub complete_done : ℕ → World → World
complete_done o w = if is_done (w.orders o) then execution_complete o w else w

abbrev pub leave_live : ℕ → World → Blotter → Option Blotter
leave_live o w b =
    if is_complete_status (w.trades (w.orders o).trade).status then complete_order o b else some b

-- The loop of `_process_backtest_orders`; none is an exception.
unfoldable pub process_live_orders : List ℕ → World → Blotter → Option (World × Blotter)
process_live_orders [] w b = some (w, b)
process_live_orders (o ∷ os) w b = elim (leave_live o (complete_done o w) b) [
  | none ↦ none
  | some b' ↦ process_live_orders os (complete_done o w) b'
]

-- `_process_backtest_orders`
unfoldable pub process_backtest_orders : Setup → ℕ → Session → Option Session
process_backtest_orders setup market_id s = elim (lookup market_id s.markets) [
  | none ↦ none
  | some market ↦ elim (process_live_orders market.blotter.live_orders s.world market.blotter) [
    | none ↦ none
    | some (w, b) ↦ some (
        setup.process_orders market_id (record s {
          world = w;
          markets = insert market_id (record market { blotter = b }) s.markets;
        }))
  ]
]
