-- ===== src/Backtest/Run.antt =====
-- A backtest's run over market books: `_process_market_books` and `run` of backtest/backtest.py, with
-- `_add_market` and `_process_close_market` of baseflumine.py.
use flumine.Prelude.{
  same_option, ℕ, Bool, true, false, ◌&&◌, Option, none, some, List, [], ◌∷◌, ◌++◌, ltb, length,
  if◌then◌else◌,
}
use flumine.Prelude.Dict.{lookup, insert}
use flumine.Book.{MarketBook, MarketStatus}
use flumine.Blotter.{process_closed_market}
use flumine.Markets.{Market, Markets, new_market, add_market, take_book, close_market}
use flumine.Middleware.{StreamingUpdate, run_middleware}
use flumine.Backtest.{Session, Setup, check_pending_packages, process_backtest_orders, mux}

-- A market book with what came with it, and the epoch of its time
pub record Snapshot : Type 0 where
  pub epoch : ℕ
  pub book : MarketBook
  pub update : StreamingUpdate

-- `config.current_time = market_book.publish_time`
abbrev pub set_clock : ℕ → Session → Session
set_clock now s = record s { world = record s.world { clock = now } }

abbrev pub set_market : Market → Session → Session
set_market market s = record s { markets = insert market.market_id market s.markets }

abbrev pub is_closed_status : MarketStatus → Bool
is_closed_status MarketStatus.closed = true
is_closed_status _ = false

-- `if market.closed is False: market.close_market()`
abbrev pub closed_at : ℕ → Market → Market
closed_at now market = if market.closed then market else close_market now market

-- `_process_close_market`, on a market book; the cleared orders of a backtest are none.
unfoldable pub process_close_market : Setup → MarketBook → Session → Session
process_close_market setup book s = elim (lookup book.market_id s.markets) [
  | none ↦ s
  | some market ↦ setup.process_closed_market book (
      set_market (closed_at s.world.clock market)
        (record s { world = process_closed_market book market.blotter s.world }))
]

-- `self.markets.markets.get(market_id)`: a missing market is added and a closed one opened.
unfoldable pub get_market : MarketBook → Markets → Markets
get_market book ms = elim (lookup book.market_id ms) [
  | none ↦ add_market book.market_id (new_market book.market_id (some book)) ms
  | some market ↦ if market.closed then add_market book.market_id market ms else ms
]

-- `market(market_book)` and the middleware, which reads and keeps the market's blotter
unfoldable pub update_market : Setup → Snapshot → Market → Session → Session
update_market setup shot market s =
    let (middleware, w) =
      run_middleware setup.min_bsp_liability shot.update shot.book market.blotter s.middleware
        s.world in
    set_market (take_book shot.book market) (record s { middleware = middleware; world = w })

-- One book of `_process_market_books`; none is an exception that ends the run.
unfoldable pub process_snapshot : Setup → Snapshot → Session → Option Session
process_snapshot setup shot s =
    elim (check_pending_packages setup shot.book.publish_time shot.book.market_id
      (set_clock shot.book.publish_time s)) [
        | none ↦ none
        | some s' ↦
            if is_closed_status shot.book.status
            then some (process_close_market setup shot.book s')
            else elim (lookup shot.book.market_id (get_market shot.book s'.markets)) [
              | none ↦ none
              | some market ↦
                  elim (process_backtest_orders setup shot.book.market_id (
                    update_market setup shot market
                      (record s' { markets = get_market shot.book s'.markets }))) [
                        | none ↦ none
                        | some s'' ↦ some (setup.process_market_book shot.book s'')
                      ]
            ]
      ]

-- `_process_market_books`
unfoldable pub process_snapshots : Setup → List Snapshot → Session → Option Session
process_snapshots setup [] s = some s
process_snapshots setup (shot ∷ shots) s = elim (process_snapshot setup shot s) [
  | none ↦ none
  | some s' ↦ process_snapshots setup shots s'
]

-- A list of books that a generator gives, which is not empty
abbrev pub Batch : Type 0
Batch = Snapshot × List Snapshot

-- `market_book[0].publish_time_epoch`
abbrev pub batch_epoch : Batch → ℕ
batch_epoch batch = batch.0.epoch

unfoldable pub process_batches : Setup → List Batch → Session → Option Session
process_batches setup [] s = some s
process_batches setup (batch ∷ batches) s = elim (process_snapshots setup (batch.0 ∷ batch.1) s) [
  | none ↦ none
  | some s' ↦ process_batches setup batches s'
]

-- `self.handler_queue.clear()`
abbrev pub clear_queue : Session → Session
clear_queue s = record s { handler_queue = [] }

-- The streams in isolation, one after the other
unfoldable pub run_markets : Setup → List (List Batch) → Session → Option Session
run_markets setup [] s = some s
run_markets setup (stream ∷ streams) s = elim (process_batches setup stream s) [
  | none ↦ none
  | some s' ↦ run_markets setup streams (clear_queue s')
]

-- A stream's event, where events are processed, and what its generator gives
pub record EventStream : Type 0 where
  pub event_id : Option ℕ
  pub event_processing : Bool
  pub batches : List Batch

-- `event_streams[event_id].append(stream)`
unfoldable pub add_to_event :
    Option ℕ
    → List Batch
    → List (Option ℕ × List (List Batch))
    → List (Option ℕ × List (List Batch))
add_to_event e stream [] = (e, stream ∷ []) ∷ []
add_to_event e stream ((e', streams) ∷ groups) =
    if same_option e e'
    then (e', streams ++ stream ∷ []) ∷ groups
    else (e', streams) ∷ add_to_event e stream groups

unfoldable pub group_streams :
    List EventStream → List (Option ℕ × List (List Batch)) → List (Option ℕ × List (List Batch))
group_streams [] groups = groups
group_streams (stream ∷ streams) groups =
    group_streams streams (
      add_to_event (if stream.event_processing then stream.event_id else none) stream.batches
        groups)

abbrev pub is_event : Option ℕ → Bool
is_event none = false
is_event (some e) = true

-- The muxed streams of an event, then the end of the event
unfoldable pub run_event : Setup → List (List Batch) → Session → Option Session
run_event setup streams s = elim (mux batch_epoch streams) [
  | none ↦ none
  | some batches ↦ elim (process_batches setup batches s) [
    | none ↦ none
    | some s' ↦ some (clear_queue s')
  ]
]

abbrev pub is_muxed : Option ℕ → List (List Batch) → Bool
is_muxed e streams = is_event e && ltb 1 (length streams)

-- The streams of an event are muxed where they are several.
unfoldable pub run_group : Setup → Option ℕ × List (List Batch) → Session → Option Session
run_group setup (e, streams) s =
    if is_muxed e streams then run_event setup streams s else run_markets setup streams s

unfoldable pub run_groups : Setup → List (Option ℕ × List (List Batch)) → Session → Option Session
run_groups setup [] s = some s
run_groups setup (group ∷ groups) s = elim (run_group setup group s) [
  | none ↦ none
  | some s' ↦ run_groups setup groups s'
]

-- `run`, less its start: the streams' groups, then `_process_end_flumine`, in which the strategies
-- finish
unfoldable pub run : Setup → List EventStream → Session → Option Session
run setup streams s = elim (run_groups setup (group_streams streams []) s) [
  | none ↦ none
  | some s' ↦ some (setup.finish s')
]
