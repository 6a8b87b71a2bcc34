-- ===== src/Framework.antt =====
-- The framework's loop: the dispatch of flumine.py `run` and the handlers of baseflumine.py, for a
-- client that trades live. Other threads put events into the queue; what the strategies do in a
-- handler is the user's, an argument.
pub mod Books
pub mod Steps
pub mod Registry
use flumine.Prelude.{
  ℕ, ◌-◌, Bool, true, false, ◌&&◌, Option, none, some, List, [], ◌∷◌, ◌++◌, ltb, if◌then◌else◌,
}
use flumine.Prelude.Dict.{lookup, insert}
use flumine.Book.{MarketBook, MarketStatus}
use flumine.Order.{Order}
use flumine.Trade.{World, modify_order}
use flumine.Blotter.{Blotter, has_order, process_closed_market}
use flumine.Markets.{
  Market, Markets, new_market, add_market, remove_market, take_book, close_market,
}
use flumine.Process.{Report, Floor, Settings, process_reports}

-- What the code reads of a settled order: the id in its reference, and the resource itself
pub record ClearedOrder : Type 0 where
  pub order_id : ℕ
  pub resource : ℕ

-- The events of the queue. A market of raw data is its id and whether its definition is CLOSED; the
-- handlers of what is only logged or is the user's are left out.
pub data Event : Type 0 where
  market_books : List MarketBook → Event
  market_catalogues : List ℕ → Event
  current_orders : List Report → Event
  cleared_orders : (market_id : ℕ) → List ClearedOrder → Event
  cleared_markets : (market_id : ℕ) → List ℕ → Event
  close_book : MarketBook → Event
  close_datum : (market_id : ℕ) → Event
  raw_data : List (ℕ × Bool) → Event

-- The state that the handlers reach
pub record Framework : Type 0 where
  pub floor : Floor
  pub handler_queue : List Event

-- The configuration, and the strategies: what the loops over them leave
pub record Hooks : Type 0 where
  pub settings : Settings
  pub process_market_book : MarketBook → Floor → Floor
  pub process_raw_data : ℕ × Bool → Floor → Floor
  pub process_orders : Floor → Floor
  pub process_closed_market : ℕ → Floor → Floor
  pub remove_market : ℕ → Floor → Floor

abbrev pub on_floor : (Floor → Floor) → Framework → Framework
on_floor f s = record s { floor = f s.floor }

abbrev pub set_markets : Markets → Floor → Floor
set_markets ms f = record f { markets = ms }

-- A missing market is added, a closed one opened.
unfoldable pub get_or_add : ℕ → Option MarketBook → Floor → Floor
get_or_add market_id book f = elim (lookup market_id f.markets) [
  | none ↦ set_markets (add_market market_id (new_market market_id book) f.markets) f
  | some market ↦ if market.closed then set_markets (add_market market_id market f.markets) f else f
]

-- `self.handler_queue.put(event)`
abbrev pub put : Event → Framework → Framework
put event s = record s { handler_queue = s.handler_queue ++ event ∷ [] }

-- A change of a market that is listed
unfoldable pub change_market : ℕ → (Market → Market) → Floor → Floor
change_market market_id f floor = elim (lookup market_id floor.markets) [
  | none ↦ floor
  | some market ↦ set_markets (insert market_id (f market) floor.markets) floor
]

abbrev pub is_closed : MarketStatus → Bool
is_closed MarketStatus.closed = true
is_closed _ = false

-- One book of `_process_market_books`
unfoldable pub process_book : Hooks → MarketBook → Framework → Framework
process_book hooks book s =
    let s' = on_floor (get_or_add book.market_id (some book)) s in
    if is_closed book.status
    then put (close_book book) s'
    else on_floor
        (λ f. hooks.process_market_book book (change_market book.market_id (take_book book) f)) s'

unfoldable pub process_books : Hooks → List MarketBook → Framework → Framework
process_books hooks [] s = s
process_books hooks (book ∷ books) s = process_books hooks books (process_book hooks book s)

-- One datum of `_process_raw_data`
unfoldable pub process_datum : Hooks → ℕ × Bool → Framework → Framework
process_datum hooks datum s =
    let s' = on_floor (get_or_add datum.0 none) s in
    let s'' = if datum.1 then put (close_datum datum.0) s' else s' in
    on_floor (hooks.process_raw_data datum) s''

unfoldable pub process_data : Hooks → List (ℕ × Bool) → Framework → Framework
process_data hooks [] s = s
process_data hooks (datum ∷ data_) s = process_data hooks data_ (process_datum hooks datum s)

abbrev pub take_catalogue : Market → Market
take_catalogue market = record market { has_catalogue = true; update_market_catalogue = false }

-- `_process_market_catalogues`
unfoldable pub process_catalogues : List ℕ → Floor → Floor
process_catalogues [] f = f
process_catalogues (market_id ∷ ids) f =
    process_catalogues ids (change_market market_id take_catalogue f)

-- `_process_current_orders`; none is an exception
unfoldable pub process_current : Hooks → List Report → Framework → Option Framework
process_current hooks reports s = elim (process_reports hooks.settings reports s.floor) [
  | none ↦ none
  | some f ↦ some (record s { floor = hooks.process_orders f })
]

-- `Blotter.process_cleared_orders`
unfoldable pub process_cleared : List ClearedOrder → Blotter → World → World
process_cleared [] b w = w
process_cleared (cleared ∷ rest) b w =
    let set =
      modify_order cleared.order_id
        (λ order. record order { cleared_order = some cleared.resource }) w in
    process_cleared rest b (if has_order cleared.order_id b then set else w)

-- `_process_cleared_orders`
unfoldable pub process_cleared_orders : ℕ → List ClearedOrder → Floor → Floor
process_cleared_orders market_id orders f = elim (lookup market_id f.markets) [
  | none ↦ f
  | some market ↦ record f { world = process_cleared orders market.blotter f.world }
]

-- One hour, in microseconds
abbrev pub closed_wait : ℕ
closed_wait = 3_600_000_000

-- A market that has been closed for more than an hour
abbrev pub is_old : ℕ → Market → Bool
is_old now market =
    market.closed
    && (elim market.date_time_closed [ none ↦ false | some time ↦ ltb closed_wait (now - time) ])

abbrev pub old_markets : ℕ → Markets → List ℕ
old_markets now [] = []
old_markets now (item ∷ ms) =
    let rest = old_markets now ms in if is_old now item.1 then item.1.market_id ∷ rest else rest

-- `_remove_market` for each of them; none is the KeyError
unfoldable pub remove_markets : Hooks → List ℕ → Floor → Option Floor
remove_markets hooks [] f = some f
remove_markets hooks (market_id ∷ ids) f =
    let f' = hooks.remove_market market_id f in
    elim (remove_market market_id f'.markets) [
      | none ↦ none
      | some ms ↦ remove_markets hooks ids (set_markets ms f')
    ]

-- `_process_close_market`: of a book, where the market's orders are told how the runners ended, or of
-- a datum. An old market is removed.
unfoldable pub process_close : Hooks → ℕ → Option MarketBook → Floor → Option Floor
process_close hooks market_id book f = elim (lookup market_id f.markets) [
  | none ↦ some f
  | some market ↦
      (let closed_market = if market.closed then market else close_market f.world.clock market in
        let w : World = (elim book [
          | none ↦ f.world
          | some b ↦ process_closed_market b market.blotter f.world
        ]) in
        let f' =
          hooks.process_closed_market market_id
            (record f { world = w; markets = insert market_id closed_market f.markets }) in
        remove_markets hooks (old_markets f'.world.clock f'.markets) f')
]

-- The outcome of a change of the floor
abbrev pub with_floor : Framework → Option Floor → Option Framework
with_floor s none = none
with_floor s (some f) = some (record s { floor = f })

-- The dispatch of `run`; none is an exception, which ends it
unfoldable pub process_event : Hooks → Event → Framework → Option Framework
process_event hooks (market_books books) s = some (process_books hooks books s)
process_event hooks (market_catalogues ids) s = some (on_floor (process_catalogues ids) s)
process_event hooks (current_orders reports) s = process_current hooks reports s
process_event hooks (cleared_orders market_id orders) s =
    some (on_floor (process_cleared_orders market_id orders) s)
process_event hooks (cleared_markets market_id ids) s = some s
process_event hooks (close_book book) s =
    with_floor s (process_close hooks book.market_id (some book) s.floor)
process_event hooks (close_datum market_id) s =
    with_floor s (process_close hooks market_id none s.floor)
process_event hooks (raw_data data_) s = some (process_data hooks data_ s)
