-- ===== src/Outputs.antt =====
-- The output threads of the live streams, `handle_output` of streams/orderstream.py and
-- streams/marketstream.py, and the caches of streams/datastream.py. What the output queue and the
-- listener of betfairlightweight give is an argument; times are milliseconds.
pub mod Counting
pub mod Recency
use flumine.Prelude.{
  ℕ, ◌+◌, Bool, true, false, not, ◌||◌, Option, none, some, List, [], ◌∷◌, ltb, contains, remove,
  ◌++◌, if◌then◌else◌,
}

-- `SNAP_DELTA`
abbrev pub snap_delta : ℕ
snap_delta = 5_000

-- One round of the loop of an order stream: the queue's books or its timeout, whether there are live
-- orders, the listener's snap, and the two readings of the clock.
pub record Round : Type 0 where
  pub arrived : Option (List ℕ)
  pub live_orders : Bool
  pub snap : List ℕ
  pub checked : ℕ
  pub stamped : ℕ

-- The time of the last snap, in the thread, and the events that it put.
pub record Output : Type 0 where
  pub last_snap : ℕ
  pub events : List (List ℕ)

-- `last_snap = 1`
abbrev pub new_output : Output
new_output = record { last_snap = 1_000; events = [] }

-- `if books: self.flumine.handler_queue.put(...)`
abbrev pub put_books : List ℕ → List (List ℕ) → List (List ℕ)
put_books [] events = events
put_books (book ∷ books) events = events ++ (book ∷ books) ∷ []

-- The end of a round that has books
abbrev pub stamp : List ℕ → ℕ → Output → Output
stamp books stamped output = record { last_snap = stamped; events = put_books books output.events }

-- A round of `OrderStream.handle_output`
unfoldable pub order_round : Round → Output → Output
order_round r output = elim r.arrived [
  | some order_books ↦ stamp order_books r.stamped output
  | none ↦
      if r.live_orders || ltb (output.last_snap + snap_delta) r.checked
      then stamp r.snap r.stamped output
      else output
]

unfoldable pub order_rounds : List Round → Output → Output
order_rounds [] output = output
order_rounds (r ∷ rounds) output = order_rounds rounds (order_round r output)

-- A round of `MarketStream.handle_output`
unfoldable pub market_round : Option (List ℕ) → List ℕ → List (List ℕ) → List (List ℕ)
market_round (some market_books) snap events = put_books market_books events
market_round none snap events = put_books snap events

-- A market of a raw update, and whether its definition is CLOSED
pub record RawMarket : Type 0 where
  pub id : ℕ
  pub closed : Bool

-- One market of `FlumineMarketStream._process` of a data stream: the keys of `_caches`
unfoldable pub count_market : RawMarket → List ℕ → List ℕ
count_market market caches =
    if market.closed
    then remove market.id caches
    else if contains market.id caches
    then caches
    else caches ++ market.id ∷ []

unfoldable pub count_markets : List RawMarket → List ℕ → List ℕ
count_markets [] caches = caches
count_markets (market ∷ data_) caches = count_markets data_ (count_market market caches)
