-- ===== src/Subscriptions.antt =====
-- The subscriptions of a strategy: `Streams.__call__` of streams/streams.py, and `stream_ids` and
-- `check_market` of strategy/strategy.py.
pub mod Covering
use flumine.Prelude.{
  ℕ, Bool, true, false, not, ◌&&◌, Option, none, some, List, [], ◌∷◌, ◌++◌, contains, if◌then◌else◌,
}
use flumine.Streams.{
  Stream, Streams, Subscriber, ListenerKwargs, Recording, Hierarchy, add_stream,
  add_historical_stream,
}

-- The keys of a backtest's `market_filter`: recorded markets, types and events
pub record MarketFilter : Type 0 where
  pub markets : Option (List ℕ)
  pub market_types : Option (List ℕ)
  pub event_processing : Bool
  pub events : Option (List ℕ)
  pub listener_kwargs : ListenerKwargs

-- `strategy.streams`, by the numbers that the registry gave them (a connection may change a live
-- stream's), and `strategy.historic_stream_ids`
pub record Subscriptions : Type 0 where
  pub streams : List ℕ
  pub historic_stream_ids : List ℕ

abbrev pub is_given : Option (List ℕ) → Bool
is_given none = false
is_given (some []) = false
is_given (some (x ∷ xs)) = true

-- `market_types and market_type and market_type not in market_types`
unfoldable pub skips : Option (List ℕ) → Option ℕ → Bool
skips (some (t ∷ types)) (some market_type) = not (contains market_type (t ∷ types))
skips _ _ = false

unfoldable pub subscribe_historical : Stream → Subscriptions → Subscriptions
subscribe_historical stream s = record {
  streams = s.streams ++ stream.stream_id ∷ [];
  historic_stream_ids = s.historic_stream_ids ++ stream.stream_id ∷ [];
}

-- `for market in markets`
unfoldable pub subscribe_markets :
    Recording
    → Subscriber
    → MarketFilter
    → List ℕ
    → Subscriptions
    → Streams
    → Subscriptions × Streams
subscribe_markets md strategy f [] s r = (s, r)
subscribe_markets md strategy f (market ∷ markets) s r =
    let (stream, r') =
      add_historical_stream md strategy market f.event_processing f.listener_kwargs r in
    let skipped = skips f.market_types (md.market_type market) in
    subscribe_markets md strategy f markets (if skipped then s else subscribe_historical stream s)
      (if skipped then r else r')

-- The choice between the markets and the events of the filter: `events` tells whether there are any,
-- and none is the NotImplementedError of events.
unfoldable pub choose_markets {ℓ} :
    {R : Type ℓ} → Bool → Option (List ℕ) → (List ℕ → R) → R → Option R
choose_markets true (some (market ∷ markets)) subscribe idle = some idle
choose_markets false (some (market ∷ markets)) subscribe idle = some (subscribe (market ∷ markets))
choose_markets true (some []) subscribe idle = none
choose_markets true none subscribe idle = none
choose_markets false (some []) subscribe idle = some idle
choose_markets false none subscribe idle = some idle

-- `Streams.__call__` in a backtest
unfoldable pub subscribe_backtest :
    Recording
    → Subscriber
    → MarketFilter
    → Subscriptions
    → Streams
    → Option (Subscriptions × Streams)
subscribe_backtest md strategy f s r =
    choose_markets (is_given f.events) f.markets
      (λ markets. subscribe_markets md strategy f markets s r) (s, r)

-- `Streams.__call__` outside of one
unfoldable pub subscribe_live :
    Hierarchy → Subscriber → Subscriptions → Streams → Subscriptions × Streams
subscribe_live h strategy s r =
    let (stream, r') = add_stream h strategy r in
    (record s { streams = s.streams ++ stream.stream_id ∷ [] }, r')

-- `stream_ids`
unfoldable pub stream_ids : Subscriptions → List ℕ
stream_ids s = elim s.historic_stream_ids [ [] ↦ s.streams | id ∷ ids ↦ id ∷ ids ]

-- `check_market`, with the answer of the user's `check_market_book`
unfoldable pub check_market : Subscriptions → ℕ → Bool → Bool
check_market s streaming_unique_id check_market_book =
    contains streaming_unique_id (stream_ids s) && check_market_book
