-- ===== src/Streams.antt =====
-- The registry of streams of streams/streams.py. Filters are compared and never read, so they are
-- numbers; the class hierarchy of streams and the metadata of the recorded files are arguments.
pub mod Numbers
pub mod Sharing
use flumine.Prelude.{
  ℕ, ◌+◌, Bool, true, false, not, ◌&&◌, Option, none, some, List, [], ◌∷◌, ◌++◌, ◌==◌, contains,
  same_option, if◌then◌else◌,
}

-- `listener_kwargs`, of which the historical listener reads these
pub record ListenerKwargs : Type 0 where
  pub inplay : Option Bool
  pub seconds_to_start : Option ℕ

-- The streams that subscribe to no market have no market filter.
pub record Stream : Type 0 where
  pub stream_id : ℕ
  pub stream_class : ℕ
  pub market_filter : Option ℕ
  pub market_data_filter : Option ℕ
  pub streaming_timeout : Option ℕ
  pub conflate_ms : Option ℕ
  pub event_processing : Bool
  pub event_id : Option ℕ
  pub listener_kwargs : ListenerKwargs

pub record Streams : Type 0 where
  pub streams : List Stream
  pub stream_id : ℕ

-- `Streams.__init__`
abbrev pub new_streams : Streams
new_streams = record { streams = []; stream_id = 0 }

-- What the registry reads of a strategy
pub record Subscriber : Type 0 where
  pub stream_class : ℕ
  pub market_filter : Option ℕ
  pub market_data_filter : Option ℕ
  pub streaming_timeout : Option ℕ
  pub conflate_ms : Option ℕ

abbrev pub no_kwargs : ListenerKwargs
no_kwargs = record { inplay = none; seconds_to_start = none }

-- The first stream that passes a test
abbrev pub find_stream : (Stream → Bool) → List Stream → Option Stream
find_stream p [] = none
find_stream p (stream ∷ streams) = if p stream then some stream else find_stream p streams

-- `_increment_stream_id` and the append of the stream that is made with the id
unfoldable pub append_stream : (ℕ → Stream) → Streams → Stream × Streams
append_stream make r =
    let id = r.stream_id + 1_000 in
    (make id, record { streams = r.streams ++ make id ∷ []; stream_id = id })

-- A stream that is found is used, else one is made.
unfoldable pub use_or_append : (Stream → Bool) → (ℕ → Stream) → Streams → Stream × Streams
use_or_append p make r = elim (find_stream p r.streams) [
  | some stream ↦ (stream, r)
  | none ↦ append_stream make r
]

-- `isinstance`, of classes
abbrev pub Hierarchy : Type 0
Hierarchy = ℕ → ℕ → Bool

-- The condition under which `add_stream` uses a stream
unfoldable pub fits : Hierarchy → Subscriber → Stream → Bool
fits is_instance strategy stream =
    is_instance stream.stream_class strategy.stream_class
    && same_option stream.market_filter strategy.market_filter
    && same_option stream.market_data_filter strategy.market_data_filter
    && same_option stream.streaming_timeout strategy.streaming_timeout
    && same_option stream.conflate_ms strategy.conflate_ms

-- The stream of a strategy
abbrev pub stream_of : Subscriber → ℕ → Stream
stream_of strategy id = record {
  stream_id = id;
  stream_class = strategy.stream_class;
  market_filter = strategy.market_filter;
  market_data_filter = strategy.market_data_filter;
  streaming_timeout = strategy.streaming_timeout;
  conflate_ms = strategy.conflate_ms;
  event_processing = false;
  event_id = none;
  listener_kwargs = no_kwargs;
}

-- `add_stream`
unfoldable pub add_stream : Hierarchy → Subscriber → Streams → Stream × Streams
add_stream is_instance strategy r = use_or_append (fits is_instance strategy) (stream_of strategy) r

abbrev pub same_flag : Bool → Bool → Bool
same_flag true b = b
same_flag false b = not b

-- The condition under which `add_historical_stream` uses a stream
unfoldable pub fits_market : ℕ → Bool → Stream → Bool
fits_market market event_processing stream =
    same_option stream.market_filter (some market)
    && same_flag stream.event_processing event_processing

-- `HistoricalStream(...)`; its class is one of the hierarchy's
abbrev pub historical_of : ℕ → Subscriber → ℕ → Option ℕ → Bool → ListenerKwargs → ℕ → Stream
historical_of historical_class strategy market event_id event_processing kwargs id = record {
  stream_id = id;
  stream_class = historical_class;
  market_filter = some market;
  market_data_filter = strategy.market_data_filter;
  streaming_timeout = strategy.streaming_timeout;
  conflate_ms = strategy.conflate_ms;
  event_processing = event_processing;
  event_id = event_id;
  listener_kwargs = kwargs;
}

-- The metadata of a recorded market: `get_file_md` for "marketType" and for "eventId"
pub record Recording : Type 0 where
  pub market_type : ℕ → Option ℕ
  pub event_id : ℕ → Option ℕ
  pub historical_class : ℕ

-- `add_historical_stream`
unfoldable pub add_historical_stream :
    Recording → Subscriber → ℕ → Bool → ListenerKwargs → Streams → Stream × Streams
add_historical_stream md strategy market event_processing kwargs r =
    use_or_append (fits_market market event_processing)
      (historical_of md.historical_class strategy market (md.event_id market) event_processing
        kwargs)
      r

-- `add_order_stream` and `add_simulated_order_stream`, of a class
unfoldable pub add_order_stream : ℕ → Streams → Stream × Streams
add_order_stream stream_class r =
    append_stream
      (λ id. record {
        stream_id = id;
        stream_class = stream_class;
        market_filter = none;
        market_data_filter = none;
        streaming_timeout = some 250_000;
        conflate_ms = none;
        event_processing = false;
        event_id = none;
        listener_kwargs = no_kwargs;
      })
      r

-- What `add_client` reads of a client
pub record ClientStreams : Type 0 where
  pub order_stream : Bool
  pub paper_trade : Bool
  pub is_betfair : Bool
  pub order_class : ℕ
  pub simulated_class : ℕ

-- `add_client`
unfoldable pub add_client : ClientStreams → Streams → Streams
add_client c r =
    if not c.order_stream
    then r
    else if c.paper_trade
    then (add_order_stream c.simulated_class r).1
    else if c.is_betfair
    then (add_order_stream c.order_class r).1
    else r
