-- ===== src/Streams/Numbers.antt =====
-- The numbers of the streams.
use flumine.Prelude.{ℕ, ◌%◌, ◌<◌, ◌≤◌, ◌≡◌, Bool, List, [], ◌∷◌, All, Distinct}
use flumine.Streams.{
  Stream, Streams, Subscriber, ListenerKwargs, Recording, Hierarchy, new_streams, add_stream,
  add_historical_stream, add_order_stream,
}

abbrev pub ids : List Stream → List ℕ
ids [] = []
ids (stream ∷ streams) = stream.stream_id ∷ ids streams

-- The registries that the additions of streams lead to.
pub data Reached : Streams → Type 0 where
  start : Reached new_streams
  market :
      (h : Hierarchy) (strategy : Subscriber) (r : Streams)
      → Reached r
      → Reached (add_stream h strategy r).1
  historical :
      (md : Recording) (strategy : Subscriber) (m : ℕ) (event_processing : Bool)
      (kwargs : ListenerKwargs) (r : Streams)
      → Reached r
      → Reached (add_historical_stream md strategy m event_processing kwargs r).1
  orders :
      (stream_class : ℕ) (r : Streams) → Reached r → Reached (add_order_stream stream_class r).1

-- A number up to a bound, a positive multiple of 1000.
abbrev pub Numbered : ℕ → Stream → Type 0
Numbered n stream = (0 < stream.stream_id) × (stream.stream_id ≤ n) × (stream.stream_id % 1_000 ≡ 0)

pub record IsNumbered (r : Streams) : Type 0 where
  pub numbered : All (Numbered r.stream_id) r.streams
  pub counter : r.stream_id % 1_000 ≡ 0
  pub distinct : Distinct (ids r.streams)
