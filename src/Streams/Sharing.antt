-- ===== src/Streams/Sharing.antt =====
-- Which stream a strategy gets.
use flumine.Prelude.{
  ℕ, ◌+◌, ◌≡◌, refl, subst, sym, Bool, true, false, Option, none, some, List, [], ◌∷◌, ◌++◌, arith,
  same_option, Bool-cases, Option-cases, inl, inr,
}
use mathlib.Core.Option.{some-injective, none-ne-some}
use flumine.Streams.{
  Stream, Streams, Subscriber, ListenerKwargs, Recording, Hierarchy, find_stream, append_stream,
  use_or_append, fits, stream_of, fits_market, historical_of, same_flag, add_stream,
  add_historical_stream,
}

pub same_option_refl : (a : Option ℕ) → same_option a a ≡ true
same_option_refl none = refl
same_option_refl (some n) = ground arith

same_flag_refl : (b : Bool) → same_flag b b ≡ true
same_flag_refl true = refl
same_flag_refl false = refl

-- What a search finds passes the test.
find_stream-passes :
    (p : Stream → Bool) (streams : List Stream) (stream : Stream)
    → find_stream p streams ≡ some stream
    → p stream ≡ true
find_stream-passes p [] stream e = absurd (none-ne-some stream e)
find_stream-passes p (x ∷ streams) stream e = elim (Bool-cases (p x)) [
  | inl hit ↦ subst (λ y. p y ≡ true) (some-injective x stream (rw hit at e)) hit
  | inr miss ↦ find_stream-passes p streams stream (rw miss at e)
]

pub find_stream-append :
    (p : Stream → Bool) (streams : List Stream) (stream : Stream)
    → find_stream p streams ≡ none
    → p stream ≡ true
    → find_stream p (streams ++ stream ∷ []) ≡ some stream
find_stream-append p [] stream e h = rw h refl
find_stream-append p (x ∷ streams) stream e h = elim (Bool-cases (p x)) [
  | inl hit ↦ absurd (none-ne-some x (sym (rw hit at e)))
  | inr miss ↦ rw miss (find_stream-append p streams stream (rw miss at e) h)
]

-- What a strategy that asks gets: a stream that passes its test, and a registry that gives the same
-- stream to whoever asks by the test again, whatever stream it would make, and is then left alone.
pub record IsShared (p : Stream → Bool) (result : Stream × Streams) : Type 0 where
  pub fitting : p result.0 ≡ true
  pub again : (make : ℕ → Stream) → use_or_append p make result.1 ≡ result

use_or_append-IsShared :
    (p : Stream → Bool) (make : ℕ → Stream) (r : Streams)
    → ((id : ℕ) → p (make id) ≡ true)
    → IsShared p (use_or_append p make r)
unfolding use_or_append append_stream
use_or_append-IsShared p make r fresh = elim (Option-cases (find_stream p r.streams)) [
  | inl missing ↦
      (let id = r.stream_id + 1_000 in
        rw (use_or_append, missing)
          (record {
            fitting = fresh id;
            again = λ other.
                rw (use_or_append, find_stream-append p r.streams (make id) missing (fresh id))
                  refl;
          }))
  | inr (stream, found) ↦
      rw (use_or_append, found)
        (record {
          fitting = find_stream-passes p r.streams stream found;
          again = λ other. rw (use_or_append, found) refl;
        })
]

fits-stream_of :
    (h : Hierarchy) (strategy : Subscriber) (id : ℕ)
    → h strategy.stream_class strategy.stream_class ≡ true
    → fits h strategy (stream_of strategy id) ≡ true
unfolding fits
fits-stream_of h strategy id e =
    rw
      (
        e,
        same_option_refl strategy.market_filter,
        same_option_refl strategy.market_data_filter,
        same_option_refl strategy.streaming_timeout,
        same_option_refl strategy.conflate_ms,
      )
      refl

-- A strategy gets a stream of its class (a class is an instance of itself) with its filters, timeout
-- and conflation, whether it is there or made; and whoever asks by the same test from then on gets
-- that stream, with nothing added.
pub add_stream-IsShared :
    (h : Hierarchy) (strategy : Subscriber) (r : Streams)
    → ((c : ℕ) → h c c ≡ true)
    → IsShared (fits h strategy) (add_stream h strategy r)
unfolding add_stream
add_stream-IsShared h strategy r reflexive =
    use_or_append-IsShared (fits h strategy) (stream_of strategy) r
      (λ id. fits-stream_of h strategy id (reflexive strategy.stream_class))

pub fits_market-historical_of :
    (c market : ℕ) (strategy : Subscriber) (event_id : Option ℕ) (b : Bool)
    (kwargs : ListenerKwargs) (id : ℕ)
    → fits_market market b (historical_of c strategy market event_id b kwargs id) ≡ true
unfolding fits_market
fits_market-historical_of c market strategy event_id b kwargs id =
    rw (same_option_refl (some market), same_flag_refl b) refl

made_kwargs :
    (md : Recording) (strategy : Subscriber) (market : ℕ) (b : Bool) (kwargs : ListenerKwargs)
    (r : Streams)
    → find_stream (fits_market market b) r.streams ≡ none
    → (add_historical_stream md strategy market b kwargs r).0.listener_kwargs ≡ kwargs
unfolding add_historical_stream use_or_append append_stream
made_kwargs md strategy market b kwargs r unknown =
    rw (add_historical_stream, use_or_append, unknown) refl

-- Two strategies that ask for one recorded market, with the same event processing and any listener
-- arguments, get one stream: the arguments of the first are kept and those of the second ignored.
pub add_historical_stream-keeps_first :
    (md : Recording) (first second : Subscriber) (market : ℕ) (event_processing : Bool)
    (kwargs kwargs' : ListenerKwargs) (r : Streams)
    → find_stream (fits_market market event_processing) r.streams ≡ none
    → let result = add_historical_stream md first market event_processing kwargs r in
      (add_historical_stream md second market event_processing kwargs' result.1 ≡ result)
      × (result.0.listener_kwargs ≡ kwargs)
unfolding add_historical_stream
add_historical_stream-keeps_first md first second market event_processing kwargs kwargs' r unknown =
    let shared =
      use_or_append-IsShared (fits_market market event_processing)
        (historical_of md.historical_class first market (md.event_id market) event_processing
          kwargs)
        r
        (fits_market-historical_of md.historical_class market first (md.event_id market)
          event_processing kwargs) in
    (shared.again _, made_kwargs md first market event_processing kwargs r unknown)
