-- ===== src/Subscriptions/Covering.antt =====
-- A strategy is subscribed to each of its recorded markets.
use flumine.Prelude.{
  ℕ, ◌≡◌, refl, ap, ◌∙◌, sym, subst, Bool, true, false, ◌||◌, Option, some, List, [], ◌∷◌, ◌++◌,
  ◌==◌, arith, contains, contains-append, ==_iff, if◌then◌else◌, Bool-cases, Option-cases, inl, inr,
  or_true,
}
use mathlib.Core.Bool.{true≢false}
use mathlib.Core.Option.{none-ne-some}
use flumine.Streams.{
  Stream, Streams, Subscriber, Recording, find_stream, append_stream, use_or_append, fits_market,
  add_historical_stream,
}
use flumine.Streams.Sharing.{find_stream-append, fits_market-historical_of}
use flumine.Subscriptions.{
  MarketFilter, Subscriptions, is_given, skips, subscribe_historical, choose_markets,
  subscribe_markets, subscribe_backtest, stream_ids, check_market,
}

find_stream-stays :
    (p : Stream → Bool) (streams : List Stream) (stream last : Stream)
    → find_stream p streams ≡ some stream
    → find_stream p (streams ++ last ∷ []) ≡ some stream
find_stream-stays p [] stream last e = absurd (none-ne-some stream e)
find_stream-stays p (x ∷ streams) stream last e = elim (Bool-cases (p x)) [
  | inl hit ↦ rw hit (rw hit at e)
  | inr miss ↦ rw miss (find_stream-stays p streams stream last (rw miss at e))
]

use_or_append-stays :
    (p q : Stream → Bool) (make : ℕ → Stream) (r : Streams) (stream : Stream)
    → find_stream p r.streams ≡ some stream
    → find_stream p (use_or_append q make r).1.streams ≡ some stream
unfolding use_or_append append_stream
use_or_append-stays p q make r stream e = elim (Option-cases (find_stream q r.streams)) [
  | inl missing ↦ rw (use_or_append, missing) (find_stream-stays p r.streams stream _ e)
  | inr (other, found) ↦ rw (use_or_append, found) e
]

use_or_append-found :
    (p : Stream → Bool) (make : ℕ → Stream) (r : Streams)
    → ((id : ℕ) → p (make id) ≡ true)
    → find_stream p (use_or_append p make r).1.streams ≡ some (use_or_append p make r).0
unfolding use_or_append append_stream
use_or_append-found p make r fresh = elim (Option-cases (find_stream p r.streams)) [
  | inl missing ↦ rw (use_or_append, missing) (find_stream-append p r.streams _ missing (fresh _))
  | inr (stream, found) ↦ rw (use_or_append, found) found
]

-- The registry's stream of a recorded market, and its number among the strategy's.
pub record IsSubscribed (market : ℕ) (event_processing : Bool) (result : Subscriptions × Streams)
    : Type 0 where
  pub stream : Stream
  pub found : find_stream (fits_market market event_processing) result.1.streams ≡ some stream
  pub listed : contains stream.stream_id result.0.historic_stream_ids ≡ true

contains-last : (n : ℕ) (b : Bool) → (b || contains n (n ∷ [])) ≡ true
contains-last n b = ground arith

-- The registry's stream of a recorded market, whose books the strategy is asked about.
pub record IsHeard (market : ℕ) (event_processing : Bool) (result : Subscriptions × Streams)
    : Type 0 where
  pub stream : Stream
  pub found : find_stream (fits_market market event_processing) result.1.streams ≡ some stream
  pub heard : (answer : Bool) → check_market result.0 stream.stream_id answer ≡ answer

contains-stream_ids :
    (n : ℕ) (s : Subscriptions)
    → contains n s.historic_stream_ids ≡ true
    → contains n (stream_ids s) ≡ true
unfolding stream_ids
contains-stream_ids n s h = go s.streams s.historic_stream_ids h
  where
    go :
        (streams ids : List ℕ)
        → contains n ids ≡ true
        → contains n (stream_ids (record { streams = streams; historic_stream_ids = ids })) ≡ true
    go streams [] h = absurd (true≢false (sym h))
    go streams (x ∷ ids) h = h

IsSubscribed-IsHeard :
    (market : ℕ) (event_processing : Bool) (result : Subscriptions × Streams)
    → IsSubscribed market event_processing result
    → IsHeard market event_processing result
unfolding check_market
IsSubscribed-IsHeard market event_processing result v = record {
  stream = v.stream;
  found = v.found;
  heard = λ answer. rw (contains-stream_ids v.stream.stream_id result.0 v.listed) refl;
}

choose_markets-given {ℓ} :
    {R : Type ℓ} (given : Option (List ℕ)) (m : ℕ) (markets : List ℕ) (subscribe : List ℕ → R)
    (idle : R)
    → given ≡ some (m ∷ markets)
    → choose_markets false given subscribe idle ≡ some (subscribe (m ∷ markets))
unfolding choose_markets
choose_markets-given given m markets subscribe idle e = rw e refl

module _ (md : Recording) (strategy : Subscriber) (f : MarketFilter) where
  abbrev added : ℕ → Streams → Stream × Streams
  added m r = add_historical_stream md strategy m f.event_processing f.listener_kwargs r

  -- One round of the loop.
  abbrev round : ℕ → Subscriptions → Streams → Subscriptions × Streams
  round m s r =
      let skipped = skips f.market_types (md.market_type m) in
      (
        if skipped then s else subscribe_historical (added m r).0 s,
        if skipped then r else (added m r).1,
      )

  round-keeps :
      (market m : ℕ) (s : Subscriptions) (r : Streams)
      → IsSubscribed market f.event_processing (s, r)
      → IsSubscribed market f.event_processing (round m s r)
  unfolding add_historical_stream subscribe_historical
  round-keeps market m s r v = elim (Bool-cases (skips f.market_types (md.market_type m))) [
    | inl skipped ↦ rw skipped v
    | inr taken ↦ rw taken (record {
      stream = v.stream;
      found = use_or_append-stays _ _ _ r v.stream v.found;
      listed = contains-append v.stream.stream_id s.historic_stream_ids _ ∙ or_true _ _ v.listed;
    })
  ]

  round-IsSubscribed :
      (m : ℕ) (s : Subscriptions) (r : Streams)
      → skips f.market_types (md.market_type m) ≡ false
      → IsSubscribed m f.event_processing (round m s r)
  unfolding add_historical_stream subscribe_historical
  round-IsSubscribed m s r taken = rw taken (record {
    stream = (added m r).0;
    found = use_or_append-found (fits_market m f.event_processing) _ r (
        fits_market-historical_of md.historical_class m strategy (md.event_id m) f.event_processing
          f.listener_kwargs);
    listed =
        contains-append (added m r).0.stream_id s.historic_stream_ids _
        ∙ contains-last (added m r).0.stream_id
            (contains (added m r).0.stream_id s.historic_stream_ids);
  })

  subscribe_markets-keeps :
      (market : ℕ) (markets : List ℕ) (s : Subscriptions) (r : Streams)
      → IsSubscribed market f.event_processing (s, r)
      → IsSubscribed market f.event_processing (subscribe_markets md strategy f markets s r)
  unfolding subscribe_markets
  subscribe_markets-keeps market [] s r v = v
  subscribe_markets-keeps market (m ∷ markets) s r v =
      subscribe_markets-keeps market markets _ _ (round-keeps market m s r v)

  subscribe_markets-IsSubscribed :
      (market : ℕ) (markets : List ℕ) (s : Subscriptions) (r : Streams)
      → contains market markets ≡ true
      → skips f.market_types (md.market_type market) ≡ false
      → IsSubscribed market f.event_processing (subscribe_markets md strategy f markets s r)
  unfolding subscribe_markets
  subscribe_markets-IsSubscribed market [] s r member taken = absurd (true≢false (sym member))
  subscribe_markets-IsSubscribed market (m ∷ markets) s r member taken =
      elim (Bool-cases (market == m)) [
        | inl same ↦
            (let e = (==_iff market m).0 same in
              subscribe_markets-keeps market markets _ _ (
                subst (λ y. IsSubscribed y f.event_processing (round m s r)) (sym e)
                  (round-IsSubscribed m s r
                    (subst (λ y. skips f.market_types (md.market_type y) ≡ false) e taken))))
        | inr other ↦ subscribe_markets-IsSubscribed market markets _ _ (rw other at member) taken
      ]

  -- The subscription of a backtest whose filter has markets and no events succeeds, and each market
  -- of the filter, unless it is skipped for its type, has a stream in the registry for whose books the
  -- strategy's `check_market` is what its `check_market_book` answers.
  pub subscribe_backtest-IsHeard :
      (markets : List ℕ) (market : ℕ) (s : Subscriptions) (r : Streams)
      → f.markets ≡ some markets
      → is_given f.events ≡ false
      → contains market markets ≡ true
      → skips f.market_types (md.market_type market) ≡ false
      → (result : Subscriptions × Streams) × (subscribe_backtest md strategy f s r ≡ some result)
        × IsHeard market f.event_processing result
  unfolding subscribe_backtest
  subscribe_backtest-IsHeard [] market s r e no_events member taken =
      absurd (true≢false (sym member))
  subscribe_backtest-IsHeard (m ∷ markets) market s r e no_events member taken = (
    subscribe_markets md strategy f (m ∷ markets) s r,
    ap
          (λ events.
            choose_markets events f.markets (λ given. subscribe_markets md strategy f given s r)
              (s, r))
          no_events
        ∙ choose_markets-given f.markets m markets
            (λ given. subscribe_markets md strategy f given s r) (s, r) e,
    IsSubscribed-IsHeard market f.event_processing _
        (subscribe_markets-IsSubscribed market (m ∷ markets) s r member taken),
  )
