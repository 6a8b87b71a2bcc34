-- ===== src/Historical/Filtering.antt =====
-- What a recorded stream yields.
use flumine.Prelude.{
  ℕ, zero, suc, ◌+◌, ◌≤◌, ◌≡◌, ◌≢◌, refl, sym, ◌∙◌, Bool, true, false, not, ◌&&◌, Option, none,
  some, List, [], ◌∷◌, arith, keep, if◌then◌else◌, Bool-cases, inl, inr, ltb→lt, eq_false_of_not,
  neither, of_not,
}
use mathlib.Core.Bool.{true≢false}
use mathlib.Core.Option.{some-injective, none-ne-some}
use flumine.Prelude.Dict.{values}
use flumine.Streams.{ListenerKwargs}
use flumine.Historical.{
  MarketBookCache, MarketUpdate, Caching, Caches, starts_later, holds_back, snap, on_data, batch,
  read_loop,
}

-- The books that a listener's arguments let through: of a market that is not open, all; else with
-- `inplay` those in play, with `inplay` false those that are not, and, unless `inplay` is true, with
-- `seconds_to_start` those whose market starts within the time.
pub record IsWanted (listener : ListenerKwargs) (cache : MarketBookCache) : Type 0 where
  pub in_play : cache.is_open ≡ true → listener.inplay ≡ some true → cache.in_play ≡ true
  pub not_in_play : cache.is_open ≡ true → listener.inplay ≡ some false → cache.in_play ≡ false
  pub near :
      (n : ℕ)
      → cache.is_open ≡ true
      → listener.inplay ≢ some true
      → listener.seconds_to_start ≡ some (suc n)
      → cache.market_time ≤ cache.publish_time + suc n

-- A list of caches, and those of them that are wanted, in order.
pub data IsFiltered (listener : ListenerKwargs)
    : List MarketBookCache → List MarketBookCache → Type 0 where
  empty : IsFiltered listener [] []
  sent :
      (cache : MarketBookCache) (caches books : List MarketBookCache)
      → IsWanted listener cache
      → IsFiltered listener caches books
      → IsFiltered listener (cache ∷ caches) (cache ∷ books)
  held :
      (cache : MarketBookCache) (caches books : List MarketBookCache)
      → ¬ IsWanted listener cache
      → IsFiltered listener caches books
      → IsFiltered listener (cache ∷ caches) books

-- The batches of a file, from some caches on: after each line the wanted books, if there are any.
pub data Reads (c : Caching) (listener : ListenerKwargs)
    : Caches → List (Option (ℕ × List MarketUpdate)) → List (List MarketBookCache) → Type 0 where
  ended : (caches : Caches) → Reads c listener caches [] []
  silent :
      (caches : Caches) (update : Option (ℕ × List MarketUpdate))
      (f : List (Option (ℕ × List MarketUpdate))) (batches : List (List MarketBookCache))
      → IsFiltered listener (values (on_data c update caches)) []
      → Reads c listener (on_data c update caches) f batches
      → Reads c listener caches (update ∷ f) batches
  yields :
      (caches : Caches) (update : Option (ℕ × List MarketUpdate))
      (f : List (Option (ℕ × List MarketUpdate))) (batches : List (List MarketBookCache))
      (book : MarketBookCache) (books : List MarketBookCache)
      → IsFiltered listener (values (on_data c update caches)) (book ∷ books)
      → Reads c listener (on_data c update caches) f batches
      → Reads c listener caches (update ∷ f) ((book ∷ books) ∷ batches)

abbrev pub kwargs : Option Bool → Option ℕ → ListenerKwargs
kwargs inplay seconds = record { inplay = inplay; seconds_to_start = seconds }

starts_later-near :
    (seconds : Option ℕ) (cache : MarketBookCache) (n : ℕ)
    → starts_later seconds cache ≡ false
    → seconds ≡ some (suc n)
    → cache.market_time ≤ cache.publish_time + suc n
starts_later-near none cache n h e = absurd (none-ne-some (suc n) e)
starts_later-near (some zero) cache n h e =
    let same : zero ≡ suc n = some-injective zero (suc n) e in absurd (omega (arith, same))
starts_later-near (some (suc m)) cache n h e =
    let same : suc m ≡ suc n = some-injective (suc m) (suc n) e in ground (arith, h, same)

-- A market that starts later is not near.
starts_later-far :
    (seconds : Option ℕ) (cache : MarketBookCache)
    → starts_later seconds cache ≡ true
    → ¬ ((n : ℕ) → seconds ≡ some (suc n) → cache.market_time ≤ cache.publish_time + suc n)
starts_later-far none cache h near = true≢false (sym h)
starts_later-far (some zero) cache h near = true≢false (sym h)
starts_later-far (some (suc n)) cache h near =
    absurd (omega (arith, near n refl, ltb→lt (cache.publish_time + suc n) cache.market_time h))

open-IsWanted :
    (inplay : Option Bool) (seconds : Option ℕ) (cache : MarketBookCache)
    → holds_back (kwargs inplay seconds) cache ≡ false
    → IsWanted (kwargs inplay seconds) cache
unfolding holds_back
open-IsWanted none seconds cache h = record {
  in_play = λ o e. absurd (none-ne-some true e);
  not_in_play = λ o e. absurd (none-ne-some false e);
  near = λ n o ne e. starts_later-near seconds cache n h e;
}
open-IsWanted (some true) seconds cache h = record {
  in_play = λ o e. of_not cache.in_play h;
  not_in_play = λ o e. absurd (true≢false (some-injective true false e));
  near = λ n o ne e. absurd (ne refl);
}
open-IsWanted (some false) seconds cache h =
    let (later, playing) = neither (starts_later seconds cache) cache.in_play h in
    record {
      in_play = λ o e. absurd (true≢false (sym (some-injective false true e)));
      not_in_play = λ o e. playing;
      near = λ n o ne e. starts_later-near seconds cache n later e;
    }

open_unwanted :
    (inplay : Option Bool) (seconds : Option ℕ) (cache : MarketBookCache)
    → cache.is_open ≡ true
    → holds_back (kwargs inplay seconds) cache ≡ true
    → ¬ IsWanted (kwargs inplay seconds) cache
unfolding holds_back
open_unwanted none seconds cache is_open h w =
    starts_later-far seconds cache h (λ n e. w.near n is_open (λ x. none-ne-some true x) e)
open_unwanted (some true) seconds cache is_open h w =
    true≢false (sym (w.in_play is_open refl) ∙ eq_false_of_not cache.in_play h)
open_unwanted (some false) seconds cache is_open h w =
    starts_later-far seconds cache
      (elim (Bool-cases (starts_later seconds cache)) [
        | inl later ↦ later
        | inr soon ↦ absurd (true≢false (sym h ∙ rw (soon, w.not_in_play is_open refl) refl))
      ])
      (λ n e. w.near n is_open (λ x. true≢false (sym (some-injective false true x))) e)

shut-IsWanted :
    (listener : ListenerKwargs) (cache : MarketBookCache)
    → cache.is_open ≡ false
    → IsWanted listener cache
shut-IsWanted listener cache shut = record {
  in_play = λ o e. absurd (true≢false (sym o ∙ shut));
  not_in_play = λ o e. absurd (true≢false (sym o ∙ shut));
  near = λ n o ne e. absurd (true≢false (sym o ∙ shut));
}

after_line :
    {listener : ListenerKwargs} (c : Caching) (update : Option (ℕ × List MarketUpdate))
    (f : List (Option (ℕ × List MarketUpdate))) (caches : Caches) (books : List MarketBookCache)
    {batches : List (List MarketBookCache)}
    → IsFiltered listener (values (on_data c update caches)) books
    → Reads c listener (on_data c update caches) f batches
    → Reads c listener caches (update ∷ f) (batch books batches)
after_line c update f caches [] filtered rest = silent caches update f _ filtered rest
after_line c update f caches (book ∷ books) filtered rest =
    yields caches update f _ book books filtered rest

module _ (listener : ListenerKwargs) where
  filter_one :
      (cache : MarketBookCache) (caches books : List MarketBookCache) (is_open back : Bool)
      → cache.is_open ≡ is_open
      → holds_back listener cache ≡ back
      → IsFiltered listener caches books
      → IsFiltered listener
          (cache ∷ caches)
          (if not (is_open && back) then cache ∷ books else books)
  filter_one cache caches books true true o h rest =
      held cache caches books (open_unwanted listener.inplay listener.seconds_to_start cache o h)
        rest
  filter_one cache caches books true false o h rest =
      sent cache caches books (open-IsWanted listener.inplay listener.seconds_to_start cache h) rest
  filter_one cache caches books false back o h rest =
      sent cache caches books (shut-IsWanted listener cache o) rest

  snap-filters :
      (caches : List MarketBookCache)
      → IsFiltered listener caches
          (keep (λ cache. not (cache.is_open && holds_back listener cache)) caches)
  snap-filters [] = empty
  snap-filters (cache ∷ caches) =
      filter_one cache caches _ cache.is_open (holds_back listener cache) refl refl
        (snap-filters caches)

  snap-IsFiltered :
      (caches : Caches) → IsFiltered listener (values caches) (snap listener none caches)
  unfolding snap
  snap-IsFiltered caches = snap-filters (values caches)

  -- The generator of a recorded file yields, after each line of the file, the books that the
  -- listener's arguments let through, all of them and in the order of the caches, and nothing where
  -- there are none.
  pub read_loop-Reads :
      (c : Caching) (f : List (Option (ℕ × List MarketUpdate))) (caches : Caches)
      → Reads c listener caches f (read_loop c listener f caches)
  unfolding read_loop
  read_loop-Reads c [] caches = ended caches
  read_loop-Reads c (update ∷ f) caches =
      after_line c update f caches (snap listener none (on_data c update caches))
        (snap-IsFiltered (on_data c update caches)) (read_loop-Reads c f (on_data c update caches))
