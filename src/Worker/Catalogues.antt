-- ===== src/Worker/Catalogues.antt =====
-- The catalogues that a poll asks for, and what their events do.
use flumine.Prelude.{
  ℕ, ◌≡◌, refl, sym, ap, ◌∙◌, Bool, true, false, ◌||◌, Option, none, some, List, [], ◌∷◌, ◌++◌,
  arith, ◌==◌, contains, contains-append, Bool-cases, Option-cases, inl, inr, ==_iff,
}
use flumine.Prelude.Dict.{lookup, lookup-insert}
use mathlib.Core.Bool.{true≢false}
use mathlib.Core.Option.{some-injective, none-ne-some}
use flumine.Process.{Floor}
use flumine.Markets.{Market, Markets}
use flumine.Package.{chunks}
use flumine.Package.Chunks.{join, chunks_lem}
use flumine.Framework.{
  Event, Framework, Hooks, on_floor, change_market, take_catalogue, process_catalogues,
  process_event,
}
use flumine.Worker.{Exchange, wanted, poll_chunks, poll_market_catalogue}
use flumine.Worker.Clearing.{handle_all}

-- The exchange answers a call with the catalogues of the markets asked for, in any order.
abbrev pub Answers : Exchange → Type 0
Answers exchange =
    (ids : List ℕ)
    → (answer : List ℕ) × (exchange.list_market_catalogue ids ≡ some answer)
      × ((m : ℕ) → contains m answer ≡ contains m ids)

-- A market takes its catalogue or does not.
abbrev caught : Bool → Option Market → Option Market
caught true (some market) = some (take_catalogue market)
caught true none = none
caught false market = market

caught-caught : (a b : Bool) (o : Option Market) → caught b (caught a o) ≡ caught (a || b) o
caught-caught true true none = refl
caught-caught true true (some market) = refl
caught-caught true false none = refl
caught-caught true false (some market) = refl
caught-caught false true o = refl
caught-caught false false o = refl

lookup-take_catalogue :
    (m k : ℕ) (f : Floor)
    → lookup m (change_market k take_catalogue f).markets ≡ caught (m == k) (lookup m f.markets)
unfolding change_market
lookup-take_catalogue m k f = elim (Option-cases (lookup k f.markets)) [
  | inl unknown ↦
      rw (change_market, unknown)
        (elim (Bool-cases (m == k)) [
          | inl same ↦ rw same (rw ((==_iff m k).0 same, unknown) refl)
          | inr other ↦ rw other refl
        ])
  | inr (market, known) ↦
      rw (change_market, known)
        (lookup-insert m k (take_catalogue market) f.markets ∙ (elim (Bool-cases (m == k)) [
          | inl same ↦ rw same (rw ((==_iff m k).0 same, known) refl)
          | inr other ↦ rw other refl
        ]))
]

lookup-process_catalogues :
    (m : ℕ) (ids : List ℕ) (f : Floor)
    → lookup m (process_catalogues ids f).markets ≡ caught (contains m ids) (lookup m f.markets)
unfolding process_catalogues
lookup-process_catalogues m [] f = refl
lookup-process_catalogues m (id ∷ ids) f =
    lookup-process_catalogues m ids (change_market id take_catalogue f)
    ∙ ap (caught (contains m ids)) (lookup-take_catalogue m id f)
    ∙ caught-caught (m == id) (contains m ids) (lookup m f.markets)

-- What the handled events leave of a market
record IsCaught (m : ℕ) (ids : List ℕ) (s : Framework) (result : Option Framework) : Type 0 where
  state : Framework
  handled : result ≡ some state
  market : lookup m state.floor.markets ≡ caught (contains m ids) (lookup m s.floor.markets)

module _ (exchange : Exchange) (hooks : Hooks) (m : ℕ) where
  after_chunk :
      (ids rest : List ℕ) (answer : List ℕ) (s : Framework) (result : Option Framework)
      → contains m answer ≡ contains m ids
      → IsCaught m rest (on_floor (process_catalogues answer) s) result
      → IsCaught m (ids ++ rest) s result
  after_chunk ids rest answer s result same v = record {
    state = v.state;
    handled = v.handled;
    market =
        v.market
        ∙ ap (caught (contains m rest)) (lookup-process_catalogues m answer s.floor)
        ∙ caught-caught (contains m answer) (contains m rest) (lookup m s.floor.markets)
        ∙ ap (λ b. caught (b || contains m rest) (lookup m s.floor.markets)) same
        ∙ ap (λ b. caught b (lookup m s.floor.markets)) (sym (contains-append m ids rest));
  }

  -- A chunk's answer puts its event, if it is not empty.
  chunk-IsCaught :
      (ids : List ℕ) (cs : List (List ℕ)) (answer : List ℕ) (s : Framework)
      → exchange.list_market_catalogue ids ≡ some answer
      → contains m answer ≡ contains m ids
      → ((s : Framework) → IsCaught m (join cs) s (handle_all hooks (poll_chunks exchange cs) s))
      → IsCaught m (join (ids ∷ cs)) s (handle_all hooks (poll_chunks exchange (ids ∷ cs)) s)
  unfolding poll_chunks process_event process_catalogues
  chunk-IsCaught ids cs [] s e same rest =
      rw (poll_chunks, e)
        (after_chunk ids (join cs) [] s (handle_all hooks (poll_chunks exchange cs) s) same
          (rest s))
  chunk-IsCaught ids cs (x ∷ answer) s e same rest =
      let s' = on_floor (process_catalogues (x ∷ answer)) s in
      rw (poll_chunks, e)
        (after_chunk ids (join cs) (x ∷ answer) s (handle_all hooks (poll_chunks exchange cs) s')
          same (rest s'))

  poll_chunks-IsCaught :
      (cs : List (List ℕ)) (s : Framework)
      → Answers exchange
      → IsCaught m (join cs) s (handle_all hooks (poll_chunks exchange cs) s)
  unfolding poll_chunks
  poll_chunks-IsCaught [] s answers = record { state = s; handled = refl; market = refl }
  poll_chunks-IsCaught (ids ∷ cs) s answers =
      let (answer, e, same) = answers ids in
      chunk-IsCaught ids cs answer s e (same m) (λ s'. poll_chunks-IsCaught cs s' answers)

contains-wanted :
    (m : ℕ) (market : Market) (ms : Markets)
    → lookup m ms ≡ some market
    → market.market_id ≡ m
    → market.update_market_catalogue ≡ true
    → contains m (wanted ms) ≡ true
contains-wanted m market [] known id flag = absurd (none-ne-some market known)
contains-wanted m market (item ∷ ms) known id flag = elim (Bool-cases (m == item.0)) [
  | inl same ↦
      (let e : item.1 ≡ market = some-injective item.1 market (rw same at known) in
        rw (e, flag, id) (ground arith))
  | inr other ↦
      (let rest = contains-wanted m market ms (rw other at known) id flag in
        elim (Bool-cases item.1.update_market_catalogue) [
          | inl asks ↦ rw (asks, rest) (ground arith)
          | inr idle ↦ rw idle rest
        ])
]

-- What the poll is for: the market has its catalogue, unless it did not ask, and asks no more.
pub record IsServed (m : ℕ) (market : Market) (result : Option Framework) : Type 0 where
  pub state : Framework
  pub handled : result ≡ some state
  pub served : Market
  pub listed : lookup m state.floor.markets ≡ some served
  pub asks_no_more : served.update_market_catalogue ≡ false
  pub has_catalogue : market.update_market_catalogue ≡ true → served.has_catalogue ≡ true

IsCaught-IsServed :
    (m : ℕ) (ids : List ℕ) (market : Market) (s : Framework) (result : Option Framework)
    → lookup m s.floor.markets ≡ some market
    → (market.update_market_catalogue ≡ true → contains m ids ≡ true)
    → IsCaught m ids s result
    → IsServed m market result
IsCaught-IsServed m ids market s result known asked v = elim (Bool-cases (contains m ids)) [
  | inl inside ↦ record {
    state = v.state;
    handled = v.handled;
    served = take_catalogue market;
    listed = v.market ∙ rw (inside, known) refl;
    asks_no_more = refl;
    has_catalogue = λ h. refl;
  }
  | inr outside ↦ elim (Bool-cases market.update_market_catalogue) [
    | inl asks ↦ absurd (true≢false (sym (asked asks) ∙ outside))
    | inr idle ↦ record {
      state = v.state;
      handled = v.handled;
      served = market;
      listed = v.market ∙ rw (outside, known) refl;
      asks_no_more = idle;
      has_catalogue = λ asks. absurd (true≢false (sym asks ∙ idle));
    }
  ]
]

-- Where the exchange answers each call with the catalogues of the markets asked for, in whatever
-- order, the events that a poll puts, handled in turn, leave each listed market asking for no
-- catalogue, and with one if it asked.
pub poll_market_catalogue-IsServed :
    (exchange : Exchange) (hooks : Hooks) (m : ℕ) (market : Market) (s : Framework)
    → Answers exchange
    → lookup m s.floor.markets ≡ some market
    → market.market_id ≡ m
    → (events : List Event) × ((poll_market_catalogue exchange s).handler_queue
        ≡ s.handler_queue ++ events)
      × IsServed m market (handle_all hooks events s)
unfolding poll_market_catalogue
poll_market_catalogue-IsServed exchange hooks m market s answers known id =
    let cs = chunks (wanted s.floor.markets) 25 in
    (
      poll_chunks exchange cs,
      refl,
      IsCaught-IsServed m (join cs) market s _ known
          (λ flag.
            ap (contains m) (chunks_lem (wanted s.floor.markets) 25 (omega arith)).0
            ∙ contains-wanted m market s.floor.markets known id flag)
          (poll_chunks-IsCaught exchange hooks m cs s answers),
    )
