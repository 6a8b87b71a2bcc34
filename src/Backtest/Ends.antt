-- ===== src/Backtest/Ends.antt =====
-- What waits in the queue where a backtest's run begins a market or an event.
use flumine.Prelude.{
  ℕ, ◌≡◌, refl, sym, subst, if◌then◌else◌, Option, some, List, [], ◌∷◌, Bool-cases, Option-cases,
  inl, inr,
}
use mathlib.Core.Option.{some-injective, none-ne-some}
use flumine.Backtest.{Session, Setup, mux}
use flumine.Backtest.Run.{
  Batch, batch_epoch, EventStream, clear_queue, process_batches, run_markets, run_event, is_muxed,
  group_streams, run_group, run_groups, run,
}

-- A session in which no package waits.
abbrev pub IsIdle : Session → Type 0
IsIdle s = s.handler_queue ≡ []

-- Streams in isolation: each one's books are processed from a session in which no package waits,
-- and what waits after them is dropped.
pub data Isolated (setup : Setup) : List (List Batch) → Session → Session → Type 0 where
  none_left : (s : Session) → Isolated setup [] s s
  next_market :
      {stream : List Batch} {streams : List (List Batch)} {s t u : Session}
      → IsIdle s
      → process_batches setup stream s ≡ some t
      → Isolated setup streams (clear_queue t) u
      → Isolated setup (stream ∷ streams) s u

-- The streams of a group: the muxed books of an event are one unit, or each stream is one.
abbrev pub IsUnits : Option ℕ × List (List Batch) → List (List Batch) → Type 0
IsUnits (e, streams) units =
    if is_muxed e streams
    then ((batches : List Batch) × (mux batch_epoch streams ≡ some batches)
        × (units ≡ batches ∷ []))
    else units ≡ streams

pub data AllIsolated (setup : Setup)
    : List (Option ℕ × List (List Batch)) → Session → Session → Type 0 where
  all_done : (s : Session) → AllIsolated setup [] s s
  next_group :
      {group : Option ℕ × List (List Batch)} {groups : List (Option ℕ × List (List Batch))}
      {units : List (List Batch)} {s t u : Session}
      → IsUnits group units
      → Isolated setup units s t
      → AllIsolated setup groups t u
      → AllIsolated setup (group ∷ groups) s u

run_markets-Isolated :
    (setup : Setup) (streams : List (List Batch)) (s t : Session)
    → IsIdle s
    → run_markets setup streams s ≡ some t
    → Isolated setup streams s t × IsIdle t
unfolding run_markets
run_markets-Isolated setup [] s t idle runs =
    subst (λ u. Isolated setup [] s u × IsIdle u) (some-injective _ _ runs) (none_left s, idle)
run_markets-Isolated setup (stream ∷ streams) s t idle runs =
    elim (Option-cases (process_batches setup stream s)) [
      | inl raises ↦ absurd (none-ne-some _ (rw (run_markets, raises) at runs))
      | inr (r, processed) ↦
          let (rest, ends) =
            run_markets-Isolated setup streams (clear_queue r) t refl
              (rw (run_markets, processed) at runs) in
          (next_market idle processed rest, ends)
    ]

run_event-Isolated :
    (setup : Setup) (streams : List (List Batch)) (s t : Session)
    → IsIdle s
    → run_event setup streams s ≡ some t
    → ((batches : List Batch) × (mux batch_epoch streams ≡ some batches)
        × Isolated setup (batches ∷ []) s t)
      × IsIdle t
unfolding run_event
run_event-Isolated setup streams s t idle runs = elim (Option-cases (mux batch_epoch streams)) [
  | inl raises ↦ absurd (none-ne-some _ (rw (run_event, raises) at runs))
  | inr (batches, muxed) ↦ elim (Option-cases (process_batches setup batches s)) [
    | inl raises ↦ absurd (none-ne-some _ (rw (run_event, muxed, raises) at runs))
    | inr (r, processed) ↦
        subst
          (λ u.
            ((b : List Batch) × (mux batch_epoch streams ≡ some b) × Isolated setup (b ∷ []) s u)
            × IsIdle u)
          (some-injective _ _ (rw (run_event, muxed, processed) at runs))
          ((batches, muxed, next_market idle processed (none_left (clear_queue r))), refl)
  ]
]

-- The units of a group, which are run in isolation.
abbrev RunsUnits : Setup → Option ℕ × List (List Batch) → Session → Session → Type 0
RunsUnits setup group s t =
    ((units : List (List Batch)) × IsUnits group units × Isolated setup units s t) × IsIdle t

run_group-RunsUnits :
    (setup : Setup) (e : Option ℕ) (streams : List (List Batch)) (s t : Session)
    → IsIdle s
    → run_group setup (e, streams) s ≡ some t
    → RunsUnits setup (e, streams) s t
unfolding run_group
run_group-RunsUnits setup e streams s t idle runs = elim (Bool-cases (is_muxed e streams)) [
  | inl several ↦
      let ((batches, muxed, isolated), ends) =
        run_event-Isolated setup streams s t idle (rw several at runs) in
      ((batches ∷ [], rw several (batches, muxed, refl), isolated), ends)
  | inr single ↦
      let (isolated, ends) = run_markets-Isolated setup streams s t idle (rw single at runs) in
      ((streams, rw single refl, isolated), ends)
]

run_groups-AllIsolated :
    (setup : Setup) (groups : List (Option ℕ × List (List Batch))) (s t : Session)
    → IsIdle s
    → run_groups setup groups s ≡ some t
    → AllIsolated setup groups s t × IsIdle t
unfolding run_groups
run_groups-AllIsolated setup [] s t idle runs =
    subst (λ u. AllIsolated setup [] s u × IsIdle u) (some-injective _ _ runs) (all_done s, idle)
run_groups-AllIsolated setup (group ∷ groups) s t idle runs =
    elim (Option-cases (run_group setup group s)) [
      | inl raises ↦ absurd (none-ne-some _ (rw (run_groups, raises) at runs))
      | inr (r, ran) ↦
          let ((units, of_group, isolated), ends) =
            run_group-RunsUnits setup group.0 group.1 s r idle ran in
          let (rest, last) =
            run_groups-AllIsolated setup groups r t ends (rw (run_groups, ran) at runs) in
          (next_group of_group isolated rest, last)
    ]

-- In a run that raises nothing, from a session in which no package waits, no package waits where
-- the processing of a market, or of the muxed streams of an event, begins; and none waits at the
-- end, where the strategies finish.
pub run-AllIsolated :
    (setup : Setup) (streams : List EventStream) (s s' : Session)
    → IsIdle s
    → run setup streams s ≡ some s'
    → (t : Session) × AllIsolated setup (group_streams streams []) s t
      × IsIdle t
      × (s' ≡ setup.finish t)
unfolding run
run-AllIsolated setup streams s s' idle runs =
    elim (Option-cases (run_groups setup (group_streams streams []) s)) [
      | inl raises ↦ absurd (none-ne-some _ (rw (run, raises) at runs))
      | inr (t, ran) ↦
          let (isolated, ends) =
            run_groups-AllIsolated setup (group_streams streams []) s t idle ran in
          (t, isolated, ends, sym (some-injective _ _ (rw (run, ran) at runs)))
    ]
