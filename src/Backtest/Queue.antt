-- ===== src/Backtest/Queue.antt =====
-- The queue of the packages that wait for their delay.
use flumine.Prelude.{
  ℕ, ◌≡◌, refl, ap, sym, ◌∙◌, subst, true, false, Option, none, some, List, [], ◌∷◌, ◌++◌, ◌==◌,
  ◌<◌, ◌-◌, All, arith, contains, Distinct, Bool-cases, Option-cases, inl, inr,
}
use mathlib.Core.List.{append-nil, append_assoc}
use flumine.Prelude.Dict.{lookup}
use flumine.Execution.Replacing.{handler}
use flumine.Package.{Package, Latencies, calc_simulated_delay}
use flumine.Backtest.{
  Waiting, Session, Setup, exchange, is_due, run_package, run_due, remove_package, remove_packages,
  check_pending_packages,
}

-- The packages in order, one after the other.
abbrev pub run_packages : Setup → List Waiting → Session → Option Session
run_packages setup [] s = some s
run_packages setup (q ∷ qs) s = elim (run_package setup q.request s) [
  | none ↦ none
  | some s' ↦ run_packages setup qs s'
]

-- The queue that a check leaves, where it raises nothing.
abbrev pub with_queue : List Waiting → Option Session → Option Session
with_queue qs none = none
with_queue qs (some s) = some (record s { handler_queue = qs })

-- The package is of the market and was made longer ago than its delay.
abbrev pub IsDue : Latencies → ℕ → ℕ → Waiting → Type 0
IsDue l now market_id q =
    (q.request.market_id ≡ market_id)
    × (calc_simulated_delay l q.request.package_type q.request.bet_delay < now - q.created)

-- A queue is split into the packages that are due and those that wait on, each in their order.
pub data Splits (l : Latencies) (now market_id : ℕ)
    : List Waiting → List Waiting → List Waiting → Type 0 where
  empty_ : Splits l now market_id [] [] []
  due_ :
      {q : Waiting} {qs due waiting : List Waiting}
      → IsDue l now market_id q
      → Splits l now market_id qs due waiting
      → Splits l now market_id (q ∷ qs) (q ∷ due) waiting
  waits_ :
      {q : Waiting} {qs due waiting : List Waiting}
      → ¬ IsDue l now market_id q
      → Splits l now market_id qs due waiting
      → Splits l now market_id (q ∷ qs) due (q ∷ waiting)

abbrev pub ids : List Waiting → List ℕ
ids [] = []
ids (q ∷ qs) = q.id ∷ ids qs

is_due-IsDue :
    (l : Latencies) (now market_id : ℕ) (q : Waiting)
    → is_due l now market_id q ≡ true
    → IsDue l now market_id q
unfolding is_due
is_due-IsDue l now market_id q h = ground arith

not-is_due-IsDue :
    (l : Latencies) (now market_id : ℕ) (q : Waiting)
    → is_due l now market_id q ≡ false
    → ¬ IsDue l now market_id q
unfolding is_due
not-is_due-IsDue l now market_id q h d = ground arith

-- No package of the list is the same object as `q`.
abbrev Others : Waiting → List Waiting → Type 0
Others q = All (λ p. (p.id == q.id) ≡ false)

absent-Others : (q : Waiting) (qs : List Waiting) → contains q.id (ids qs) ≡ false → Others q qs
absent-Others q [] h = tt
absent-Others q (p ∷ qs) h = (ground arith, absent-Others q qs (ground arith))

module _ (l : Latencies) (now market_id : ℕ) where
  Splits-Others :
      (q : Waiting) (qs due waiting : List Waiting)
      → Splits l now market_id qs due waiting
      → Others q qs
      → Others q due
  Splits-Others q _ _ _ empty_ h = tt
  Splits-Others q _ _ _ (due_ d rest) h = (h.0, Splits-Others q _ _ _ rest h.1)
  Splits-Others q _ _ _ (waits_ d rest) h = Splits-Others q _ _ _ rest h.1

-- What is put before a queue, where there is one.
abbrev put_before : Waiting → Option (List Waiting) → Option (List Waiting)
put_before q none = none
put_before q (some qs) = some (q ∷ qs)

remove_packages-skip :
    (q : Waiting) (ps qs : List Waiting)
    → Others q ps
    → remove_packages ps (q ∷ qs) ≡ put_before q (remove_packages ps qs)
unfolding remove_packages remove_package
remove_packages-skip q [] qs h = refl
remove_packages-skip q (p ∷ ps) qs h = elim (Option-cases (remove_package p qs)) [
  | inl missing ↦ rw (remove_packages, remove_package, h.0, missing) refl
  | inr (rest, found) ↦
      rw (remove_packages, remove_package, h.0, found) (remove_packages-skip q ps rest h.1)
]

-- Packages of which no two are the same object.
abbrev pub IsDistinct : List Waiting → Type 0
IsDistinct qs = Distinct (ids qs)

module _ (l : Latencies) (now market_id : ℕ) where
  remove_packages-Splits :
      (qs due waiting : List Waiting)
      → Splits l now market_id qs due waiting
      → IsDistinct qs
      → remove_packages due qs ≡ some waiting
  unfolding remove_packages remove_package
  remove_packages-Splits _ _ _ empty_ h = refl
  remove_packages-Splits _ _ _ (due_ {q} {qs} {due} {waiting} d rest) h =
      rw (remove_packages, remove_package, same q) (remove_packages-Splits qs due waiting rest h.1)
    where
      same : (p : Waiting) → (p.id == p.id) ≡ true
      same p = ground arith
  remove_packages-Splits _ _ _ (waits_ {q} {qs} {due} {waiting} d rest) h =
      remove_packages-skip q due qs
        (Splits-Others l now market_id q qs due waiting rest (absent-Others q qs h.0))
      ∙ ap (put_before q) (remove_packages-Splits qs due waiting rest h.1)

-- The queue of an outcome, where there is one.
abbrev HasQueue : List Waiting → Option Session → Type 0
HasQueue qs none = Unit
HasQueue qs (some s) = s.handler_queue ≡ qs

run_package-HasQueue :
    (setup : Setup) (p : Package) (s : Session) → HasQueue s.handler_queue (run_package setup p s)
unfolding run_package
run_package-HasQueue setup p s = elim (Option-cases (lookup p.market_id s.markets)) [
  | inl missing ↦ rw (run_package, missing) tt
  | inr (market, listed) ↦ elim (Option-cases market.market_book) [
    | inl unknown ↦ rw (run_package, listed, unknown) tt
    | inr (book, known) ↦
        elim (Option-cases (handler setup.best_price_execution p (exchange market book s))) [
          | inl raises ↦ rw (run_package, listed, known, raises) tt
          | inr (x, runs) ↦ rw (run_package, listed, known, runs) refl
        ]
  ]
]

run_packages-HasQueue :
    (setup : Setup) (ps : List Waiting) (s : Session)
    → HasQueue s.handler_queue (run_packages setup ps s)
run_packages-HasQueue setup [] s = refl
run_packages-HasQueue setup (p ∷ ps) s = elim (Option-cases (run_package setup p.request s)) [
  | inl raises ↦ rw (run_packages, raises) tt
  | inr (r, runs) ↦
      rw (run_packages, runs)
        (subst (λ qs. HasQueue qs (run_packages setup ps r))
          (subst (HasQueue s.handler_queue) runs (run_package-HasQueue setup p.request s))
          (run_packages-HasQueue setup ps r))
]

-- The processed packages with what their execution leaves.
abbrev with_processed : List Waiting → Option Session → Option (List Waiting × Session)
with_processed ps none = none
with_processed ps (some s) = some (ps, s)

module _ (setup : Setup) (now market_id : ℕ) where
  split :
      (qs : List Waiting)
      → (due : List Waiting) × (waiting : List Waiting) × Splits setup.latencies now market_id qs
          due waiting
        × ((processed : List Waiting) (s : Session)
            → run_due setup now market_id qs processed s
              ≡ with_processed (processed ++ due) (run_packages setup due s))
  unfolding run_due
  split [] = ([], [], empty_, λ processed s. ap (λ ps. some (ps, s)) (sym (append-nil processed)))
  split (q ∷ qs) =
      let (due, waiting, splits, eq) = split qs in
      elim (Bool-cases (is_due setup.latencies now market_id q)) [
        | inl due_now ↦ (
          q ∷ due,
          waiting,
          due_ (is_due-IsDue setup.latencies now market_id q due_now) splits,
          λ processed s. elim (Option-cases (run_package setup q.request s)) [
            | inl raises ↦ rw (run_due, due_now, run_packages, raises) refl
            | inr (r, runs) ↦
                rw (run_due, due_now, run_packages, runs)
                  (eq (processed ++ q ∷ []) r
                    ∙ ap (λ ps. with_processed ps (run_packages setup due r))
                        (append_assoc processed (q ∷ []) due))
          ],
        )
        | inr waits ↦ (
          due,
          q ∷ waiting,
          waits_ (not-is_due-IsDue setup.latencies now market_id q waits) splits,
          λ processed s. rw (run_due, waits) (eq processed s),
        )
      ]

  -- What the check leaves of an outcome of its loop.
  settle :
      (s : Session) (due waiting : List Waiting) (outcome : Option Session)
      → run_due setup now market_id s.handler_queue [] s ≡ with_processed due outcome
      → HasQueue s.handler_queue outcome
      → remove_packages due s.handler_queue ≡ some waiting
      → check_pending_packages setup now market_id s ≡ with_queue waiting outcome
  unfolding check_pending_packages
  settle s due waiting none runs kept left = rw (check_pending_packages, runs) refl
  settle s due waiting (some r) runs kept left = rw (check_pending_packages, runs, kept, left) refl

  -- Where no two packages of the queue are the same object, it is split into the packages of the
  -- market that were made longer ago than their delay and the others. The check executes the first,
  -- each once and in the order of the queue, and raises only where an execution does; what it
  -- leaves in the queue are the others, in their order.
  pub check_pending_packages-Splits :
      (s : Session)
      → IsDistinct s.handler_queue
      → (due : List Waiting) × (waiting : List Waiting) × Splits setup.latencies now market_id
          s.handler_queue due waiting
        × (check_pending_packages setup now market_id s
            ≡ with_queue waiting (run_packages setup due s))
  check_pending_packages-Splits s distinct =
      let (due, waiting, splits, eq) = split s.handler_queue in
      (
        due,
        waiting,
        splits,
        settle s due waiting (run_packages setup due s) (eq [] s)
            (run_packages-HasQueue setup due s)
            (remove_packages-Splits setup.latencies now market_id s.handler_queue due waiting splits
              distinct),
      )
