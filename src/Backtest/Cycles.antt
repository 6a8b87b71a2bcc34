-- ===== src/Backtest/Cycles.antt =====
-- The books of an event are processed in the order of their times, and each of them once.
use flumine.Prelude.{
  ℕ, zero, suc, ◌+◌, ◌≤◌, ◌≡◌, refl, ap, ap₂, ◌∙◌, subst, ◌⊎◌, Bool, true, some, List, [], ◌∷◌,
  ◌++◌, arith, All, length, leb, if◌then◌else◌, leb→le, All-append, Bool-cases, inl, inr,
}
use flumine.Backtest.{
  Cycle, new_cycle, create_cycles, insert_cycle, sort_cycles, add_back, mux_loop, batches, mux,
}

module _ {A : Type 0} (epoch_of : A → ℕ) where
  -- The times of the items do not fall, and are not below a bound.
  abbrev pub Ascending : ℕ → List A → Type 0
  Ascending m [] = Unit
  Ascending m (x ∷ xs) = (m ≤ epoch_of x) × Ascending (epoch_of x) xs

  -- A stream that gives a first item, with times that do not fall.
  abbrev pub IsStream : List A → Type 0
  IsStream [] = ⊥
  IsStream (x ∷ xs) = Ascending (epoch_of x) xs

  abbrev pub count : (A → Bool) → List A → ℕ
  count p [] = 0
  count p (x ∷ xs) = (if p x then 1 else 0) + count p xs

  abbrev pub count_all : (A → Bool) → List (List A) → ℕ
  count_all p [] = 0
  count_all p (xs ∷ xss) = count p xs + count_all p xss

  -- What a cycle still gives.
  abbrev pending : Cycle A → List A
  pending c = c.batch ∷ c.rest

  abbrev streams_of : List (Cycle A) → List (List A)
  streams_of [] = []
  streams_of (c ∷ cs) = pending c ∷ streams_of cs

  -- A cycle from a bound on.
  record IsCycle (m : ℕ) (c : Cycle A) : Type 0 where
    low : m ≤ c.epoch
    epoch_eq : c.epoch ≡ epoch_of c.batch
    ascends : Ascending c.epoch c.rest

  list-cases :
      {B : Type 0} (xs : List B) → (xs ≡ []) ⊎ ((x : B) × (rest : List B) × (xs ≡ x ∷ rest))
  list-cases [] = inl refl
  list-cases (x ∷ xs) = inr (x, xs, refl)

  IsCycle-mono : {m n : ℕ} {c : Cycle A} → n ≤ m → IsCycle m c → IsCycle n c
  IsCycle-mono h i = record {
    low = (let l = i.low in omega arith);
    epoch_eq = i.epoch_eq;
    ascends = i.ascends;
  }

  All-mono : {m n : ℕ} (cs : List (Cycle A)) → n ≤ m → All (IsCycle m) cs → All (IsCycle n) cs
  All-mono [] h a = tt
  All-mono (c ∷ cs) h a = (IsCycle-mono h a.0, All-mono cs h a.1)

  -- The cycles from the first one's time on.
  abbrev Headed : ℕ → List (Cycle A) → Type 0
  Headed m [] = Unit
  Headed m (c ∷ cs) = IsCycle m c × All (IsCycle c.epoch) cs

  Headed-All : (m : ℕ) (cs : List (Cycle A)) → Headed m cs → All (IsCycle m) cs
  Headed-All m [] h = tt
  Headed-All m (c ∷ cs) h = (h.0, All-mono cs h.0.low h.1)

  insert_cycle-All :
      (m : ℕ) (c : Cycle A) (cs : List (Cycle A))
      → IsCycle m c
      → All (IsCycle m) cs
      → All (IsCycle m) (insert_cycle c cs)
  unfolding insert_cycle
  insert_cycle-All m c [] i h = (i, tt)
  insert_cycle-All m c (d ∷ cs) i h = elim (Bool-cases (leb c.epoch d.epoch)) [
    | inl below ↦ rw below (i, h)
    | inr above ↦ rw above (h.0, insert_cycle-All m c cs i h.1)
  ]

  raised : {m n : ℕ} {c : Cycle A} → n ≤ c.epoch → IsCycle m c → IsCycle n c
  raised h i = record { low = h; epoch_eq = i.epoch_eq; ascends = i.ascends }

  insert_cycle-Headed :
      (m : ℕ) (c : Cycle A) (cs : List (Cycle A))
      → IsCycle m c
      → Headed m cs
      → Headed m (insert_cycle c cs)
  unfolding insert_cycle
  insert_cycle-Headed m c [] i h = (i, tt)
  insert_cycle-Headed m c (d ∷ cs) i h = elim (Bool-cases (leb c.epoch d.epoch)) [
    | inl below ↦ rw below (i, (raised (leb→le _ _ below) h.0, All-mono cs (leb→le _ _ below) h.1))
    | inr above ↦ rw above (h.0, insert_cycle-All d.epoch c cs (raised (ground arith) i) h.1)
  ]

  sort_cycles-Headed :
      (m : ℕ) (cs : List (Cycle A)) → All (IsCycle m) cs → Headed m (sort_cycles cs)
  unfolding sort_cycles
  sort_cycles-Headed m [] h = tt
  sort_cycles-Headed m (c ∷ cs) h =
      insert_cycle-Headed m c (sort_cycles cs) h.0 (sort_cycles-Headed m cs h.1)

  add_back-All :
      (m : ℕ) (rest : List A) (cs : List (Cycle A))
      → Ascending m rest
      → All (IsCycle m) cs
      → All (IsCycle m) (add_back epoch_of rest cs)
  unfolding add_back
  add_back-All m [] cs h a = a
  add_back-All m (batch ∷ rest) cs h a =
      All-append (IsCycle m) cs _ a (record { low = h.0; epoch_eq = refl; ascends = h.1 }, tt)

  mux_loop-Ascending :
      (fuel m : ℕ) (cs : List (Cycle A))
      → All (IsCycle m) cs
      → Ascending m (mux_loop epoch_of fuel cs)
  unfolding mux_loop
  mux_loop-Ascending zero m cs h = tt
  mux_loop-Ascending (suc fuel) m cs h = elim (list-cases (sort_cycles cs)) [
    | inl done ↦ rw (mux_loop, done) tt
    | inr (c, others, sorted) ↦
        (let headed : Headed m (c ∷ others) = subst (Headed m) sorted (sort_cycles-Headed m cs h) in
          rw (mux_loop, sorted)
            (
              subst (λ e. m ≤ e) headed.0.epoch_eq headed.0.low,
              subst (λ e. Ascending e (mux_loop epoch_of fuel (add_back epoch_of c.rest others)))
                  headed.0.epoch_eq
                  (mux_loop-Ascending fuel c.epoch _
                    (add_back-All c.epoch c.rest others headed.0.ascends headed.1)),
            ))
  ]

  abbrev always : A → Bool
  always x = true

  count-length : (xs : List A) → count always xs ≡ length xs
  count-length [] = refl
  count-length (x ∷ xs) = let ih = count-length xs in omega arith

  -- What the cycles give, counted by a test.
  abbrev given : (A → Bool) → List (Cycle A) → ℕ
  given p [] = 0
  given p (c ∷ cs) = count p (c.batch ∷ c.rest) + given p cs

  insert_cycle-given :
      (p : A → Bool) (c : Cycle A) (cs : List (Cycle A))
      → given p (insert_cycle c cs) ≡ given p (c ∷ cs)
  unfolding insert_cycle
  insert_cycle-given p c [] = refl
  insert_cycle-given p c (d ∷ cs) = elim (Bool-cases (leb c.epoch d.epoch)) [
    | inl below ↦ rw below refl
    | inr above ↦ rw above (let ih = insert_cycle-given p c cs in omega arith)
  ]

  sort_cycles-given : (p : A → Bool) (cs : List (Cycle A)) → given p (sort_cycles cs) ≡ given p cs
  unfolding sort_cycles
  sort_cycles-given p [] = refl
  sort_cycles-given p (c ∷ cs) =
      let ih = sort_cycles-given p cs in
      let i = insert_cycle-given p c (sort_cycles cs) in omega arith

  given-append :
      (p : A → Bool) (cs ds : List (Cycle A)) → given p (cs ++ ds) ≡ given p cs + given p ds
  given-append p [] ds = omega arith
  given-append p (c ∷ cs) ds = let ih = given-append p cs ds in omega arith

  add_back-given :
      (p : A → Bool) (rest : List A) (cs : List (Cycle A))
      → given p (add_back epoch_of rest cs) ≡ count p rest + given p cs
  unfolding add_back
  add_back-given p [] cs = omega arith
  add_back-given p (batch ∷ rest) cs =
      let g = given-append p cs (new_cycle epoch_of batch rest ∷ []) in omega arith

  mux_loop-given :
      (p : A → Bool) (fuel : ℕ) (cs : List (Cycle A))
      → given always cs ≤ fuel
      → count p (mux_loop epoch_of fuel cs) ≡ given p cs
  unfolding mux_loop
  mux_loop-given p zero [] h = refl
  mux_loop-given p zero (c ∷ cs) h = omega arith
  mux_loop-given p (suc fuel) cs h = elim (list-cases (sort_cycles cs)) [
    | inl done ↦
        rw (mux_loop, done)
          (let s = subst (λ ds. given p ds ≡ given p cs) done (sort_cycles-given p cs) in s)
    | inr (c, others, sorted) ↦
        (let s = subst (λ ds. given p ds ≡ given p cs) sorted (sort_cycles-given p cs) in
          let n =
            subst (λ ds. given always ds ≡ given always cs) sorted (sort_cycles-given always cs) in
          let a = add_back-given p c.rest others in
          let b = add_back-given always c.rest others in
          let ih = mux_loop-given p fuel (add_back epoch_of c.rest others) (omega arith) in
          rw (mux_loop, sorted) (omega arith))
  ]

  -- What "create cycles" gives.
  record IsCreated (streams : List (List A)) (cycles : List (Cycle A)) : Type 0 where
    from_zero : All (IsCycle 0) cycles
    given_eq : (p : A → Bool) → given p cycles ≡ count_all p streams

  create_cycles-IsCreated :
      (streams : List (List A))
      → All IsStream streams
      → (cycles : List (Cycle A)) × (create_cycles epoch_of streams ≡ some cycles)
        × IsCreated streams cycles
  unfolding create_cycles
  create_cycles-IsCreated [] h = ([], refl, record { from_zero = tt; given_eq = λ p. refl })
  create_cycles-IsCreated ([] ∷ streams) h = absurd h.0
  create_cycles-IsCreated ((batch ∷ rest) ∷ streams) h =
      let (cycles, eq, created) = create_cycles-IsCreated streams h.1 in
      (
        new_cycle epoch_of batch rest ∷ cycles,
        rw eq refl,
        record {
          from_zero =
              (record { low = omega arith; epoch_eq = refl; ascends = h.0 }, created.from_zero);
          given_eq = λ p. ap (λ n. count p (batch ∷ rest) + n) (created.given_eq p);
        },
      )

  batches-count : (streams : List (List A)) → count_all always streams ≡ batches streams
  unfolding batches
  batches-count [] = refl
  batches-count (stream ∷ streams) =
      ap₂ (λ n k. n + k) (count-length stream) (batches-count streams)

  -- What the muxing of streams is to give: their items in the order of time, and each as often as
  -- in the streams.
  pub record IsMuxed (streams : List (List A)) (out : List A) : Type 0 where
    pub ascending : Ascending 0 out
    pub complete : (p : A → Bool) → count p out ≡ count_all p streams

  -- Where every stream gives a first batch and its times do not fall, the batches of an event's
  -- streams are all processed, each as often as it is in the streams, and in the order of time.
  pub mux-IsMuxed :
      (streams : List (List A))
      → All IsStream streams
      → (out : List A) × (mux epoch_of streams ≡ some out) × IsMuxed streams out
  unfolding mux
  mux-IsMuxed streams h =
      let (cycles, eq, created) = create_cycles-IsCreated streams h in
      (
        mux_loop epoch_of (batches streams) cycles,
        rw (mux, eq) refl,
        record {
          ascending = mux_loop-Ascending (batches streams) 0 cycles created.from_zero;
          complete = λ p.
              mux_loop-given p (batches streams) cycles
                (let n = created.given_eq always in let m = batches-count streams in omega arith)
              ∙ created.given_eq p;
        },
      )
