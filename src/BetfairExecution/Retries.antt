-- ===== src/BetfairExecution/Retries.antt =====
-- The calls of the exchange end.
use flumine.Prelude.{
  ℕ, zero, suc, ◌+◌, ◌-◌, ◌≤◌, ◌<◌, ◌≡◌, ◌⊎◌, if◌then◌else◌, refl, subst, Bool, true, Option, none,
  some, List, [], ◌∷◌, arith, Bool-cases, inl, inr,
}
use flumine.Package.{Package, new_package, retry}
use flumine.Controls.{PackageType}
use flumine.BetfairExecution.{Answer, betfair_error, unknown_error, responded, execution_helper}

answer_cases :
    {R : Type 0} (a : Answer R)
    → (a ≡ betfair_error) ⊎ ((a ≡ unknown_error) ⊎ ((r : R) × (a ≡ responded r)))
answer_cases betfair_error = inl refl
answer_cases unknown_error = inr (inl refl)
answer_cases (responded r) = inr (inr (r, refl))

-- The number of retries that a package has left.
abbrev pub retries_left : Package → ℕ
retries_left p = if p.retry_allowed then p.max_retries - p.retry_count else 0

retry-retries_left :
    (p : Package) → (retry p).0 ≡ true → suc (retries_left (retry p).1) ≡ retries_left p
unfolding retry
retry-retries_left p h = ground arith

module _ {R : Type 0} (ask : ℕ → Answer R) where
  -- Whatever the exchange answers, the calls for a package end: with more fuel than the package has
  -- retries left there is an outcome, after at most one call more than that.
  pub execution_helper-ends :
      (fuel : ℕ) (orders : List ℕ) (p : Package)
      → retries_left p < fuel
      → (r : Option R) × (n : ℕ) × (execution_helper fuel ask orders p ≡ some (r, n))
        × (n ≤ suc (retries_left p))
  unfolding execution_helper
  execution_helper-ends zero orders p h = absurd (omega arith)
  execution_helper-ends (suc fuel) [] p h = (none, 0, refl, omega arith)
  execution_helper-ends (suc fuel) (o ∷ os) p h = elim (answer_cases (ask p.retry_count)) [
    | inl fails ↦ elim (Bool-cases (retry p).0) [
      | inl again ↦
          (let less = retry-retries_left p again in
            let (r, n, runs, few) = execution_helper-ends fuel (o ∷ os) (retry p).1 (omega arith) in
            (r, suc n, rw (execution_helper, fails, again, runs) refl, omega arith))
      | inr over ↦ (none, 1, rw (execution_helper, fails, over) refl, omega arith)
    ]
    | inr (inl breaks) ↦ (none, 1, rw (execution_helper, breaks) refl, omega arith)
    | inr (inr (r, answers)) ↦ (some r, 1, rw (execution_helper, answers) refl, omega arith)
  ]

  -- The package after `n` retries.
  abbrev retried : ℕ → Package → Package
  retried n p = record p { retry_count = n }

  retry-eq :
      (p : Package)
      → p.retry_allowed ≡ true
      → p.retry_count < p.max_retries
      → retry p ≡ (true, retried (p.retry_count + 1) p)
  unfolding retry
  retry-eq p allowed h = ground arith

  delivers :
      (d fuel o : ℕ) (os : List ℕ) (p : Package) (r : R)
      → p.retry_allowed ≡ true
      → d < fuel
      → p.retry_count + d ≤ p.max_retries
      → ((j : ℕ) → j < d → ask (p.retry_count + j) ≡ betfair_error)
      → ask (p.retry_count + d) ≡ responded r
      → execution_helper fuel ask (o ∷ os) p ≡ some (some r, suc d)
  unfolding execution_helper
  delivers d zero o os p r allowed h limit fails answers = absurd (omega arith)
  delivers zero (suc fuel) o os p r allowed h limit fails answers =
      let now : ask p.retry_count ≡ responded r =
        subst (λ c. ask c ≡ responded r) (omega arith) answers in
      rw (execution_helper, now) refl
  delivers (suc d) (suc fuel) o os p r allowed h limit fails answers =
      let now : ask p.retry_count ≡ betfair_error =
        subst (λ c. ask c ≡ betfair_error) (omega arith) (fails 0 (omega arith)) in
      let later =
        delivers d fuel o os (retried (p.retry_count + 1) p) r allowed (omega arith) (omega arith)
          (λ j k. subst (λ c. ask c ≡ betfair_error) (omega arith) (fails (suc j) (omega arith)))
          (subst (λ c. ask c ≡ responded r) (omega arith) answers) in
      rw (execution_helper, now, retry-eq p allowed (omega arith), later) refl

  -- A new package that holds an order gets the first response of the exchange, where at most three
  -- calls before it were refused and none ended otherwise.
  pub execution_helper-delivers :
      (d market_id o bet_delay : ℕ) (os : List ℕ) (package_type : PackageType) (async_ : Bool)
      (version : Option ℕ) (r : R)
      → d ≤ 3
      → ((j : ℕ) → j < d → ask j ≡ betfair_error)
      → ask d ≡ responded r
      → execution_helper 4 ask
          (o ∷ os)
          (new_package market_id (o ∷ os) package_type bet_delay async_ version)
        ≡ some (some r, suc d)
  execution_helper-delivers d market_id o bet_delay os package_type async_ version r limit fails
        answers =
      delivers d 4 o os (new_package market_id (o ∷ os) package_type bet_delay async_ version) r
        refl (omega arith) (omega arith)
        (λ j k. subst (λ c. ask c ≡ betfair_error) (omega arith) (fails j k))
        (subst (λ c. ask c ≡ responded r) (omega arith) answers)
