-- ===== src/HttpPool/Lending.antt =====
-- What the pool keeps and what it lends.
use flumine.Prelude.{
  All, ℕ, suc, ◌+◌, ◌≤◌, ◌<◌, ◌≡◌, refl, Bool, ◌||◌, ◌⊎◌, List, [], ◌∷◌, ◌++◌, arith, ◌==◌, leb,
  ltb, ltb→lt, length, if◌then◌else◌, Bool-cases, inl, inr, ==_iff,
}
use flumine.HttpPool.{
  HttpSession, HttpPool, new_pool, create_new_session, return_http_session, pop_session,
  get_http_session, max_session_age,
}

-- How many of the sessions have a number.
abbrev pub count : ℕ → List HttpSession → ℕ
count n [] = 0
count n (session ∷ sessions) =
    let rest = count n sessions in if n == session.number then suc rest else rest

count-append : (n : ℕ) (xs ys : List HttpSession) → count n (xs ++ ys) ≡ count n xs + count n ys
count-append n [] ys = omega arith
count-append n (x ∷ xs) ys = ground (arith, count-append n xs ys)

-- The pool and the sessions that are lent: a session is taken, at whatever times, or given back, with
-- or without an error.
pub data Reached (max_workers : ℕ) : HttpPool → List HttpSession → Type 0 where
  start : Reached max_workers (new_pool max_workers) []
  take :
      (clock : ℕ → ℕ) (pool : HttpPool) (lent : List HttpSession)
      → Reached max_workers pool lent
      → Reached max_workers (get_http_session clock pool).1 ((get_http_session clock pool).0 ∷ lent)
  give :
      (now : ℕ) (session : HttpSession) (err : Bool) (pool : HttpPool)
      (before after : List HttpSession)
      → Reached max_workers pool (before ++ session ∷ after)
      → Reached max_workers (return_http_session now session err pool) (before ++ after)

-- The pool is no longer than its limit; a number is that of at most one session, in the pool or lent,
-- and of none if it is above the sessions created.
pub record IsPooled (max_workers : ℕ) (pool : HttpPool) (lent : List HttpSession) : Type 0 where
  pub limit : pool.max_workers ≡ max_workers
  pub bounded : length pool.sessions ≤ max_workers
  pub once : (n : ℕ) → count n pool.sessions + count n lent ≤ 1
  pub created : (n : ℕ) → pool.sessions_created < n → count n pool.sessions + count n lent ≡ 0

drop_first-IsPooled :
    (max_workers : ℕ) (pool : HttpPool) (session : HttpSession) (sessions lent : List HttpSession)
    → IsPooled max_workers (record pool { sessions = session ∷ sessions }) lent
    → IsPooled max_workers (record pool { sessions = sessions }) lent
drop_first-IsPooled max_workers pool session sessions lent v = record {
  limit = v.limit;
  bounded = omega (arith, v.bounded);
  once = λ n. ground (arith, v.once n);
  created = λ n h. ground (arith, v.created n h);
}

lend_first-IsPooled :
    (max_workers : ℕ) (pool : HttpPool) (session : HttpSession) (sessions lent : List HttpSession)
    → IsPooled max_workers (record pool { sessions = session ∷ sessions }) lent
    → IsPooled max_workers (record pool { sessions = sessions }) (session ∷ lent)
lend_first-IsPooled max_workers pool session sessions lent v = record {
  limit = v.limit;
  bounded = omega (arith, v.bounded);
  once = λ n. ground (arith, v.once n);
  created = λ n h. ground (arith, v.created n h);
}

create_new_session-IsPooled :
    (max_workers : ℕ) (pool : HttpPool) (created returned : ℕ) (lent : List HttpSession)
    → IsPooled max_workers pool lent
    → let made = create_new_session created returned pool in
      IsPooled max_workers made.1 (made.0 ∷ lent)
unfolding create_new_session
create_new_session-IsPooled max_workers pool created returned lent v = record {
  limit = v.limit;
  bounded = v.bounded;
  once = λ n. ground (
    arith,
    v.once n,
    v.created (suc pool.sessions_created) (omega arith),
    ==_iff n (suc pool.sessions_created),
  );
  created =
      λ n h. ground (arith, v.created n (omega (arith, h)), ==_iff n (suc pool.sessions_created));
}

pop_session-IsPooled :
    (max_workers : ℕ) (clock : ℕ → ℕ) (k : ℕ) (pool : HttpPool) (sessions lent : List HttpSession)
    → IsPooled max_workers (record pool { sessions = sessions }) lent
    → let popped = pop_session clock k pool sessions in
      IsPooled max_workers popped.1 (popped.0 ∷ lent)
unfolding pop_session
pop_session-IsPooled max_workers clock k pool [] lent v =
    create_new_session-IsPooled max_workers (record pool { sessions = [] }) (clock k)
      (clock (suc k)) lent v
pop_session-IsPooled max_workers clock k pool (session ∷ sessions) lent v =
    elim (Bool-cases (ltb (session.time_returned + max_session_age) (clock k))) [
      | inl old ↦ rw old (
          pop_session-IsPooled max_workers clock (suc k) pool sessions lent
            (drop_first-IsPooled max_workers pool session sessions lent v))
      | inr young ↦ rw young (lend_first-IsPooled max_workers pool session sessions lent v)
    ]

return_http_session-IsPooled :
    (max_workers now : ℕ) (session : HttpSession) (err : Bool) (pool : HttpPool)
    (before after : List HttpSession)
    → IsPooled max_workers pool (before ++ session ∷ after)
    → IsPooled max_workers (return_http_session now session err pool) (before ++ after)
unfolding return_http_session
return_http_session-IsPooled max_workers now session err pool before after v =
    let lent = λ (n : ℕ). count-append n before (session ∷ after) in
    let rest = λ (n : ℕ). count-append n before after in
    elim (Bool-cases (err || leb pool.max_workers (length pool.sessions))) [
      | inl deleted ↦ rw deleted (record {
        limit = v.limit;
        bounded = v.bounded;
        once = λ n. ground (arith, v.once n, lent n, rest n);
        created = λ n h. ground (arith, v.created n h, lent n, rest n);
      })
      | inr kept ↦ rw kept (record {
        limit = v.limit;
        bounded = ground (arith, v.bounded, v.limit, kept);
        once = λ n. ground (arith, v.once n, lent n, rest n);
        created = λ n h. ground (arith, v.created n h, lent n, rest n);
      })
    ]

-- However sessions are taken and given back, with errors or without and at whatever times, the pool
-- holds at most `max_workers` sessions, and no session is at once in the pool twice, lent twice, or in
-- the pool and lent.
pub Reached-IsPooled :
    (max_workers : ℕ) (pool : HttpPool) (lent : List HttpSession)
    → Reached max_workers pool lent
    → IsPooled max_workers pool lent
unfolding get_http_session
Reached-IsPooled max_workers _ _ start = record {
  limit = refl;
  bounded = omega arith;
  once = λ n. omega arith;
  created = λ n h. omega arith;
}
Reached-IsPooled max_workers _ _ (take clock pool lent reached) =
    pop_session-IsPooled max_workers clock 0 pool pool.sessions lent
      (Reached-IsPooled max_workers pool lent reached)
Reached-IsPooled max_workers _ _ (give now session err pool before after reached) =
    return_http_session-IsPooled max_workers now session err pool before after
      (Reached-IsPooled max_workers pool _ reached)

pop_session-lends :
    (clock : ℕ → ℕ) (k : ℕ) (pool : HttpPool) (sessions : List HttpSession)
    → let popped = pop_session clock k pool sessions in
      ((m : ℕ) × (clock m ≤ popped.0.time_returned + max_session_age)
        × (popped.1.sessions_created ≡ pool.sessions_created))
      ⊎ ((popped.0.number ≡ suc pool.sessions_created)
          × (popped.1.sessions ≡ [])
          × All (λ s. (m : ℕ) × (s.time_returned + max_session_age < clock m)) sessions)
unfolding pop_session create_new_session
pop_session-lends clock k pool [] = inr (refl, refl, tt)
pop_session-lends clock k pool (session ∷ sessions) =
    elim (Bool-cases (ltb (session.time_returned + max_session_age) (clock k))) [
      | inl old ↦ rw old (elim (pop_session-lends clock (suc k) pool sessions) [
        | inl lent ↦ inl lent
        | inr (new, empty, all_old) ↦ inr (new, empty, ((k, ltb→lt _ _ old), all_old))
      ])
      | inr young ↦ rw young (inl (k, ground (arith, young), refl))
    ]

-- A session that is handed out is at most `max_session_age` past its last return at some reading of
-- the clock, or it is new; it is new only where each session of the pool was found older than that,
-- and the pool is empty then.
pub get_http_session-lends :
    (clock : ℕ → ℕ) (pool : HttpPool)
    → let taken = get_http_session clock pool in
      ((m : ℕ) × (clock m ≤ taken.0.time_returned + max_session_age)
        × (taken.1.sessions_created ≡ pool.sessions_created))
      ⊎ ((taken.0.number ≡ suc pool.sessions_created)
          × (taken.1.sessions ≡ [])
          × All (λ s. (m : ℕ) × (s.time_returned + max_session_age < clock m)) pool.sessions)
unfolding get_http_session
get_http_session-lends clock pool = pop_session-lends clock 0 pool pool.sessions
