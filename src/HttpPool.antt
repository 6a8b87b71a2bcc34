-- ===== src/HttpPool.antt =====
-- The pool of HTTP sessions of `BaseExecution`, execution/baseexecution.py: each call is one step, and
-- reads the clock, in milliseconds, as often as the code does.
pub mod Lending
use flumine.Prelude.{ℕ, suc, ◌+◌, Bool, ◌||◌, List, [], ◌∷◌, leb, ltb, length, if◌then◌else◌}

-- `MAX_SESSION_AGE`
abbrev pub max_session_age : ℕ
max_session_age = 200_000

-- `requests.Session`: its number, in the order of creation, stands for the object.
pub record HttpSession : Type 0 where
  pub number : ℕ
  pub time_created : ℕ
  pub time_returned : ℕ

-- `_sessions` from its end, where it is popped and appended to
pub record HttpPool : Type 0 where
  pub sessions : List HttpSession
  pub sessions_created : ℕ
  pub max_workers : ℕ

-- `BaseExecution.__init__`
abbrev pub new_pool : ℕ → HttpPool
new_pool max_workers = record { sessions = []; sessions_created = 0; max_workers = max_workers }

-- `_create_new_session`, with the two readings of the clock
unfoldable pub create_new_session : ℕ → ℕ → HttpPool → HttpSession × HttpPool
create_new_session created returned pool =
    let number = suc pool.sessions_created in
    (
      record { number = number; time_created = created; time_returned = returned },
      record pool { sessions_created = number },
    )

-- `_return_http_session`, at a time
unfoldable pub return_http_session : ℕ → HttpSession → Bool → HttpPool → HttpPool
return_http_session now http_session err pool =
    if err || leb pool.max_workers (length pool.sessions)
    then pool
    else record pool { sessions = record http_session { time_returned = now } ∷ pool.sessions }

-- The loop of `_get_http_session`: `clock k` is what the clock's reading `k` gives.
unfoldable pub pop_session : (ℕ → ℕ) → ℕ → HttpPool → List HttpSession → HttpSession × HttpPool
pop_session clock k pool [] =
    create_new_session (clock k) (clock (suc k)) (record pool { sessions = [] })
pop_session clock k pool (session ∷ sessions) =
    let next = pop_session clock (suc k) pool sessions in
    if ltb (session.time_returned + max_session_age) (clock k)
    then next
    else (session, record pool { sessions = sessions })

-- `_get_http_session`
unfoldable pub get_http_session : (ℕ → ℕ) → HttpPool → HttpSession × HttpPool
get_http_session clock pool = pop_session clock 0 pool pool.sessions
