-- ===== src/Outputs/Recency.antt =====
-- How old the last snap of an order stream can be.
use flumine.Prelude.{
  ℕ, ◌+◌, ◌≤◌, ◌≡◌, refl, Bool, true, false, ◌||◌, Option, none, some, List, [], ◌∷◌, ◌++◌, arith,
  All, sym, ◌∙◌, if◌then◌else◌,
}
use mathlib.Core.List.{append_assoc, append-nil}
use flumine.Outputs.{Round, Output, snap_delta, stamp, put_books, order_round, order_rounds}

-- The second reading of the clock in a round is not before the first.
abbrev pub Ordered : Round → Type 0
Ordered r = r.checked ≤ r.stamped

-- The reading at which the last of the rounds was checked.
abbrev pub last_checked : ℕ → List Round → ℕ
last_checked time [] = time
last_checked time (r ∷ rounds) = last_checked r.checked rounds

abbrev IsRecent : ℕ → Output → Type 0
IsRecent time output = time ≤ output.last_snap + snap_delta

order_round-IsRecent :
    (r : Round) (output : Output)
    → r.checked ≤ r.stamped
    → IsRecent r.checked (order_round r output)
unfolding order_round
order_round-IsRecent r output h = ground arith

-- What the rounds put: the books that arrived, and on a timeout the snap, which only a round without
-- live orders may leave out; empty books are no event.
pub data Delivers : List Round → List (List ℕ) → Type 0 where
  ended : Delivers [] []
  arrival :
      (r : Round) (books : List ℕ) (rounds : List Round) (events : List (List ℕ))
      → r.arrived ≡ some books
      → Delivers rounds events
      → Delivers (r ∷ rounds) (put_books books [] ++ events)
  snapped :
      (r : Round) (rounds : List Round) (events : List (List ℕ))
      → r.arrived ≡ none
      → Delivers rounds events
      → Delivers (r ∷ rounds) (put_books r.snap [] ++ events)
  skipped :
      (r : Round) (rounds : List Round) (events : List (List ℕ))
      → r.arrived ≡ none
      → r.live_orders ≡ false
      → Delivers rounds events
      → Delivers (r ∷ rounds) events

-- The state after some rounds: how recent the last snap is, and what was put.
pub record IsWatched (output : Output) (rounds : List Round) (time : ℕ) (result : Output)
    : Type 0 where
  pub events : List (List ℕ)
  pub put : result.events ≡ output.events ++ events
  pub delivers : Delivers rounds events
  pub recent : time ≤ result.last_snap + snap_delta

put_books-append :
    (books : List ℕ) (events rest : List (List ℕ))
    → put_books books events ++ rest ≡ events ++ (put_books books [] ++ rest)
put_books-append [] events rest = refl
put_books-append (book ∷ books) events rest = append_assoc events ((book ∷ books) ∷ []) rest

module _ (r : Round) (rounds : List Round) (output : Output) (time : ℕ) (result : Output) where
  stamped-IsWatched :
      (books : List ℕ)
      → ((events : List (List ℕ))
          → Delivers rounds events
          → Delivers (r ∷ rounds) (put_books books [] ++ events))
      → IsWatched (stamp books r.stamped output) rounds time result
      → IsWatched output (r ∷ rounds) time result
  stamped-IsWatched books delivers v = record {
    events = put_books books [] ++ v.events;
    put = v.put ∙ put_books-append books output.events v.events;
    delivers = delivers v.events v.delivers;
    recent = v.recent;
  }

  -- One more round, before those whose outcome is known.
  round-IsWatched :
      (arrived : Option (List ℕ)) (live late : Bool)
      → r.arrived ≡ arrived
      → r.live_orders ≡ live
      → IsWatched
          (elim arrived [
            | some books ↦ stamp books r.stamped output
            | none ↦ if live || late then stamp r.snap r.stamped output else output
          ])
          rounds
          time
          result
      → IsWatched output (r ∷ rounds) time result
  round-IsWatched (some books) live late e h v =
      stamped-IsWatched books (λ events. arrival r books rounds events e) v
  round-IsWatched none true late e h v =
      stamped-IsWatched r.snap (λ events. snapped r rounds events e) v
  round-IsWatched none false true e h v =
      stamped-IsWatched r.snap (λ events. snapped r rounds events e) v
  round-IsWatched none false false e h v = record {
    events = v.events;
    put = v.put;
    delivers = skipped r rounds v.events e h v.delivers;
    recent = v.recent;
  }

  order_round-IsWatched :
      IsWatched (order_round r output) rounds time result
      → IsWatched output (r ∷ rounds) time result
  unfolding order_round
  order_round-IsWatched v = round-IsWatched r.arrived r.live_orders _ refl refl v

-- However the rounds of an order stream go, the second reading of the clock in a round being no
-- earlier than the first, all books that arrive are put, and so is the snap of each timeout with live
-- orders, in order, where they are not empty; and when the last round checked the clock, the last snap
-- was at most `snap_delta` old, even where nothing arrived.
pub order_rounds-IsWatched :
    (r : Round) (rounds : List Round) (output : Output)
    → All Ordered (r ∷ rounds)
    → IsWatched output
        (r ∷ rounds)
        (last_checked r.checked rounds)
        (order_rounds (r ∷ rounds) output)
unfolding order_rounds
order_rounds-IsWatched r [] output (h, rest) =
    order_round-IsWatched r [] output r.checked (order_round r output) (record {
      events = [];
      put = sym (append-nil (order_round r output).events);
      delivers = ended;
      recent = order_round-IsRecent r output h;
    })
order_rounds-IsWatched r (r' ∷ rounds) output (h, rest) =
    order_round-IsWatched r (r' ∷ rounds) output (last_checked r'.checked rounds)
      (order_rounds (r' ∷ rounds) (order_round r output))
      (order_rounds-IsWatched r' rounds (order_round r output) rest)
