-- ===== src/Worker/Clearing.antt =====
-- The pages of the settled orders of a market.
use flumine.Prelude.{
  ℕ, zero, suc, ◌+◌, ◌≤◌, ◌<◌, ◌≡◌, refl, ap, sym, ◌∙◌, true, Option, none, some, List, [], ◌∷◌,
  ◌++◌, arith, ltb, length, take, drop, length-drop, take-append-drop, subst, ltb→lt, Bool-cases,
  Option-cases, inl, inr,
}
use flumine.Prelude.Dict.{lookup}
use flumine.Trade.{World}
use flumine.Blotter.{Blotter}
use flumine.Markets.{Market}
use flumine.Process.{Floor}
use flumine.Framework.{
  ClearedOrder, Event, cleared_orders, Framework, Hooks, on_floor, process_cleared,
  process_cleared_orders, process_event,
}
use flumine.Worker.{Exchange, Polled, before, get_cleared_orders}

-- The events put, where each is of settled orders of one market: their orders, page by page.
pub data IsPaged (market_id : ℕ) : List Event → List ClearedOrder → Type 0 where
  no_page : IsPaged market_id [] []
  next_page :
      (page : List ClearedOrder) (events : List Event) (orders : List ClearedOrder)
      → IsPaged market_id events orders
      → IsPaged market_id (cleared_orders market_id page ∷ events) (page ++ orders)

-- The exchange serves a list of settled orders from any record on, in pages of at most `limit`.
abbrev pub Serves : Exchange → ℕ → List ClearedOrder → ℕ → Type 0
Serves exchange market_id orders limit =
    (from_record : ℕ)
    → exchange.list_cleared_orders market_id from_record
      ≡ some (record {
        orders = take limit (drop from_record orders);
        more_available = ltb limit (length (drop from_record orders));
      })

pub record IsCleared (market_id : ℕ) (orders : List ClearedOrder) (result : Option Polled)
    : Type 0 where
  pub events : List Event
  pub finished : result ≡ some (record { done = true; events = events })
  pub paged : IsPaged market_id events orders

drop_nil : (n : ℕ) → drop {A = ClearedOrder} n [] ≡ []
drop_nil zero = refl
drop_nil (suc n) = refl

add_suc : (n k : ℕ) → suc (n + k) ≡ suc n + k
add_suc n k = omega arith

drop-drop : (n k : ℕ) (xs : List ClearedOrder) → drop k (drop n xs) ≡ drop (n + k) xs
drop-drop zero k xs = ap (λ m. drop m xs) (omega arith)
drop-drop (suc n) k [] = drop_nil k ∙ sym (drop_nil (suc n + k))
drop-drop (suc n) k (x ∷ xs) = drop-drop n k xs ∙ ap (λ m. drop m (x ∷ xs)) (add_suc n k)

drop-length-take : (n : ℕ) (xs : List ClearedOrder) → drop (length (take n xs)) xs ≡ drop n xs
drop-length-take zero xs = refl
drop-length-take (suc n) [] = refl
drop-length-take (suc n) (x ∷ xs) = drop-length-take n xs

-- The page that a call from a record on gives, and what the next call starts with.
next_drop :
    (n limit : ℕ) (orders : List ClearedOrder)
    → drop (n + length (take limit (drop n orders))) orders ≡ drop limit (drop n orders)
next_drop n limit orders =
    sym (drop-drop n (length (take limit (drop n orders))) orders)
    ∙ drop-length-take limit (drop n orders)

drop_short : (n : ℕ) (xs : List ClearedOrder) → length xs ≤ n → drop n xs ≡ []
drop_short zero [] h = refl
drop_short zero (x ∷ xs) h = absurd (omega (arith, h))
drop_short (suc n) [] h = refl
drop_short (suc n) (x ∷ xs) h = drop_short n xs (omega (arith, h))

before-IsCleared :
    (market_id limit : ℕ) (orders : List ClearedOrder) (rest : Option Polled)
    → IsCleared market_id (drop limit orders) rest
    → IsCleared market_id orders (before (cleared_orders market_id (take limit orders)) rest)
before-IsCleared market_id limit orders rest v = record {
  events = cleared_orders market_id (take limit orders) ∷ v.events;
  finished = rw v.finished refl;
  paged =
      subst (IsPaged market_id _) (take-append-drop limit orders)
        (next_page (take limit orders) v.events (drop limit orders) v.paged);
}

pub get_cleared_orders-from :
    (fuel : ℕ) (exchange : Exchange) (market_id : ℕ) (orders : List ClearedOrder)
    (limit from_record : ℕ)
    → Serves exchange market_id orders limit
    → 0 < limit
    → length (drop from_record orders) < fuel
    → IsCleared market_id
        (drop from_record orders)
        (get_cleared_orders fuel exchange market_id from_record)
unfolding get_cleared_orders
get_cleared_orders-from zero exchange market_id orders limit n serves positive enough =
    absurd (omega (arith, enough))
get_cleared_orders-from (suc fuel) exchange market_id orders limit n serves positive enough =
    let next = next_drop n limit orders in
    let rest =
      get_cleared_orders fuel exchange market_id (n + length (take limit (drop n orders))) in
    elim (Bool-cases (ltb limit (length (drop n orders)))) [
      | inl more ↦
          rw (get_cleared_orders, serves n, more)
            (before-IsCleared market_id limit (drop n orders) rest (
              subst (λ l. IsCleared market_id l rest) next
                (get_cleared_orders-from fuel exchange market_id orders limit
                  (n + length (take limit (drop n orders))) serves positive
                  (subst (λ l. length l < fuel) (sym next)
                    (omega (arith, length-drop limit (drop n orders), ltb→lt _ _ more, enough))))))
      | inr last ↦
          rw (get_cleared_orders, serves n, last)
            (before-IsCleared market_id limit (drop n orders)
              (some (record { done = true; events = [] }))
              (rw (drop_short limit (drop n orders) (ground (arith, last)))
                (record { events = []; finished = refl; paged = no_page })))
    ]

-- The framework handles the events one after the other.
abbrev pub handle_all : Hooks → List Event → Framework → Option Framework
handle_all hooks [] s = some s
handle_all hooks (event ∷ events) s = elim (process_event hooks event s) [
  | none ↦ none
  | some s' ↦ handle_all hooks events s'
]

process_cleared-append :
    (xs ys : List ClearedOrder) (b : Blotter) (w : World)
    → process_cleared (xs ++ ys) b w ≡ process_cleared ys b (process_cleared xs b w)
unfolding process_cleared
process_cleared-append [] ys b w = refl
process_cleared-append (x ∷ xs) ys b w = process_cleared-append xs ys b _

unlisted_kept :
    (market_id : ℕ) (orders : List ClearedOrder) (f : Floor)
    → lookup market_id f.markets ≡ none
    → process_cleared_orders market_id orders f ≡ f
unfolding process_cleared_orders
unlisted_kept market_id orders f unknown = rw (process_cleared_orders, unknown) refl

listed_cleared :
    (market_id : ℕ) (orders : List ClearedOrder) (f : Floor) (market : Market)
    → lookup market_id f.markets ≡ some market
    → process_cleared_orders market_id orders f
      ≡ record f { world = process_cleared orders market.blotter f.world }
unfolding process_cleared_orders
listed_cleared market_id orders f market known = rw (process_cleared_orders, known) refl

process_cleared_orders-append :
    (market_id : ℕ) (xs ys : List ClearedOrder) (f : Floor)
    → process_cleared_orders market_id ys (process_cleared_orders market_id xs f)
      ≡ process_cleared_orders market_id (xs ++ ys) f
process_cleared_orders-append market_id xs ys f = elim (Option-cases (lookup market_id f.markets)) [
  | inl unknown ↦
      ap (process_cleared_orders market_id ys) (unlisted_kept market_id xs f unknown)
      ∙ unlisted_kept market_id ys f unknown
      ∙ sym (unlisted_kept market_id (xs ++ ys) f unknown)
  | inr (market, known) ↦
      ap (process_cleared_orders market_id ys) (listed_cleared market_id xs f market known)
      ∙ listed_cleared market_id ys _ market known
      ∙ ap (λ w. record f { world = w }) (sym (process_cleared-append xs ys market.blotter f.world))
      ∙ sym (listed_cleared market_id (xs ++ ys) f market known)
]

process_cleared_orders-none :
    (market_id : ℕ) (f : Floor) → process_cleared_orders market_id [] f ≡ f
unfolding process_cleared_orders process_cleared
process_cleared_orders-none market_id f = elim (Option-cases (lookup market_id f.markets)) [
  | inl unknown ↦ rw (process_cleared_orders, unknown) refl
  | inr (market, known) ↦ rw (process_cleared_orders, known) refl
]

IsPaged-handled :
    (hooks : Hooks) (market_id : ℕ) (events : List Event) (orders : List ClearedOrder)
    (s : Framework)
    → IsPaged market_id events orders
    → handle_all hooks events s ≡ some (on_floor (process_cleared_orders market_id orders) s)
unfolding process_event
IsPaged-handled hooks market_id _ _ s no_page =
    ap (λ f. some (record s { floor = f })) (sym (process_cleared_orders-none market_id s.floor))
IsPaged-handled hooks market_id _ _ s (next_page page events orders paged) =
    IsPaged-handled hooks market_id events orders
      (on_floor (process_cleared_orders market_id page) s) paged
    ∙ ap (λ f. some (record s { floor = f }))
        (process_cleared_orders-append market_id page orders s.floor)

-- Where the exchange serves the settled orders of a market in pages of a positive size, the paging
-- ends after at most one round more than there are orders, and reports success; and the events that it
-- puts, handled in turn, do to the framework what one event of all the orders would do.
pub get_cleared_orders-settles :
    (fuel : ℕ) (exchange : Exchange) (market_id : ℕ) (orders : List ClearedOrder) (limit : ℕ)
    → Serves exchange market_id orders limit
    → 0 < limit
    → length orders < fuel
    → (events : List Event) × (get_cleared_orders fuel exchange market_id 0
        ≡ some (record { done = true; events = events }))
      × ((hooks : Hooks) (s : Framework)
          → handle_all hooks events s ≡ process_event hooks (cleared_orders market_id orders) s)
unfolding process_event
get_cleared_orders-settles fuel exchange market_id orders limit serves positive enough =
    let cleared =
      get_cleared_orders-from fuel exchange market_id orders limit 0 serves positive enough in
    (
      cleared.events,
      cleared.finished,
      λ hooks s. IsPaged-handled hooks market_id cleared.events orders s cleared.paged,
    )
