-- ===== src/PaperTrading/Syncing.antt =====
-- A poll brings the orders to the status of the simulation.
use flumine.Prelude.{
  ℕ, ◌≡◌, refl, sym, ap, ◌∙◌, subst, Bool, true, false, some, List, [], ◌∷◌, ◌++◌, ◌==◌, contains,
  contains-append, keep, ==_iff, if◌then◌else◌, Bool-cases, inl, inr,
}
use mathlib.Core.Bool.{true≢false}
use mathlib.Core.Option.{some-injective, none-ne-some}
use flumine.Prelude.Dict.{lookup}
use flumine.Blotter.{iter}
use flumine.Markets.{Market, Markets, live_orders}
use flumine.Trade.{World}
use flumine.Requests.{process_status}
use flumine.Process.{Floor, simulated_status}
use flumine.PaperTrading.{is_polled, get_current_orders, process_polled, poll_orders}
use flumine.PaperTrading.Reports.{
  IsSynced, is_open, process_status-IsSynced, process_status-other, process_status-step,
}

process_polled-keeps :
    (o : ℕ) (os : List ℕ) (w : World)
    → IsSynced (w.orders o)
    → IsSynced ((process_polled os w).orders o)
unfolding process_polled
process_polled-keeps o [] w s = s
process_polled-keeps o (p ∷ os) w s =
    process_polled-keeps o os (process_status (simulated_status (w.orders p)) p w)
      (process_status-step o p w s)

process_polled-IsSynced :
    (o : ℕ) (os : List ℕ) (w : World)
    → contains o os ≡ true
    → is_open (w.orders o) ≡ true
    → IsSynced ((process_polled os w).orders o)
unfolding process_polled
process_polled-IsSynced o [] w member open_ = absurd (true≢false (sym member))
process_polled-IsSynced o (p ∷ os) w member open_ = elim (Bool-cases (o == p)) [
  | inl same ↦ process_polled-keeps o os (process_status (simulated_status (w.orders p)) p w) (
      subst (λ q. IsSynced ((process_status (simulated_status (w.orders q)) q w).orders o))
        ((==_iff o p).0 same) (process_status-IsSynced o w open_))
  | inr other ↦
      process_polled-IsSynced o os (process_status (simulated_status (w.orders p)) p w)
        (rw other at member)
        (subst (λ x. is_open x ≡ true)
          (sym (process_status-other o p other (simulated_status (w.orders p)) w)) open_)
]

contains-keep :
    (o : ℕ) (p : ℕ → Bool) (os : List ℕ)
    → contains o os ≡ true
    → p o ≡ true
    → contains o (keep p os) ≡ true
contains-keep o p [] member kept = absurd (true≢false (sym member))
contains-keep o p (q ∷ os) member kept = elim (Bool-cases (o == q)) [
  | inl same ↦ rw (subst (λ r. p r ≡ true) ((==_iff o q).0 same) kept, same) refl
  | inr other ↦
      (let rest = contains-keep o p os (rw other at member) kept in
        elim (Bool-cases (p q)) [ inl k ↦ rw (k, other) rest | inr d ↦ rw d rest ])
]

-- A market's own orders, unless it is closed, and those of the other markets.
contains_own :
    (o : ℕ) (closed : Bool) (own rest : List ℕ)
    → closed ≡ false
    → contains o own ≡ true
    → contains o (if closed then rest else own ++ rest) ≡ true
contains_own o true own rest shut member = absurd (true≢false shut)
contains_own o false own rest shut member = contains-append o own rest ∙ rw member refl

contains_rest :
    (o : ℕ) (closed : Bool) (own rest : List ℕ)
    → contains o rest ≡ true
    → contains o (if closed then rest else own ++ rest) ≡ true
contains_rest o true own rest member = member
contains_rest o false own rest member =
    contains-append o own rest
    ∙ (elim (Bool-cases (contains o own)) [ inl y ↦ rw y refl | inr n ↦ rw n member ])

contains-get_current_orders :
    (client_of : ℕ → ℕ) (client o key : ℕ) (market : Market) (w : World) (ms : Markets)
    → lookup key ms ≡ some market
    → market.closed ≡ false
    → contains o (iter market.blotter) ≡ true
    → is_polled client_of client (w.orders o) ≡ true
    → contains o (get_current_orders client_of client w ms) ≡ true
unfolding get_current_orders
contains-get_current_orders client_of client o key market w [] known shut member polled =
    absurd (none-ne-some market known)
contains-get_current_orders client_of client o key market w (item ∷ ms) known shut member polled =
    elim (Bool-cases (key == item.0)) [
      | inl same ↦
          (let e : item.1 ≡ market = some-injective item.1 market (rw same at known) in
            contains_own o item.1.closed _ _ (ap (λ m. m.closed) e ∙ shut) (
              contains-keep o (λ p. is_polled client_of client (w.orders p)) (iter item.1.blotter)
                (subst (λ m. contains o (iter m.blotter) ≡ true) (sym e) member) polled))
      | inr other ↦
          (let rest =
              contains-get_current_orders client_of client o key market w ms (rw other at known)
                shut member polled in
            contains_rest o item.1.closed _ _ rest)
    ]

-- Where some open market has live orders, a poll for a client brings each simulated order of the
-- client in an open market that is EXECUTABLE, or PENDING with a bet id, to the status of its
-- simulation: EXECUTION_COMPLETE where that is complete, else EXECUTABLE.
pub poll_orders-IsSynced :
    (client_of : ℕ → ℕ) (client o key : ℕ) (market : Market) (f : Floor)
    → live_orders f.markets ≡ true
    → lookup key f.markets ≡ some market
    → market.closed ≡ false
    → contains o (iter market.blotter) ≡ true
    → is_polled client_of client (f.world.orders o) ≡ true
    → is_open (f.world.orders o) ≡ true
    → IsSynced ((poll_orders client_of client f).world.orders o)
unfolding poll_orders
poll_orders-IsSynced client_of client o key market f live known shut member polled open_ = rw live (
    process_polled-IsSynced o (get_current_orders client_of client f.world f.markets) f.world
      (contains-get_current_orders client_of client o key market f.world f.markets known shut member
        polled)
      open_)
