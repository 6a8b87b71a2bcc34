-- ===== src/PaperTrading/Reports.antt =====
-- What a report of a simulated order does to its status.
use flumine.Prelude.{
  ℕ, ◌≡◌, refl, sym, ap, ap₂, ◌∙◌, subst, Bool, true, false, ◌&&◌, ◌||◌, Option, some, ◌==◌, arith,
  ==_iff, if◌then◌else◌, Bool-cases, inl, inr,
}
use mathlib.Core.Bool.{true≢false}
use flumine.Order.{
  Order, OrderStatus, ExchangeStatus, simulated_complete, set_status, clear_update_data,
}
use flumine.Trade.{
  World, set_order, modify_order, stamp_complete, order_update_status, executable,
  execution_complete,
}
use flumine.Requests.{
  process_status, has_bet_id, is_pending, is_executable, stream_executable, stream_complete,
}
use flumine.Requests.Statuses.{order_update_status-orders}
use flumine.Process.{simulated_status}

-- The status that the simulation stands for.
abbrev pub synced : Order → OrderStatus
synced order =
    if simulated_complete order.order_type order.simulated
    then OrderStatus.execution_complete
    else OrderStatus.executable

abbrev pub IsSynced : Order → Type 0
IsSynced order = order.status ≡ some (synced order)

-- An order that a report may change: EXECUTABLE, or PENDING with a bet id.
abbrev pub is_open : Order → Bool
is_open order = (has_bet_id order.bet_id && is_pending order.status) || is_executable order.status

module _ (o p : ℕ) (other : (o == p) ≡ false) where
  order_update_status-other :
      (status : OrderStatus) (w : World) → (order_update_status p status w).orders o ≡ w.orders o
  unfolding set_order
  order_update_status-other status w =
      ap (λ orders. orders o) (order_update_status-orders p status w) ∙ rw other refl

  modify_order-other : (f : Order → Order) (w : World) → (modify_order p f w).orders o ≡ w.orders o
  unfolding set_order
  modify_order-other f w = rw other refl

  executable-other : (w : World) → (executable p w).orders o ≡ w.orders o
  unfolding executable
  executable-other w =
      modify_order-other clear_update_data _ ∙ order_update_status-other OrderStatus.executable w

  execution_complete-other : (w : World) → (execution_complete p w).orders o ≡ w.orders o
  unfolding execution_complete
  execution_complete-other w =
      modify_order-other (λ order. clear_update_data (stamp_complete w.clock order)) _
      ∙ order_update_status-other OrderStatus.execution_complete w

  if-other :
      (b : Bool) (w w' : World) (x : Order)
      → w.orders o ≡ x
      → w'.orders o ≡ x
      → (if b then w else w').orders o ≡ x
  if-other true w w' x e e' = e
  if-other false w w' x e e' = e'

  pub process_status-other :
      (status : ExchangeStatus) (w : World) → (process_status status p w).orders o ≡ w.orders o
  unfolding process_status
  process_status-other status w =
      let x = w.orders o in
      let closing =
        if-other (stream_complete status) (execution_complete p w) w x (execution_complete-other w)
          refl in
      if-other (has_bet_id (w.orders p).bet_id && is_pending (w.orders p).status) _ _ x
        (if-other (stream_executable status) (executable p w) _ x (executable-other w) closing)
        (if-other (is_executable (w.orders p).status) _ w x closing refl)

-- What `process_status` comes down to, with the simulation's status in place of the report's: `a` and
-- `b` are the two tests of the order's status, `c` whether the simulation is complete.
abbrev choose : Bool → Bool → Bool → World → World → World → World
choose a b c done resting w =
    let status = if c then ExchangeStatus.execution_complete else ExchangeStatus.executable in
    if a
    then (if stream_executable status then resting else if stream_complete status then done else w)
    else if b
    then if stream_complete status then done else w
    else w

choose-open :
    (P : World → Type 0) (a b c : Bool) (done resting w : World)
    → (a || b) ≡ true
    → (c ≡ true → P done)
    → (c ≡ false → P resting)
    → (c ≡ false → b ≡ true → P w)
    → P (choose a b c done resting w)
choose-open P true b true done resting w h d r k = d refl
choose-open P true b false done resting w h d r k = r refl
choose-open P false true true done resting w h d r k = d refl
choose-open P false true false done resting w h d r k = k refl refl
choose-open P false false c done resting w h d r k = absurd (true≢false (sym h))

choose-synced :
    (placed c : Bool) (status : Option OrderStatus) (done resting w : World)
    → status ≡ some (if c then OrderStatus.execution_complete else OrderStatus.executable)
    → choose (placed && is_pending status) (is_executable status) c done resting w ≡ w
choose-synced true true status done resting w e = rw e refl
choose-synced true false status done resting w e = rw e refl
choose-synced false true status done resting w e = rw e refl
choose-synced false false status done resting w e = rw e refl

executable-eq :
    (status : Option OrderStatus)
    → is_executable status ≡ true
    → status ≡ some OrderStatus.executable
executable-eq status h = ground arith

-- What an order becomes with a new status, up to what a report does not touch.
abbrev Becomes : Order → OrderStatus → Order → Type 0
Becomes order status order' =
    (order'.status ≡ some status)
    × (order'.order_type ≡ order.order_type)
    × (order'.simulated ≡ order.simulated)

module _ (o : ℕ) (w : World) where
  updated :
      (status : OrderStatus)
      → (order_update_status o status w).orders o ≡ set_status status (w.orders o)
  unfolding set_order
  updated status = ap (λ orders. orders o) (order_update_status-orders o status w) ∙ ground arith

  executable-Becomes : Becomes (w.orders o) OrderStatus.executable ((executable o w).orders o)
  unfolding executable set_order set_status clear_update_data
  executable-Becomes =
      let u = updated OrderStatus.executable in
      (
        ground (arith, ap (λ x. x.status) u),
        ground (arith, ap (λ x. x.order_type) u),
        ground (arith, ap (λ x. x.simulated) u),
      )

  execution_complete-Becomes :
      Becomes (w.orders o) OrderStatus.execution_complete ((execution_complete o w).orders o)
  unfolding execution_complete set_order set_status clear_update_data
  execution_complete-Becomes =
      let u = updated OrderStatus.execution_complete in
      (
        ground (arith, ap (λ x. x.status) u),
        ground (arith, ap (λ x. x.order_type) u),
        ground (arith, ap (λ x. x.simulated) u),
      )

Becomes-IsSynced :
    (c : Bool) (status : OrderStatus) (order order' : Order)
    → simulated_complete order.order_type order.simulated ≡ c
    → status ≡ (if c then OrderStatus.execution_complete else OrderStatus.executable)
    → Becomes order status order'
    → IsSynced order'
Becomes-IsSynced c status order order' e es (s, t, m) =
    s
    ∙ ap some (
        es
        ∙ sym (
            ap (λ b. if b then OrderStatus.execution_complete else OrderStatus.executable)
              (ap₂ simulated_complete t m ∙ e)))

-- The order whose report is processed.
pub process_status-IsSynced :
    (o : ℕ) (w : World)
    → is_open (w.orders o) ≡ true
    → IsSynced ((process_status (simulated_status (w.orders o)) o w).orders o)
unfolding process_status
process_status-IsSynced o w open_ =
    let order = w.orders o in
    let c = simulated_complete order.order_type order.simulated in
    choose-open (λ w'. IsSynced (w'.orders o)) (has_bet_id order.bet_id && is_pending order.status)
      (is_executable order.status) c (execution_complete o w) (executable o w) w open_
      (λ done.
        Becomes-IsSynced true OrderStatus.execution_complete order
          ((execution_complete o w).orders o) done refl (execution_complete-Becomes o w))
      (λ rests.
        Becomes-IsSynced false OrderStatus.executable order ((executable o w).orders o) rests refl
          (executable-Becomes o w))
      (λ rests e.
        Becomes-IsSynced false OrderStatus.executable order order rests refl
          (executable-eq order.status e, refl, refl))

-- A report of an order that has its status already changes nothing.
process_status-idle :
    (o : ℕ) (w : World)
    → IsSynced (w.orders o)
    → process_status (simulated_status (w.orders o)) o w ≡ w
unfolding process_status
process_status-idle o w synced_ =
    let order = w.orders o in
    choose-synced (has_bet_id order.bet_id) (simulated_complete order.order_type order.simulated)
      order.status (execution_complete o w) (executable o w) w synced_

-- One report, of the order or of another.
pub process_status-step :
    (o p : ℕ) (w : World)
    → IsSynced (w.orders o)
    → IsSynced ((process_status (simulated_status (w.orders p)) p w).orders o)
process_status-step o p w s = elim (Bool-cases (o == p)) [
  | inl same ↦
      subst (λ q. IsSynced ((process_status (simulated_status (w.orders q)) q w).orders o))
        ((==_iff o p).0 same)
        (subst (λ w'. IsSynced (w'.orders o)) (sym (process_status-idle o w s)) s)
  | inr other ↦
      subst IsSynced (sym (process_status-other o p other (simulated_status (w.orders p)) w)) s
]
