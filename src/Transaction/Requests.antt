-- ===== src/Transaction/Requests.antt =====
-- What the requests of a transaction do.
use flumine.Prelude.{
  ℕ, ◌≡◌, refl, sym, subst, ◌∙◌, ap, Bool, true, false, Option, none, some, ◌⊎◌, List, [], ◌∷◌,
  ◌++◌, arith, contains, inl, inr, Option-cases,
}
use mathlib.Core.Bool.{true≢false}
use flumine.Prelude.Dict.{lookup-insert}
use flumine.Order.{
  Order, OrderStatus, ViolationMsg, control_error, set_status, status_complete, clear_update_data,
}
use flumine.Strategy.{context_place}
use flumine.Strategy.Context.{contains-append_new}
use flumine.Trade.{
  World, violate, set_order, modify_order, order_update_status, placing, trade_key,
  get_runner_context, set_context,
}
use flumine.Trade.Completion.{live_in_context, order_update_status-keeps}
use flumine.Requests.{place_request}
use flumine.Blotter.{Blotter, has_order, set_item}
use flumine.Controls.{place, ControlError}
use flumine.Transaction.{
  Desk, Control, Transaction, Result, returned, already_placed, update_error, with_world, on_error,
  control_of, validate_controls, place_trade, place_valid, place_order,
}

violate-status :
    (msg : ViolationMsg) (o : ℕ) (w : World)
    → ((violate msg o w).orders o).status ≡ some OrderStatus.violation
unfolding violate order_update_status set_order set_status clear_update_data
violate-status msg o w = ground arith

-- The tests of the controls, in order, on an order that is to be placed: all pass up to one that
-- fails, whose `_on_error` leaves the desk as it is then; those after it are not made.
pub data RefusedBy (b : Blotter) (o : ℕ) : List Control → Desk → Desk → Type 0 where
  fails :
      {validate : Control} {validates : List Control} {d : Desk} (error : ControlError)
      → (validate b place o d).0 ≡ some error
      → RefusedBy b o (validate ∷ validates) d (on_error o error (validate b place o d).1).1
  passes :
      {validate : Control} {validates : List Control} {d d' : Desk}
      → (validate b place o d).0 ≡ none
      → RefusedBy b o validates (validate b place o d).1 d'
      → RefusedBy b o (validate ∷ validates) d d'

-- The framework's and the client's controls, from their tests.
abbrev pub controls_of : List Control → List Control
controls_of [] = []
controls_of (validate ∷ validates) = control_of validate ∷ controls_of validates

RefusedBy-status :
    (b : Blotter) (o : ℕ) (validates : List Control) (d d' : Desk)
    → RefusedBy b o validates d d'
    → (d'.world.orders o).status ≡ some OrderStatus.violation
unfolding on_error
RefusedBy-status b o _ d _ (fails {validate} error h) =
    violate-status control_error o (validate b place o d).1.world
RefusedBy-status b o _ d d' (passes h rest) = RefusedBy-status b o _ _ d' rest

control_of-passes :
    (validate : Control) (b : Blotter) (o : ℕ) (d : Desk)
    → (validate b place o d).0 ≡ none
    → control_of validate b place o d ≡ (none, (validate b place o d).1)
unfolding control_of
control_of-passes validate b o d h = rw (control_of, h) refl

control_of-fails :
    (validate : Control) (b : Blotter) (o : ℕ) (d : Desk) (error : ControlError)
    → (validate b place o d).0 ≡ some error
    → control_of validate b place o d ≡ on_error o error (validate b place o d).1
unfolding control_of
control_of-fails validate b o d error h = rw (control_of, h) refl

-- The answer of the controls, from what the first of them does.
validate_controls-cons :
    (control : Control) (controls : List Control) (b : Blotter) (o : ℕ) (d : Desk)
    (called : Option ControlError × Desk)
    → control b place o d ≡ called
    → validate_controls (control ∷ controls) b place o d ≡ elim called.0 [
      | none ↦ validate_controls controls b place o called.1
      | some e ↦ (false, called.1)
    ]
unfolding validate_controls
validate_controls-cons control controls b o d called h =
    ap
      (λ (r : Option ControlError × Desk). elim r.0 [
        | none ↦ validate_controls controls b place o r.1
        | some e ↦ (false, r.1)
      ])
      h

validate_controls-cases :
    (b : Blotter) (o : ℕ) (validates : List Control) (d : Desk)
    → ((d' : Desk) × (validate_controls (controls_of validates) b place o d ≡ (true, d')))
      ⊎ ((d' : Desk) × (validate_controls (controls_of validates) b place o d ≡ (false, d'))
          × RefusedBy b o validates d d')
unfolding validate_controls on_error
validate_controls-cases b o [] d = inl (d, refl)
validate_controls-cases b o (validate ∷ validates) d =
    elim (Option-cases (validate b place o d).0) [
      | inl pass ↦ elim (validate_controls-cases b o validates (validate b place o d).1) [
        | inl (d', all_pass) ↦ inl (d', first_passes pass ∙ all_pass)
        | inr (d', refused, by_) ↦ inr (d', first_passes pass ∙ refused, passes pass by_)
      ]
      | inr (error, fail) ↦ inr (
        _,
        validate_controls-cons (control_of validate) (controls_of validates) b o d _
            (control_of-fails validate b o d error fail),
        fails error fail,
      )
    ]
  where
    first_passes :
        (validate b place o d).0 ≡ none
        → validate_controls (controls_of (validate ∷ validates)) b place o d
          ≡ validate_controls (controls_of validates) b place o (validate b place o d).1
    first_passes pass =
        validate_controls-cons (control_of validate) (controls_of validates) b o d _
          (control_of-passes validate b o d pass)

abbrev answer_of : Result → Bool
answer_of (returned b t) = b
answer_of _ = true

abbrev left_by : Result → Transaction
left_by (returned b t) = t
left_by (already_placed t) = t
left_by (update_error e t) = t

place_valid-answers :
    (o : ℕ) (market_version : Option ℕ) (t : Transaction)
    → answer_of (place_valid o market_version true t) ≡ true
unfolding place_valid
place_valid-answers o market_version t = ground arith

-- A placing that answers false was refused by a control: the tests before that control's passed and
-- its own failed, the order is in VIOLATION, and what else the transaction holds, its blotter and
-- its four lists, is as before.
pub place_order-RefusedBy :
    (validates : List Control) (o : ℕ) (market_version : Option ℕ) (t t' : Transaction)
    → place_order (controls_of validates) o market_version true t ≡ returned false t'
    → RefusedBy t.blotter o validates t.desk t'.desk
      × (t' ≡ record t { desk = t'.desk })
      × ((t'.desk.world.orders o).status ≡ some OrderStatus.violation)
unfolding place_order
place_order-RefusedBy validates o market_version t t' h =
    elim (validate_controls-cases t.blotter o validates t.desk) [
      | inl (d, valid) ↦ absurd (
          true≢false (
            sym (place_valid-answers o market_version (record t { desk = d }))
            ∙ ap answer_of (rw (place_order, valid) at h)))
      | inr (d, refused, by_) ↦
          subst
            (λ (u : Transaction).
              RefusedBy t.blotter o validates t.desk u.desk
              × (u ≡ record t { desk = u.desk })
              × ((u.desk.world.orders o).status ≡ some OrderStatus.violation))
            (ap left_by (rw (place_order, refused) at h))
            (by_, refl, RefusedBy-status t.blotter o validates t.desk d by_)
    ]

place_request-eq :
    (time o : ℕ) (w : World)
    → contains o (w.trades (w.orders o).trade).orders ≡ true
    → place_request time o w
      ≡ set_order o
          (set_status OrderStatus.pending (record (w.orders o) { publish_time = some time }))
          (modify_order o (λ order. record order { publish_time = some time }) w)
unfolding place_request placing
place_request-eq time o w member =
    order_update_status-keeps o
      (modify_order o (λ order. record order { publish_time = some time }) w) OrderStatus.pending
      (unfold status_complete in refl) (unfold set_order in ground arith)
    ∙ unfold set_order in
      ap
        (λ order.
          set_order o (set_status OrderStatus.pending order)
            (modify_order o (λ order. record order { publish_time = some time }) w))
        (ground arith)

-- A placed order: it waits as the last of the list for placing, the blotter has it, it is PENDING
-- and its trade is live in the runner context.
pub record IsPlaced (o : ℕ) (market_version : Option ℕ) (t t' : Transaction) : Type 0 where
  pub waits : t'.pending_place ≡ t.pending_place ++ (o, market_version) ∷ []
  pub noted : t'.pending_orders ≡ true
  pub stored : has_order o t'.blotter ≡ true
  pub status_eq : (t'.desk.world.orders o).status ≡ some OrderStatus.pending
  pub counted :
      contains
        (t'.desk.world.orders o).trade
        (live_in_context t'.desk.world (t'.desk.world.orders o).trade)
      ≡ true

pub has_order-set_item :
    (o : ℕ) (order : Order) (b : Blotter) → has_order o (set_item o order b) ≡ true
unfolding set_item
has_order-set_item o order b = ground (arith, lookup-insert o o o b.orders)

pub place_trade-counts :
    (o : ℕ) (w : World)
    → contains
        ((place_trade o w).orders o).trade
        (live_in_context (place_trade o w) ((place_trade o w).orders o).trade)
      ≡ true
unfolding place_trade set_context get_runner_context context_place
place_trade-counts o w = ground (
  arith,
  contains-append_new (w.orders o).trade (w.orders o).trade
      (get_runner_context (trade_key (w.trades (w.orders o).trade)) w).live_trades,
)

pub placed_status : (o : ℕ) (w : World) → ((place_trade o w).orders o).status ≡ (w.orders o).status
unfolding place_trade set_context
placed_status o w = refl

requested_status :
    (time o : ℕ) (w : World)
    → contains o (w.trades (w.orders o).trade).orders ≡ true
    → ((place_request time o w).orders o).status ≡ some OrderStatus.pending
requested_status time o w member =
    ap (λ w'. (w'.orders o).status) (place_request-eq time o w member)
    ∙ unfold set_order set_status in ground arith

abbrev placing_desk : ℕ → Transaction → Desk → Desk
placing_desk o t d = with_world (place_request t.publish_time o) d

abbrev placed : ℕ → Option ℕ → Transaction → Desk → Transaction
placed o market_version t d = record t {
  desk = with_world (place_trade o) (placing_desk o t d);
  blotter = set_item o ((placing_desk o t d).world.orders o) t.blotter;
  pending_place = t.pending_place ++ (o, market_version) ∷ [];
  pending_orders = true;
}

-- An order that its trade lists, that passes the controls and that the blotter does not have yet is
-- placed: the answer is true, the order waits as the last for placing, is in the blotter and
-- PENDING, and its trade is live in the runner context.
pub place_order-IsPlaced :
    (controls : List Control) (o : ℕ) (market_version : Option ℕ) (t : Transaction) (d : Desk)
    → validate_controls controls t.blotter place o t.desk ≡ (true, d)
    → has_order o t.blotter ≡ false
    → contains o (d.world.trades (d.world.orders o).trade).orders ≡ true
    → (t' : Transaction) × (place_order controls o market_version true t ≡ returned true t')
      × IsPlaced o market_version t t'
unfolding place_order place_valid
place_order-IsPlaced controls o market_version t d valid fresh member = (
  placed o market_version t d,
  rw (valid, fresh),
  record {
    waits = refl;
    noted = refl;
    stored = has_order-set_item o _ t.blotter;
    status_eq =
        placed_status o (place_request t.publish_time o d.world)
        ∙ requested_status t.publish_time o d.world member;
    counted = place_trade-counts o (place_request t.publish_time o d.world);
  },
)

-- An order that is in the blotter already, and that passes the controls, is not placed again: an
-- error is raised and the blotter and the four lists are as before. The order has become PENDING.
place_order_again :
    (controls : List Control) (o : ℕ) (market_version : Option ℕ) (t : Transaction) (d : Desk)
    → validate_controls controls t.blotter place o t.desk ≡ (true, d)
    → has_order o t.blotter ≡ true
    → contains o (d.world.trades (d.world.orders o).trade).orders ≡ true
    → (d' : Desk) × (place_order controls o market_version true t
        ≡ already_placed (record t { desk = d' }))
      × ((d'.world.orders o).status ≡ some OrderStatus.pending)
unfolding place_order place_valid
place_order_again controls o market_version t d valid stored member =
    (placing_desk o t d, rw (valid, stored), requested_status t.publish_time o d.world member)
