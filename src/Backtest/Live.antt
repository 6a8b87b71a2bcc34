-- ===== src/Backtest/Live.antt =====
-- The live orders of a backtest's market.
use flumine.Prelude.{
  ℕ, ◌≡◌, refl, sym, ◌∙◌, subst, true, false, some, List, [], ◌∷◌, ◌==◌, arith, contains, remove,
  ==_iff, Distinct, contains-remove_self, contains-remove_ne, contains-remove_of_absent,
  remove-Distinct, Bool-cases, inl, inr,
}
use mathlib.Core.Bool.{true≢false}
use flumine.Order.{set_status, clear_update_data}
use flumine.Trade.{
  World, complete_, set_order, set_trade, set_context, set_trade_status, finish_trade,
  complete_trade, order_update_status, execution_complete,
}
use flumine.Blotter.{Blotter, complete_order}
use flumine.Backtest.{complete_done, leave_live, process_live_orders, is_complete_status}

-- The trade of an order is COMPLETE.
abbrev pub Ended : ℕ → World → Type 0
Ended o w = (w.trades (w.orders o).trade).status ≡ complete_

complete_done-trade :
    (o p : ℕ) (w : World) → ((complete_done o w).orders p).trade ≡ (w.orders p).trade
unfolding execution_complete order_update_status set_order set_status clear_update_data
    complete_trade finish_trade set_trade_status set_trade set_context
complete_done-trade o p w = ground arith

complete_done-status :
    (o t : ℕ) (w : World)
    → (w.trades t).status ≡ complete_
    → ((complete_done o w).trades t).status ≡ complete_
unfolding execution_complete order_update_status set_order set_status clear_update_data
    complete_trade finish_trade set_trade_status set_trade set_context
complete_done-status o t w h = ground arith

complete_done-Ended : (o p : ℕ) (w : World) → Ended p w → Ended p (complete_done o w)
complete_done-Ended o p w h =
    subst (λ t. ((complete_done o w).trades t).status ≡ complete_) (sym (complete_done-trade o p w))
      (complete_done-status o _ w h)

-- What a pass over some live orders leaves of a world and a blotter.
pub record IsPass (os : List ℕ) (w : World) (b : Blotter) (w' : World) (b' : Blotter) : Type 0 where
  pub cleared : (o : ℕ) → contains o os ≡ true → Ended o w → contains o b'.live_orders ≡ false
  pub fewer : (o : ℕ) → contains o b.live_orders ≡ false → contains o b'.live_orders ≡ false
  pub gone :
      (o : ℕ) → contains o b.live_orders ≡ true → contains o b'.live_orders ≡ false → Ended o w'
  pub stays : (o : ℕ) → Ended o w → Ended o w'
  pub orders_eq : b'.orders ≡ b.orders

-- One order's step, with the store after its completion.
record IsStep (o : ℕ) (w : World) (b b' : Blotter) : Type 0 where
  left : Ended o w → contains o b'.live_orders ≡ false
  others : (p : ℕ) → (p == o) ≡ false → contains p b'.live_orders ≡ contains p b.live_orders
  less : (p : ℕ) → contains p b.live_orders ≡ false → contains p b'.live_orders ≡ false
  why : contains o b.live_orders ≡ true → contains o b'.live_orders ≡ false → Ended o w
  distinct : Distinct b'.live_orders
  orders_eq : b'.orders ≡ b.orders

leave_live-IsStep :
    (o : ℕ) (w : World) (b : Blotter)
    → Distinct b.live_orders
    → contains o b.live_orders ≡ true
    → (b' : Blotter) × (leave_live o w b ≡ some b') × IsStep o w b b'
unfolding complete_order
leave_live-IsStep o w b d listed =
    elim (Bool-cases (is_complete_status (w.trades (w.orders o).trade).status)) [
      | inl ended ↦ (
        record b { live_orders = remove o b.live_orders },
        rw (ended, listed) refl,
        record {
          left = λ e. contains-remove_self o b.live_orders d;
          others = λ p ne. contains-remove_ne p o b.live_orders ne;
          less = λ p absent. contains-remove_of_absent p o b.live_orders absent;
          why = λ l g. ground arith;
          distinct = remove-Distinct o b.live_orders d;
          orders_eq = refl;
        },
      )
      | inr not_ended ↦ (
        b,
        rw not_ended refl,
        record {
          left = λ e. ground arith;
          others = λ p ne. refl;
          less = λ p absent. absent;
          why = λ l g. ground arith;
          distinct = d;
          orders_eq = refl;
        },
      )
    ]

contains_self : (o : ℕ) (os : List ℕ) → contains o (o ∷ os) ≡ true
contains_self o os = ground arith

ne_of_contains :
    (p o : ℕ) (os : List ℕ) → contains p os ≡ true → contains o os ≡ false → (p == o) ≡ false
ne_of_contains p o os h k = elim (Bool-cases (p == o)) [
  | inl same ↦
      absurd (true≢false (sym h ∙ subst (λ q. contains q os ≡ false) (sym ((==_iff p o).0 same)) k))
  | inr other ↦ other
]

contains_rest :
    (p o : ℕ) (os : List ℕ) → (p == o) ≡ false → contains p (o ∷ os) ≡ true → contains p os ≡ true
contains_rest p o os ne h = ground arith

-- A step and the pass over the rest are a pass.
step-IsPass :
    (o : ℕ) (os : List ℕ) (w w' : World) (b b1 b' : Blotter)
    → IsStep o (complete_done o w) b b1
    → IsPass os (complete_done o w) b1 w' b'
    → IsPass (o ∷ os) w b w' b'
step-IsPass o os w w' b b1 b' step rest = record {
  cleared = λ p h e. elim (Bool-cases (p == o)) [
    | inl same ↦
        (let eq = (==_iff p o).0 same in
          rest.fewer p (
            subst (λ q. contains q b1.live_orders ≡ false) (sym eq)
              (step.left (complete_done-Ended o o w (subst (λ q. Ended q w) eq e)))))
    | inr other ↦ rest.cleared p (contains_rest p o os other h) (complete_done-Ended o p w e)
  ];
  fewer = λ p h. rest.fewer p (step.less p h);
  gone = λ p h g. elim (Bool-cases (contains p b1.live_orders)) [
    | inl there ↦ rest.gone p there g
    | inr away ↦ rest.stays p (elim (Bool-cases (p == o)) [
      | inl same ↦
          (let eq = (==_iff p o).0 same in
            subst (λ q. Ended q (complete_done o w)) (sym eq)
              (step.why (subst (λ q. contains q b.live_orders ≡ true) eq h)
                (subst (λ q. contains q b1.live_orders ≡ false) eq away)))
      | inr other ↦ absurd (true≢false (sym h ∙ sym (step.others p other) ∙ away))
    ])
  ];
  stays = λ p e. rest.stays p (complete_done-Ended o p w e);
  orders_eq = rest.orders_eq ∙ step.orders_eq;
}

process_live_orders-IsPass :
    (os : List ℕ) (w : World) (b : Blotter)
    → Distinct os
    → Distinct b.live_orders
    → ((o : ℕ) → contains o os ≡ true → contains o b.live_orders ≡ true)
    → (w' : World) × (b' : Blotter) × (process_live_orders os w b ≡ some (w', b'))
      × IsPass os w b w' b'
unfolding process_live_orders
process_live_orders-IsPass [] w b dos d listed = (
  w,
  b,
  refl,
  record {
    cleared = λ o h e. ground arith;
    fewer = λ o h. h;
    gone = λ o h g. ground arith;
    stays = λ o e. e;
    orders_eq = refl;
  },
)
process_live_orders-IsPass (o ∷ os) w b dos d listed =
    let (b1, left, step) =
      leave_live-IsStep o (complete_done o w) b d (listed o (contains_self o os)) in
    let (w', b', runs, rest) =
      process_live_orders-IsPass os (complete_done o w) b1 dos.1 step.distinct
        (λ p h. step.others p (ne_of_contains p o os h dos.0) ∙ listed p (ground arith)) in
    (w', b', rw (process_live_orders, left) runs, step-IsPass o os w w' b b1 b' step rest)

-- The processing of a market's live orders, which are distinct, raises nothing. It clears from them
-- every order whose trade is COMPLETE before it, adds none, and clears no order whose trade is not
-- COMPLETE after it; no COMPLETE trade of an order changes that status, and the blotter keeps all
-- orders.
pub process_live_orders_lem :
    (w : World) (b : Blotter)
    → Distinct b.live_orders
    → (w' : World) × (b' : Blotter) × (process_live_orders b.live_orders w b ≡ some (w', b'))
      × IsPass b.live_orders w b w' b'
process_live_orders_lem w b distinct =
    process_live_orders-IsPass b.live_orders w b distinct distinct (λ o h. h)
