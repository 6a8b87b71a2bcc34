-- ===== src/Middleware/Tracking.antt =====
-- The matching of the live orders keeps the account of a limit order.
use flumine.Prelude.{
  ℕ, ◌<◌, ◌≡◌, ◌⊎◌, sym, subst, ◌∙◌, ap, Bool, true, false, not, ◌&&◌, Option, none, some, List, [],
  ◌∷◌, ◌==◌, arith, ==_iff, Bool-cases, Option-cases, inl, inr, if◌then◌else◌,
}
use flumine.Prelude.Decimal.{Price, Amount}
use flumine.Book.{PriceSize, MarketBook, get_runner}
use flumine.Order.{
  Order, back, limit, Persistence, Simulated, take_sp, set_status, clear_update_data,
}
use flumine.Trade.{
  World, set_order, set_trade, set_context, set_trade_status, finish_trade, complete_trade,
  order_update_status, execution_complete,
}
use flumine.Simulated.Sound.{IsSound}
use flumine.Simulated.Tick.{TickResult, raised, ticked, finished, tick}
use flumine.Simulated.Placing.{IsLimit}
use flumine.Simulated.Ticking.{Keeps, tick-IsSound, tick_matching-IsSound}
use flumine.Middleware.{
  after_tick, set_simulated, is_executable, process_simulated, process_simulated_orders,
}
use flumine.Analytics.{Analytics, RunnerAnalytics, find_analytics}

module _ (price : Price) (size : Amount) (k : Persistence) (before : Order) where
  -- A sound limit order with the side and the runner of another.
  pub record IsTracked (order : Order) : Type 0 where
    pub limit_order : IsLimit price size k order
    pub side_eq : order.side ≡ before.side
    pub market_eq : order.market_id ≡ before.market_id
    pub selection_eq : order.selection_id ≡ before.selection_id
    pub handicap_eq : order.handicap ≡ before.handicap

  pub with_simulated :
      (order : Order) (s : Simulated)
      → IsSound size s
      → IsTracked order
      → IsTracked (record order { simulated = s })
  with_simulated order s sound t = record {
    limit_order = record { type_eq = t.limit_order.type_eq; sound = sound };
    side_eq = t.side_eq;
    market_eq = t.market_eq;
    selection_eq = t.selection_eq;
    handicap_eq = t.handicap_eq;
  }

  pub set_order-IsTracked :
      (o q : ℕ) (order : Order) (w : World)
      → ((o == q) ≡ true → IsTracked order)
      → IsTracked (w.orders o)
      → IsTracked ((set_order q order w).orders o)
  unfolding set_order
  set_order-IsTracked o q order w h t = elim (Bool-cases (o == q)) [
    | inl same ↦ rw same (h same)
    | inr other ↦ rw other t
  ]

  execution_complete-fields :
      (o q : ℕ) (w : World)
      → let order = (execution_complete q w).orders o in
        (order.order_type ≡ (w.orders o).order_type)
        × (order.simulated ≡ (w.orders o).simulated)
        × (order.side ≡ (w.orders o).side)
        × (order.market_id ≡ (w.orders o).market_id)
        × (order.selection_id ≡ (w.orders o).selection_id)
        × (order.handicap ≡ (w.orders o).handicap)
  unfolding execution_complete order_update_status set_order set_status clear_update_data
      complete_trade finish_trade set_trade_status set_trade set_context
  execution_complete-fields o q w = ground arith

  execution_complete-IsTracked :
      (o q : ℕ) (w : World) → IsTracked (w.orders o) → IsTracked ((execution_complete q w).orders o)
  execution_complete-IsTracked o q w t =
      let (type_eq, simulated_eq, side_eq, market_eq, selection_eq, handicap_eq) =
        execution_complete-fields o q w in
      record {
        limit_order = record {
          type_eq = type_eq ∙ t.limit_order.type_eq;
          sound = subst (IsSound size) (sym simulated_eq) t.limit_order.sound;
        };
        side_eq = side_eq ∙ t.side_eq;
        market_eq = market_eq ∙ t.market_eq;
        selection_eq = selection_eq ∙ t.selection_eq;
        handicap_eq = handicap_eq ∙ t.handicap_eq;
      }

  -- What an update leaves is sound.
  abbrev MayKeep : TickResult → Type 0
  MayKeep (raised s) = IsSound size s
  MayKeep (ticked s) = IsSound size s
  MayKeep (finished s) = IsSound size s

  may_keep : (r : TickResult) → Keeps size r → MayKeep r
  may_keep (raised s) h = absurd h
  may_keep (ticked s) h = h
  may_keep (finished s) h = h

  -- The side that the theorems are about, and a price.
  abbrev pub IsFair : Type 0
  IsFair = (0 < price) × ((before.side ≡ back) ⊎ (take_sp (limit price size k) ≡ false))

  kind_of :
      (order : Order)
      → IsTracked order
      → (before.side ≡ back) ⊎ (take_sp (limit price size k) ≡ false)
      → (order.side ≡ back) ⊎ (take_sp order.order_type ≡ false)
  kind_of order t (inl backs) = inl (t.side_eq ∙ backs)
  kind_of order t (inr waits) = inr (ap take_sp t.limit_order.type_eq ∙ waits)

  tick-MayKeep :
      (liability : Amount) (book : MarketBook) (traded : List PriceSize) (order : Order)
      → IsFair
      → IsTracked order
      → MayKeep (tick liability book traded order)
  unfolding tick
  tick-MayKeep liability book traded order fair t =
      elim (Bool-cases
        (not order.simulated.bsp_reconciled && book.bsp_reconciled && take_sp order.order_type)) [
          | inr matching ↦
              rw (tick, matching)
                (may_keep _ (tick_matching-IsSound fair.0 book traded order t.limit_order))
          | inl reconciles ↦
              elim (Option-cases (get_runner order.selection_id order.handicap book.runners)) [
                | inl missing ↦ rw (tick, reconciles, missing) t.limit_order.sound
                | inr (runner, found) ↦ may_keep _ (
                    tick-IsSound liability book traded order runner fair.0 found t.limit_order
                      (kind_of order t fair.1))
              ]
        ]

  set_simulated-IsTracked :
      (o q : ℕ) (s : Simulated) (w : World)
      → ((o == q) ≡ true → IsSound size s)
      → IsTracked (w.orders o)
      → IsTracked ((set_simulated q s w).orders o)
  set_simulated-IsTracked o q s w h t =
      set_order-IsTracked o q (record (w.orders q) { simulated = s }) w
        (λ same.
          subst (λ p. IsTracked (record (w.orders p) { simulated = s })) ((==_iff o q).0 same)
            (with_simulated (w.orders o) s (h same) t))
        t

  -- The outcome of a step keeps the order.
  abbrev Tracks : ℕ → Bool × World → Type 0
  Tracks o outcome = IsTracked (outcome.1.orders o)

  after_tick-Tracks :
      (o q : ℕ) (r : TickResult) (w : World)
      → ((o == q) ≡ true → MayKeep r)
      → IsTracked (w.orders o)
      → Tracks o (after_tick q r w)
  after_tick-Tracks o q (raised s) w h t = set_simulated-IsTracked o q s w h t
  after_tick-Tracks o q (ticked s) w h t = set_simulated-IsTracked o q s w h t
  after_tick-Tracks o q (finished s) w h t =
      execution_complete-IsTracked o q (set_simulated q s w) (set_simulated-IsTracked o q s w h t)

  pick-Tracks :
      (o : ℕ) (b : Bool) (x y : Bool × World)
      → Tracks o x
      → Tracks o y
      → Tracks o (if b then x else y)
  pick-Tracks o true x y h t = h
  pick-Tracks o false x y h t = t

  find-Tracks :
      (o : ℕ) (known : Option RunnerAnalytics) (w : World) (f : RunnerAnalytics → Bool × World)
      → IsTracked (w.orders o)
      → ((a : RunnerAnalytics) → Tracks o (f a))
      → Tracks o (elim known [ none ↦ (false, w) | some a ↦ f a ])
  find-Tracks o none w f t h = t
  find-Tracks o (some a) w f t h = h a

  -- An exception ends the loop.
  goes_on :
      (o : ℕ) (passes : Bool) (w rest : World)
      → IsTracked (w.orders o)
      → IsTracked (rest.orders o)
      → IsTracked ((if passes then rest else w).orders o)
  goes_on o true w rest t h = h
  goes_on o false w rest t h = t

  process_simulated-Tracks :
      (liability : Amount) (book : MarketBook) (analytics : Analytics) (o q : ℕ) (w : World)
      → IsFair
      → IsTracked (w.orders o)
      → Tracks o (process_simulated liability book analytics q w)
  unfolding process_simulated
  process_simulated-Tracks liability book analytics o q w fair t =
      pick-Tracks o ((w.orders q).is_simulated && is_executable (w.orders q).status) _ (true, w)
        (find-Tracks o (find_analytics ((w.orders q).selection_id, (w.orders q).handicap) analytics)
          w (λ a. after_tick q (tick liability book a.traded (w.orders q)) w) t
          (λ a.
            after_tick-Tracks o q (tick liability book a.traded (w.orders q)) w
              (λ same.
                tick-MayKeep liability book a.traded (w.orders q) fair
                  (subst (λ p. IsTracked (w.orders p)) ((==_iff o q).0 same) t))
              t))
        t

  -- The loop over the live orders keeps every tracked order.
  pub process_simulated_orders-IsTracked :
      (liability : Amount) (book : MarketBook) (analytics : Analytics) (o : ℕ) (os : List ℕ)
      (w : World)
      → IsFair
      → IsTracked (w.orders o)
      → IsTracked ((process_simulated_orders liability book analytics os w).orders o)
  unfolding process_simulated_orders
  process_simulated_orders-IsTracked liability book analytics o [] w fair t = t
  process_simulated_orders-IsTracked liability book analytics o (q ∷ os) w fair t =
      let outcome = process_simulated liability book analytics q w in
      let kept = process_simulated-Tracks liability book analytics o q w fair t in
      goes_on o outcome.0 outcome.1 _ kept
        (process_simulated_orders-IsTracked liability book analytics o os outcome.1 fair kept)
