-- ===== src/Execution/Placement.antt =====
-- What the report of a placement does to the order and to its trade.
use flumine.Prelude.{
  ℕ, ◌+◌, ◌≡◌, refl, sym, subst, ◌∙◌, ap, true, false, ◌||◌, inl, inr, some, List, arith, ◌==◌,
  contains, Distinct, Option-cases,
}
use flumine.Prelude.Decimal.{Price, Amount}
use flumine.Book.{MarketBook, PriceSize, RunnerBook, get_runner}
use flumine.Order.{
  Order, OrderStatus, OrderType, limit, limit_on_close, market_on_close, Side, back, lay,
  set_status, clear_update_data, complete, status_complete,
}
use flumine.Trade.{
  World, pending, live, complete_, set_order, set_trade, set_trade_status, enter_trade, exit_trade,
  execution_complete, get_runner_context,
}
use flumine.Trade.Completion.{live_in_context, OthersComplete}
use flumine.Simulated.{
  PlaceTerms, PlaceResponse, failure, place, place_on_runner, place_limit, refuse_void,
  refuse_lapse, place_response,
}
use flumine.Execution.{Exchange, log_place, settle_place, place_one}
use flumine.Execution.Leaving.{
  ended, ended-status, enter_trade-eq, execution_complete-pending, exit_trade-completes,
  status_context, status_orders,
}

-- A placement does not move the order to another trade.
place_limit-trade :
    (terms : PlaceTerms) (time bet_id : ℕ) (price : Price) (size : Amount) (best : Price)
    (against behind : List PriceSize) (order : Order)
    → (place_limit terms time bet_id price size best against behind order).1.trade ≡ order.trade
unfolding place_limit place_response refuse_lapse
place_limit-trade terms time bet_id price size best against behind order = ground arith

place_on_runner-trade :
    (terms : PlaceTerms) (book : MarketBook) (bet_id : ℕ) (order_type : OrderType) (side : Side)
    (runner : RunnerBook) (order : Order)
    → (place_on_runner terms book bet_id order_type side runner order).1.trade ≡ order.trade
unfolding place_response refuse_void
place_on_runner-trade terms book bet_id (limit price size k) back runner order =
    place_limit-trade terms _ bet_id price size _ _ _ order
place_on_runner-trade terms book bet_id (limit price size k) lay runner order =
    place_limit-trade terms _ bet_id price size _ _ _ order
place_on_runner-trade terms book bet_id (limit_on_close l p) side runner order = ground arith
place_on_runner-trade terms book bet_id (market_on_close l) side runner order = ground arith

place-trade :
    (terms : PlaceTerms) (book : MarketBook) (bet_id : ℕ) (order order' : Order)
    (response : PlaceResponse)
    → place terms book bet_id order ≡ some (response, order')
    → order'.trade ≡ order.trade
unfolding place place_response refuse_void
place-trade terms book bet_id order order' response h =
    let s = order.simulated in
    let seen = record order { simulated = record s { market_version = some book.version } } in
    elim (Option-cases (get_runner order.selection_id order.handicap book.runners)) [
      | inl missing ↦ ground arith
      | inr (runner, found) ↦ ground (
        arith,
        found,
        place_on_runner-trade terms book bet_id order.order_type order.side runner seen,
      )
    ]

-- The store when the context of the trade is left.
abbrev refused_store : ℕ → PlaceResponse → Order → World → World
refused_store o response order w =
    ended o (log_place response o (set_order o order (set_trade_status order.trade pending w)))

refused_store-eq :
    (o : ℕ) (response : PlaceResponse) (order : Order) (w : World)
    → settle_place failure o (log_place response o (set_order o order (enter_trade order.trade w)))
      ≡ refused_store o response order w
unfolding settle_place
refused_store-eq o response order w =
    ap (λ v. execution_complete o (log_place response o (set_order o order v)))
      (enter_trade-eq order.trade w)
    ∙ execution_complete-pending o _
        (unfold log_place set_order set_trade_status set_trade in ground arith)

refused_store-complete :
    (o : ℕ) (response : PlaceResponse) (order : Order) (w : World) (p : ℕ)
    → ((p == o) ≡ false → complete (w.orders p).status ≡ true)
    → complete ((refused_store o response order w).orders p).status ≡ true
unfolding log_place set_order set_status clear_update_data set_trade_status set_trade complete
    status_complete
refused_store-complete o response order w p h = ground arith

refused_store-trades :
    (o : ℕ) (response : PlaceResponse) (order : Order) (w : World)
    → ((refused_store o response order w).trades ≡ (set_trade_status order.trade pending w).trades)
      × (live_in_context (refused_store o response order w) order.trade
          ≡ live_in_context (set_trade_status order.trade pending w) order.trade)
unfolding log_place set_order set_trade_status set_trade get_runner_context
refused_store-trades o response order w = (refl, refl)

-- What a refused placement leaves of the order and of its trade.
abbrev pub IsEnded : ℕ → ℕ → World → Type 0
IsEnded o t w =
    ((w.orders o).status ≡ some OrderStatus.execution_complete)
    × ((w.trades t).status ≡ complete_)
    × (contains t (live_in_context w t) ≡ false)

exit_refused :
    (o : ℕ) (response : PlaceResponse) (order : Order) (w : World)
    → ((p : ℕ)
        → (contains p (w.trades order.trade).orders
            || contains p (w.trades order.trade).offset_orders)
          ≡ true
        → (p == o) ≡ false
        → complete (w.orders p).status ≡ true)
    → Distinct (live_in_context w order.trade)
    → IsEnded o order.trade (exit_trade order.trade (refused_store o response order w))
exit_refused o response order w others distinct =
    let t = order.trade in
    let R = refused_store o response order w in
    let (trades_eq, contexts_eq) = refused_store-trades o response order w in
    let (orders_eq, offset_eq, status_eq, store_eq) = status_orders t pending w in
    let c =
      exit_trade-completes t R
        (λ p m.
          refused_store-complete o response order w p
            (others p (rw (trades_eq, orders_eq, offset_eq) at m)))
        (subst Distinct (sym (contexts_eq ∙ status_context t pending w)) distinct) in
    let (a, b, d, live_eq) = status_orders t live R in
    (ap (λ f. (f o).status) (c.orders_eq ∙ live_eq) ∙ ended-status o _, c.status_eq, c.reset_eq)

-- A placement of the last open order of its trade that the exchange refuses: the order is
-- EXECUTION_COMPLETE, its trade is complete, and the runner context does not count the trade as
-- live any more.
pub place_one-IsEnded :
    (terms : PlaceTerms) (o : ℕ) (x : Exchange) (response : PlaceResponse) (order : Order)
    → place terms x.book (x.bet_id + 1) (x.world.orders o) ≡ some (response, order)
    → response.status ≡ failure
    → OthersComplete o x.world
    → Distinct (live_in_context x.world (x.world.orders o).trade)
    → (x' : Exchange) × (place_one terms o x ≡ some x')
      × IsEnded o (x.world.orders o).trade x'.world
unfolding place_one
place_one-IsEnded terms o x response order answers failed others distinct =
    let w = x.world in
    let t = (w.orders o).trade in
    let trade_eq : order.trade ≡ t =
      place-trade terms x.book (x.bet_id + 1) (w.orders o) order response answers in
    let entered : (enter_trade t w).orders ≡ w.orders =
      ap (λ v. v.orders) (enter_trade-eq t w) ∙ (status_orders t pending w).3 in
    let settled =
      settle_place response.status o (log_place response o (set_order o order (enter_trade t w))) in
    let settled_eq : settled ≡ refused_store o response order w =
      ap (λ r. settle_place r o (log_place response o (set_order o order (enter_trade t w)))) failed
      ∙ ap
          (λ t'.
            settle_place failure o (log_place response o (set_order o order (enter_trade t' w))))
          (sym trade_eq)
      ∙ refused_store-eq o response order w in
    (
      record x { bet_id = x.bet_id + 1; world = exit_trade t settled },
      rw (place_one, ap (λ f. place terms x.book (x.bet_id + 1) (f o)) entered ∙ answers) refl,
      subst (λ v. IsEnded o t (exit_trade t v)) (sym settled_eq)
          (subst (λ t'. IsEnded o t' (exit_trade t' (refused_store o response order w))) trade_eq
            (exit_refused o response order w
              (subst
                (λ t'.
                  (p : ℕ)
                  → (contains p (w.trades t').orders || contains p (w.trades t').offset_orders)
                    ≡ true
                  → (p == o) ≡ false
                  → complete (w.orders p).status ≡ true)
                (sym trade_eq) others)
              (subst (λ t'. Distinct (live_in_context w t')) (sym trade_eq) distinct))),
    )
