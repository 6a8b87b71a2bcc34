-- ===== src/Process/Adoption.antt =====
-- An order that the framework does not know is taken over from the stream.
use flumine.Prelude.{ℕ, ◌≡◌, refl, ◌∙◌, ap, subst, true, false, Option, none, some, arith, contains}
use flumine.Prelude.Dict.{insert, lookup-insert}
use flumine.Order.{Order, OrderStatus, OrderType, BetId, bet, none_text, ExchangeStatus, set_status}
use flumine.Trade.{World, get_runner_context, trade_key, set_order, placing}
use flumine.Trade.Completion.{live_in_context}
use flumine.Requests.{process_current_order}
use flumine.Blotter.{set_item}
use flumine.Transaction.{place_trade}
use flumine.Transaction.Requests.{place_trade-counts, has_order-set_item}
use flumine.Markets.{Market, Markets, get_order, same_bet}
use flumine.Process.{
  Report, Floor, Settings, found, adopt, create_from_report, find_order, find_bet_order,
  process_report, bet_differs, simulated_status,
}
use flumine.Process.Resting.{
  IsResting, created, created_trade, o, pending-eq, placed_order, placed_trades, rests, t,
}

get_order-insert :
    (market_id o : ℕ) (order : Order) (market : Market) (ms : Markets)
    → get_order market_id o
        (insert market_id (record market { blotter = set_item o order market.blotter }) ms)
      ≡ some o
unfolding get_order
get_order-insert market_id o order market ms =
    rw
      (
        get_order,
        lookup-insert market_id market_id
            (record market { blotter = set_item o order market.blotter }) ms,
      )
      (ground (arith, has_order-set_item o order market.blotter))

same_bet_self : (b : BetId) → same_bet b b ≡ true
same_bet_self (bet n) = ground arith
same_bet_self none_text = refl

-- An order that the framework has taken over, with its trade.
pub record IsAdopted (r : Report) (t : ℕ) (g : Floor) : Type 0 where
  pub listed : get_order r.market_id r.order_id g.markets ≡ some r.order_id
  pub status_eq : (g.world.orders r.order_id).status ≡ some OrderStatus.executable
  pub bet_eq : (g.world.orders r.order_id).bet_id ≡ some r.current.bet_id
  pub trade_eq : (g.world.orders r.order_id).trade ≡ t
  pub counted : contains t (live_in_context g.world t) ≡ true

module _ (settings : Settings) (r : Report) (f : Floor) (strategy : ℕ) (order_type : OrderType)
    (live : settings.is_simulated ≡ false)
    (resting : r.current.status ≡ ExchangeStatus.executable) where
  abbrev made : World
  made = place_trade r.order_id (created settings.is_simulated strategy order_type r f)

  abbrev after_report : World
  after_report =
      process_current_order settings.async_place_orders r.current
        (simulated_status ((placing r.order_id made).orders r.order_id)) r.order_id
        (placing r.order_id made)

  made-IsResting :
      IsResting r.order_id
        (some r.current.bet_id)
        (set_order r.order_id (set_status OrderStatus.pending (made.orders r.order_id)) made)
        after_report
  made-IsResting =
      let order_eq = placed_order settings.is_simulated strategy order_type r f in
      let trade_eq = created_trade settings.is_simulated strategy order_type r f in
      rests settings.async_place_orders r.current _ r.order_id r.current.bet_id made
        (rw
          (
            ap (λ o. o.trade) order_eq,
            placed_trades settings.is_simulated strategy order_type r f,
            trade_eq,
          )
          (ground arith))
        (ap (λ o. o.bet_id) order_eq) (ap (λ o. o.is_simulated) order_eq ∙ live) resting

  made-member : contains r.order_id (made.trades (made.orders r.order_id).trade).orders ≡ true
  made-member =
      rw
        (
          ap (λ o. o.trade) (placed_order settings.is_simulated strategy order_type r f),
          placed_trades settings.is_simulated strategy order_type r f,
          created_trade settings.is_simulated strategy order_type r f,
        )
        (ground arith)

  adopted-counted :
      contains (made.orders r.order_id).trade (live_in_context made (made.orders r.order_id).trade)
      ≡ true
  adopted-counted =
      place_trade-counts r.order_id (created settings.is_simulated strategy order_type r f)

live_in_context-eq :
    (t : ℕ) (w' w : World)
    → w'.trades ≡ w.trades
    → w'.contexts ≡ w.contexts
    → live_in_context w' t ≡ live_in_context w t
unfolding get_runner_context
live_in_context-eq t w' w e e' =
    ground (arith, ap (λ f. f t) e, ap (λ c. c (trade_key (w.trades t))) e')

set_order_keeps :
    (o : ℕ) (order : Order) (w : World)
    → ((set_order o order w).trades ≡ w.trades) × ((set_order o order w).contexts ≡ w.contexts)
unfolding set_order
set_order_keeps o order w = (refl, refl)

bet_agrees : (b : BetId) (bet_id : Option BetId) → bet_id ≡ some b → bet_differs bet_id b ≡ false
bet_agrees b bet_id e = rw e (ground (arith, same_bet_self b))

find_order-adopt :
    (settings : Settings) (r : Report) (f : Floor) {strategy : ℕ} {order_type : OrderType}
    → get_order r.market_id r.order_id f.markets ≡ none
    → settings.hashes r.strategy_hash ≡ some strategy
    → r.order_type ≡ some order_type
    → find_order settings r f ≡ found r.order_id (adopt settings strategy order_type r f)
unfolding find_order create_from_report
find_order-adopt settings r f unknown known typed = rw (find_order, unknown) (ground arith)

find_bet_order-agrees :
    (r : Report) (o : ℕ) (g : Floor)
    → (g.world.orders o).bet_id ≡ some r.current.bet_id
    → find_bet_order r (found o g) ≡ found o g
unfolding find_bet_order
find_bet_order-agrees r o g e = rw (bet_agrees r.current.bet_id (g.world.orders o).bet_id e)

-- A report of a resting order that no market knows, of a known strategy and of a known order type,
-- outside the simulation: nothing is raised, the market (a new one if need be) lists an order with
-- the report's id and bet id, the order is EXECUTABLE, and a new trade is live with it in the
-- runner context.
pub process_report-IsAdopted :
    (settings : Settings) (r : Report) (f : Floor) {strategy : ℕ} {order_type : OrderType}
    → get_order r.market_id r.order_id f.markets ≡ none
    → settings.hashes r.strategy_hash ≡ some strategy
    → r.order_type ≡ some order_type
    → settings.is_simulated ≡ false
    → r.current.status ≡ ExchangeStatus.executable
    → (g : Floor) × (process_report settings r f ≡ some g) × IsAdopted r f.next_trade g
unfolding process_report adopt
process_report-IsAdopted settings r f {strategy} {order_type} unknown known typed live resting =
    let g = adopt settings strategy order_type r f in
    let rest = made-IsResting settings r f strategy order_type live resting in
    let w = made settings r f strategy order_type live resting in
    let order_eq = placed_order settings.is_simulated strategy order_type r f in
    let pending_order : (placing r.order_id w).orders r.order_id
        ≡ set_status OrderStatus.pending (w.orders r.order_id) =
      ap (λ v. v.orders r.order_id)
        (pending-eq r.order_id w (made-member settings r f strategy order_type live resting))
      ∙ (unfold set_order in ground arith) in
    let trade_eq : (w.orders r.order_id).trade ≡ f.next_trade =
      ap (λ order. order.trade) order_eq in
    let found_eq : find_bet_order r (find_order settings r f) ≡ found r.order_id g =
      ap (find_bet_order r) (find_order-adopt settings r f unknown known typed)
      ∙ find_bet_order-agrees r r.order_id g (
          ap (λ order. order.bet_id) pending_order
          ∙ (unfold set_status in ap (λ order. order.bet_id) order_eq)) in
    (
      record g { world = after_report settings r f strategy order_type live resting },
      rw (process_report, found_eq),
      record {
        listed = get_order-insert r.market_id r.order_id _ _ _;
        status_eq = rest.status_eq;
        bet_eq = rest.bet_eq;
        trade_eq = rest.trade_eq ∙ (unfold set_order set_status in ground arith);
        counted =
            ap (contains f.next_trade) (
              live_in_context-eq f.next_trade _ w
                (rest.trades_eq ∙ (set_order_keeps r.order_id _ w).0)
                (rest.contexts_eq ∙ (set_order_keeps r.order_id _ w).1))
            ∙ subst (λ t'. contains t' (live_in_context w t') ≡ true) trade_eq
                (adopted-counted settings r f strategy order_type live resting);
      },
    )
