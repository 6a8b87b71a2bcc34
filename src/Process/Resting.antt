-- ===== src/Process/Resting.antt =====
-- A report of a resting order makes a PENDING order EXECUTABLE.
use flumine.Prelude.{
  ℕ, ◌≡◌, refl, sym, ap, subst, Bool, true, false, Option, some, [], ◌∷◌, arith, contains,
}
use flumine.Order.{
  Order, OrderStatus, OrderType, BetId, ExchangeStatus, CurrentOrder, set_status, clear_update_data,
  status_complete,
}
use flumine.Trade.{World, set_context, set_trade, set_order, placing, executable, modify_order}
use flumine.Trade.Completion.{order_update_status-keeps}
use flumine.Requests.{process_current_order, process_status, take_current}
use flumine.Transaction.{place_trade}
use flumine.Creation.{create_order_from_current, add_order, order_of}
use flumine.Process.{Report, Floor, trade_of}

module _ (is_simulated : Bool) (strategy : ℕ) (order_type : OrderType) (r : Report)
    (f : Floor) where
  abbrev pub o : ℕ
  o = r.order_id

  abbrev pub t : ℕ
  t = f.next_trade

  -- The store with the new trade and its order.
  abbrev pub created : World
  created =
      create_order_from_current is_simulated o t r.side order_type r.handicap r.current.bet_id
        (set_trade t (trade_of t strategy r) f.world)

  abbrev pub new : Order
  new = record (order_of is_simulated o (trade_of t strategy r) r.side order_type r.handicap) {
    bet_id = some r.current.bet_id;
  }

  created_order : created.orders o ≡ new
  unfolding create_order_from_current add_order set_order set_trade
  created_order = ground arith

  pub created_trade : (created.trades t).orders ≡ o ∷ []
  unfolding create_order_from_current add_order set_order set_trade
  created_trade = ground arith

  pub placed_order : ((place_trade o created).orders o) ≡ new
  unfolding place_trade set_context
  placed_order = created_order

  pub placed_trades : (place_trade o created).trades ≡ created.trades
  unfolding place_trade set_context
  placed_trades = refl

-- A status that is no closing one, of an order that its trade lists, sets only the order.
pub pending-eq :
    (o : ℕ) (w : World)
    → contains o (w.trades (w.orders o).trade).orders ≡ true
    → placing o w ≡ set_order o (set_status OrderStatus.pending (w.orders o)) w
unfolding placing
pending-eq o w member =
    order_update_status-keeps o w OrderStatus.pending (unfold status_complete in refl) member

executable-eq :
    (o : ℕ) (w : World)
    → contains o (w.trades (w.orders o).trade).orders ≡ true
    → executable o w
      ≡ modify_order o clear_update_data
          (set_order o (set_status OrderStatus.executable (w.orders o)) w)
unfolding executable
executable-eq o w member =
    ap (modify_order o clear_update_data)
      (order_update_status-keeps o w OrderStatus.executable (unfold status_complete in refl) member)

-- What the first report of a resting order leaves of a PENDING order.
pub record IsResting (o : ℕ) (bet_id : Option BetId) (w w' : World) : Type 0 where
  pub status_eq : (w'.orders o).status ≡ some OrderStatus.executable
  pub bet_eq : (w'.orders o).bet_id ≡ bet_id
  pub trade_eq : (w'.orders o).trade ≡ (w.orders o).trade
  pub trades_eq : w'.trades ≡ w.trades
  pub contexts_eq : w'.contexts ≡ w.contexts

-- A report of a resting order makes a PENDING order with a bet id EXECUTABLE.
report-executable :
    (async_ : Bool) (current : CurrentOrder) (simulated : ExchangeStatus) (o : ℕ) (b : BetId)
    (w : World)
    → (w.orders o).bet_id ≡ some b
    → (w.orders o).status ≡ some OrderStatus.pending
    → (w.orders o).is_simulated ≡ false
    → current.status ≡ ExchangeStatus.executable
    → process_current_order async_ current simulated o w
      ≡ executable o (modify_order o (take_current async_ current) w)
unfolding process_current_order process_status take_current set_order
report-executable async_ current simulated o b w bet_eq pends live rests = ground arith

executable-IsResting :
    (async_ : Bool) (current : CurrentOrder) (o : ℕ) (b : BetId) (w : World)
    → contains o (w.trades (w.orders o).trade).orders ≡ true
    → (w.orders o).bet_id ≡ some b
    → IsResting o (some b) w (executable o (modify_order o (take_current async_ current) w))
executable-IsResting async_ current o b w member bet_eq =
    subst (IsResting o (some b) w)
      (sym (
        executable-eq o (modify_order o (take_current async_ current) w)
          (unfold set_order take_current in ground arith)))
      (unfold set_order take_current set_status clear_update_data in
        record {
          status_eq = ground arith;
          bet_eq = ground arith;
          trade_eq = ground arith;
          trades_eq = refl;
          contexts_eq = refl;
        })

pub rests :
    (async_ : Bool) (current : CurrentOrder) (simulated : ExchangeStatus) (o : ℕ) (b : BetId)
    (w : World)
    → contains o (w.trades (w.orders o).trade).orders ≡ true
    → (w.orders o).bet_id ≡ some b
    → (w.orders o).is_simulated ≡ false
    → current.status ≡ ExchangeStatus.executable
    → IsResting o
        (some b)
        (set_order o (set_status OrderStatus.pending (w.orders o)) w)
        (process_current_order async_ current simulated o (placing o w))
rests async_ current simulated o b w member bet_eq live open_ =
    let w1 = set_order o (set_status OrderStatus.pending (w.orders o)) w in
    let bet_eq' : (w1.orders o).bet_id ≡ some b = unfold set_order set_status in ground arith in
    rw
      (
        pending-eq o w member,
        report-executable async_ current simulated o b w1 bet_eq'
            (unfold set_order set_status in ground arith)
            (unfold set_order set_status in ground arith) open_,
      )
      (executable-IsResting async_ current o b w1 (unfold set_order set_status in ground arith)
        bet_eq')
