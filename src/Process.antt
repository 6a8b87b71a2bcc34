-- ===== src/Process.antt =====
-- The reports of the order stream, `process_current_orders` and `create_order_from_current` of
-- order/process.py.
pub mod Resting
pub mod Adoption
use flumine.Prelude.{
  ℕ, suc, ◌+◌, Bool, true, false, not, Option, none, some, List, [], ◌∷◌, ◌==◌, if◌then◌else◌,
}
use flumine.Prelude.Dict.{lookup, insert}
use flumine.Order.{Order, Side, OrderType, BetId, ExchangeStatus, CurrentOrder, simulated_complete}
use flumine.Trade.{Trade, TradeStatus, World, set_trade, placing}
use flumine.Requests.{process_current_order}
use flumine.Blotter.{set_item}
use flumine.Transaction.{place_trade}
use flumine.Creation.{create_order_from_current}
use flumine.Markets.{
  Market, Markets, new_market, add_market, get_order, get_order_from_bet_id, has_bet,
}

-- A current order of the stream. The hash of the strategy's name and the order's id are the two parts
-- of its customer reference; none is an order type that is not known.
pub record Report : Type 0 where
  pub strategy_hash : ℕ
  pub order_id : ℕ
  pub market_id : ℕ
  pub selection_id : ℕ
  pub handicap : ℕ
  pub side : Side
  pub order_type : Option OrderType
  pub current : CurrentOrder

-- The framework's state that the reports reach; `next_trade` is the uuid of the next trade.
pub record Floor : Type 0 where
  pub world : World
  pub markets : Markets
  pub next_trade : ℕ

-- The configuration: the strategies by the hash of their name, and the two settings.
pub record Settings : Type 0 where
  pub hashes : ℕ → Option ℕ
  pub is_simulated : Bool
  pub async_place_orders : Bool

-- `Trade.__init__`, of a report
abbrev pub trade_of : ℕ → ℕ → Report → Trade
trade_of t strategy r = record {
  id = t;
  market_id = r.market_id;
  selection_id = r.selection_id;
  handicap = r.handicap;
  strategy = strategy;
  place_reset_seconds = 0;
  reset_seconds = 0;
  orders = [];
  offset_orders = [];
  status = TradeStatus.live;
  status_log = [];
  date_time_complete = none;
}

-- `markets.get(market_id)`, where a market that is not there is added
unfoldable pub market_or_new : ℕ → Markets → Market × Markets
market_or_new market_id ms = elim (lookup market_id ms) [
  | some market ↦ (market, ms)
  | none ↦ (new_market market_id none, add_market market_id (new_market market_id none) ms)
]

-- What looking an order up gives: an order, none, or an exception.
pub data Found : Type 0 where
  raised missing : Found
  found : ℕ → Floor → Found

-- The trade and the order of a report, stored, listed, counted and PENDING.
unfoldable pub adopt : Settings → ℕ → OrderType → Report → Floor → Floor
adopt settings strategy order_type r f =
    let t = f.next_trade in
    let o = r.order_id in
    let (market, ms) = market_or_new r.market_id f.markets in
    let w =
      create_order_from_current settings.is_simulated o t r.side order_type r.handicap
        r.current.bet_id (set_trade t (trade_of t strategy r) f.world) in
    record {
      world = placing o (place_trade o w);
      markets =
          insert r.market_id (record market { blotter = set_item o (w.orders o) market.blotter })
            ms;
      next_trade = suc t;
    }

-- `create_order_from_current` of process.py
unfoldable pub create_from_report : Settings → Report → Floor → Found
create_from_report settings r f = elim (settings.hashes r.strategy_hash) [
  | none ↦ missing
  | some strategy ↦ elim r.order_type [
    | none ↦ raised
    | some order_type ↦ found r.order_id (adopt settings strategy order_type r f)
  ]
]

-- The order with the id of the report, or a new one
unfoldable pub find_order : Settings → Report → Floor → Found
find_order settings r f = elim (get_order r.market_id r.order_id f.markets) [
  | some o ↦ found o f
  | none ↦ create_from_report settings r f
]

-- `order.bet_id and order.bet_id != current_order.bet_id`
abbrev pub bet_differs : Option BetId → BetId → Bool
bet_differs none bet_id = false
bet_differs (some b) bet_id = not (has_bet bet_id (some b))

-- An order that has been replaced shares its reference with its replacement: the bet id decides.
unfoldable pub find_bet_order : Report → Found → Found
find_bet_order r (found o f) =
    if bet_differs (f.world.orders o).bet_id r.current.bet_id
    then (elim (get_order_from_bet_id f.world.orders r.market_id r.current.bet_id f.markets) [
      | none ↦ raised
      | some none ↦ missing
      | some (some o') ↦ found o' f
    ])
    else found o f
find_bet_order r raised = raised
find_bet_order r missing = missing

-- The status that the simulation gives.
abbrev pub simulated_status : Order → ExchangeStatus
simulated_status order =
    if simulated_complete order.order_type order.simulated
    then ExchangeStatus.execution_complete
    else ExchangeStatus.executable

-- One report; none is an exception.
unfoldable pub process_report : Settings → Report → Floor → Option Floor
process_report settings r f = elim (find_bet_order r (find_order settings r f)) [
  | raised ↦ none
  | missing ↦ some f
  | found o g ↦ some (record g {
    world =
        process_current_order settings.async_place_orders r.current
          (simulated_status (g.world.orders o)) o g.world;
  })
]

-- `process_current_orders`
unfoldable pub process_reports : Settings → List Report → Floor → Option Floor
process_reports settings [] f = some f
process_reports settings (r ∷ rs) f = elim (process_report settings r f) [
  | none ↦ none
  | some g ↦ process_reports settings rs g
]
