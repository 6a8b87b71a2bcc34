-- ===== src/Tests.antt =====
-- Example data and runs of the code on them.
pub mod Matching
pub mod Orders
pub mod Sessions
pub mod Exchanges
pub mod Reports
pub mod Backtests
pub mod Frameworks
pub mod Feeds
use flumine.Prelude.{ℕ, ◌≡◌, refl, Bool, true, false, Option, none, some, List, [], ◌∷◌}
use flumine.Prelude.Int.{pos}
use flumine.Prelude.Decimal.{Price, Amount}
use flumine.Book.{PriceSize, RunnerBook, MarketBook, MarketStatus, RunnerStatus}
use flumine.Order.{
  Side, back, lay, OrderType, limit, Persistence, Order, OrderStatus, new_order, BetId, bet,
}
use flumine.Strategy.{RunnerContext, new_context}
use flumine.Trade.{Trade, TradeStatus, World}

-- A back of 5.00 at 3.00.
abbrev pub some_order : Order
some_order = new_order true 1 1 1 back (limit 300 (pos 50_000) Persistence.lapse) 10 7 0

abbrev pub some_runner : RunnerBook
some_runner = record {
  selection_id = 7;
  handicap = 0;
  status = RunnerStatus.active;
  available_to_back = record { price = 300; size = pos 20_000 } ∷ [];
  available_to_lay = record { price = 310; size = pos 100_000 } ∷ [];
  traded_volume = [];
  total_matched = pos 0;
  actual_sp = none;
  adjustment_factor = 0;
}

abbrev pub some_book : MarketBook
some_book = record {
  market_id = 10;
  publish_time = 1_000;
  status = MarketStatus.open_;
  version = 1;
  bet_delay = 0;
  inplay = false;
  bsp_reconciled = false;
  bsp_market = true;
  persistence_enabled = true;
  number_of_winners = 1;
  runners = some_runner ∷ [];
}

-- What 3.00 and 3.20 traded, 4.00 and 9.00 of it.
abbrev pub some_traded : List PriceSize
some_traded =
    record { price = 300; size = pos 40_000 } ∷ record { price = 320; size = pos 90_000 } ∷ []

abbrev pub some_trade : Trade
some_trade = record {
  id = 1;
  market_id = 10;
  selection_id = 7;
  handicap = 0;
  strategy = 1;
  place_reset_seconds = 0;
  reset_seconds = 0;
  orders = 1 ∷ [];
  offset_orders = [];
  status = TradeStatus.live;
  status_log = TradeStatus.live ∷ [];
  date_time_complete = none;
}

abbrev pub live_order : Order
live_order = record some_order { status = some OrderStatus.executable; bet_id = some (bet 100) }

abbrev pub some_context : RunnerContext
some_context = record (new_context 7) { trades = 1 ∷ []; live_trades = 1 ∷ [] }

-- One live order, 1, of one trade, 1.
abbrev pub some_world : World
some_world = record {
  clock = 5_000;
  orders = λ o. live_order;
  trades = λ t. some_trade;
  contexts = λ k. some some_context;
}
