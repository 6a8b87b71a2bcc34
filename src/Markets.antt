-- ===== src/Markets.antt =====
-- The markets of markets/markets.py, and the state of markets/market.py that the framework changes.
-- A market catalogue is counted as there or not; what a market reads of it is passed on.
use flumine.Prelude.{
  ℕ, Bool, true, false, not, ◌&&◌, ◌||◌, Option, none, some, List, [], ◌∷◌, ◌==◌, if◌then◌else◌,
}
use flumine.Prelude.Dict.{Dict, lookup, has_key, insert, drop_key}
use flumine.Book.{MarketBook}
use flumine.Order.{Order, BetId, bet, none_text}
use flumine.Blotter.{Blotter, new_blotter, has_order, iter}

pub record Market : Type 0 where
  pub market_id : ℕ
  pub closed : Bool
  pub date_time_closed : Option ℕ
  pub market_book : Option MarketBook
  pub has_catalogue : Bool
  pub update_market_catalogue : Bool
  pub orders_cleared : Bool
  pub market_cleared : Bool
  pub blotter : Blotter

-- `Market.__init__`
abbrev pub new_market : ℕ → Option MarketBook → Market
new_market market_id market_book = record {
  market_id = market_id;
  closed = false;
  date_time_closed = none;
  market_book = market_book;
  has_catalogue = false;
  update_market_catalogue = true;
  orders_cleared = false;
  market_cleared = false;
  blotter = new_blotter;
}

abbrev pub version_changes : Option MarketBook → MarketBook → Bool
version_changes none book = false
version_changes (some old) book = not (book.version == old.version)

-- `Market.__call__`
unfoldable pub take_book : MarketBook → Market → Market
take_book book m = record m {
  update_market_catalogue = version_changes m.market_book book || m.update_market_catalogue;
  market_book = some book;
}

unfoldable pub open_market : Market → Market
open_market m = record m { closed = false; orders_cleared = false; market_cleared = false }

-- `Market.close_market`, at a time
unfoldable pub close_market : ℕ → Market → Market
close_market now m = record m { closed = true; date_time_closed = some now }

-- `_markets`
abbrev pub Markets : Type 0
Markets = Dict Market

-- `add_market`: a market that is there already is opened, and the new one dropped.
unfoldable pub add_market : ℕ → Market → Markets → Markets
add_market market_id market ms = elim (lookup market_id ms) [
  | none ↦ insert market_id market ms
  | some old ↦ insert market_id (open_market old) ms
]

-- `Markets.close_market`; none is the KeyError
unfoldable pub close_listed : ℕ → ℕ → Markets → Option Markets
close_listed now market_id ms = elim (lookup market_id ms) [
  | none ↦ none
  | some market ↦ some (insert market_id (close_market now market) ms)
]

-- `remove_market`; none is the KeyError
unfoldable pub remove_market : ℕ → Markets → Option Markets
remove_market market_id ms = if has_key market_id ms then some (drop_key market_id ms) else none

-- `get_order`
unfoldable pub get_order : ℕ → ℕ → Markets → Option ℕ
get_order market_id order_id ms = elim (lookup market_id ms) [
  | none ↦ none
  | some market ↦ if has_order order_id market.blotter then some order_id else none
]

abbrev pub same_bet : BetId → BetId → Bool
same_bet (bet n) (bet m) = n == m
same_bet none_text none_text = true
same_bet _ _ = false

abbrev pub has_bet : BetId → Option BetId → Bool
has_bet b none = false
has_bet b (some b') = same_bet b b'

-- The dict by bet id: of orders with one bet id it keeps the last.
unfoldable pub find_bet : (ℕ → Order) → BetId → List ℕ → Option ℕ
find_bet orders b [] = none
find_bet orders b (o ∷ os) = elim (find_bet orders b os) [
  | some later ↦ some later
  | none ↦ if has_bet b (orders o).bet_id then some o else none
]

-- `get_order_from_bet_id`; a market that is not there raises, none
unfoldable pub get_order_from_bet_id : (ℕ → Order) → ℕ → BetId → Markets → Option (Option ℕ)
get_order_from_bet_id orders market_id bet_id ms = elim (lookup market_id ms) [
  | none ↦ none
  | some market ↦ some (find_bet orders bet_id (iter market.blotter))
]

-- `open_market_ids`
unfoldable pub open_market_ids : Markets → List ℕ
open_market_ids [] = []
open_market_ids (item ∷ ms) =
    let rest = open_market_ids ms in if item.1.closed then rest else item.1.market_id ∷ rest

abbrev pub has_live_orders : Blotter → Bool
has_live_orders b = elim b.live_orders [ [] ↦ false | _ ∷ _ ↦ true ]

-- `live_orders`
unfoldable pub live_orders : Markets → Bool
live_orders [] = false
live_orders (item ∷ ms) =
    if not item.1.closed && has_live_orders item.1.blotter then true else live_orders ms
