-- ===== src/Creation.antt =====
-- The orders that a trade creates: `create_order`, `create_order_replacement` and
-- `create_order_from_current` of order/trade.py. `id` is the new order's, which the code makes of a
-- uuid; `is_simulated` is what the client and the configuration say.
use flumine.Prelude.{ℕ, Bool, Option, none, some, [], ◌∷◌, ◌++◌}
use flumine.Prelude.Decimal.{Price, Amount}
use flumine.Order.{Order, Side, OrderType, limit, BetId, new_order}
use flumine.Trade.{Trade, World, set_order, set_trade}

-- `BetfairOrder(trade=self, ...)`
abbrev pub order_of : Bool → ℕ → Trade → Side → OrderType → ℕ → Order
order_of is_simulated id trade side order_type handicap =
    new_order is_simulated id trade.id trade.strategy side order_type trade.market_id
      trade.selection_id handicap

-- A new order, stored and appended to its trade's.
unfoldable pub add_order : ℕ → ℕ → Order → World → World
add_order id t order w =
    let trade = w.trades t in
    set_order id order (set_trade t (record trade { orders = trade.orders ++ id ∷ [] }) w)

-- `create_order`; there is one exchange, so the check of the exchanges passes
unfoldable pub create_order : Bool → ℕ → ℕ → Side → OrderType → World → World
create_order is_simulated id t side order_type w =
    let trade = w.trades t in
    add_order id t (order_of is_simulated id trade side order_type trade.handicap) w

-- The order type of a replacement; only a LIMIT order has a `persistence_type`.
unfoldable pub replacement_type : OrderType → Price → Amount → Option OrderType
replacement_type (limit price size persistence_type) new_price new_size =
    some (limit new_price new_size persistence_type)
replacement_type _ new_price new_size = none

-- `create_order_replacement`; none is the AttributeError
unfoldable pub create_order_replacement :
    Bool → ℕ → ℕ → Order → Price → Amount → World → Option World
create_order_replacement is_simulated id t order new_price size w =
    elim (replacement_type order.order_type new_price size) [
      | none ↦ none
      | some order_type ↦ some (
          add_order id t
            (order_of is_simulated id (w.trades t) order.side order_type order.handicap) w)
    ]

-- `create_order_from_current`, with the order type that the report has, of which the code makes one
-- of the three, and its bet id
unfoldable pub create_order_from_current :
    Bool → ℕ → ℕ → Side → OrderType → ℕ → BetId → World → World
create_order_from_current is_simulated id t side order_type handicap bet_id w =
    let order = order_of is_simulated id (w.trades t) side order_type handicap in
    add_order id t (record order { bet_id = some bet_id }) w
