-- ===== src/Worker.antt =====
-- The background workers of worker.py, each poll as one step: what the exchange answers is an
-- argument, in which none is an error of the call.
pub mod Catalogues
pub mod Clearing
pub mod Closure
use flumine.Prelude.{
  ℕ, zero, suc, ◌+◌, Bool, true, false, not, ◌&&◌, ◌||◌, Option, none, some, List, [], ◌∷◌, ◌++◌,
  length, if◌then◌else◌,
}
use flumine.Prelude.Dict.{Dict}
use flumine.Markets.{Market, Markets}
use flumine.Package.{chunks}
use flumine.Framework.{
  ClearedOrder, Event, market_catalogues, cleared_orders, cleared_markets, Framework, put,
  set_markets,
}

-- A page of `list_cleared_orders`: `orders` and `more_available`
pub record Page : Type 0 where
  pub orders : List ClearedOrder
  pub more_available : Bool

-- The calls of the betting client, and what the workers read of the trading client
pub record Exchange : Type 0 where
  pub paper_trade : Bool
  pub list_market_catalogue : List ℕ → Option (List ℕ)
  pub list_cleared_orders : (market_id from_record : ℕ) → Option Page
  pub list_cleared_markets : (market_id : ℕ) → Option (List ℕ)

-- `client.keep_alive()`: an error, no response, or the status
pub data KeptAlive : Type 0 where
  failed : KeptAlive
  no_response : KeptAlive
  status : (success : Bool) → KeptAlive

-- `keep_alive`: whether a login is attempted
unfoldable pub keep_alive : (session_token : Bool) → KeptAlive → Bool
keep_alive false resp = true
keep_alive true failed = true
keep_alive true no_response = false
keep_alive true (status success) = not success

abbrev pub wanted : Markets → List ℕ
wanted [] = []
wanted (item ∷ ms) =
    let rest = wanted ms in if item.1.update_market_catalogue then item.1.market_id ∷ rest else rest

-- The loop of `poll_market_catalogue`: an error, or no catalogue, puts no event.
unfoldable pub poll_chunks : Exchange → List (List ℕ) → List Event
poll_chunks exchange [] = []
poll_chunks exchange (market_ids ∷ rest) =
    let events = poll_chunks exchange rest in
    elim (exchange.list_market_catalogue market_ids) [
      | some (market_catalogue ∷ others) ↦ market_catalogues (market_catalogue ∷ others) ∷ events
      | _ ↦ events
    ]

abbrev pub put_all : List Event → Framework → Framework
put_all events s = record s { handler_queue = s.handler_queue ++ events }

-- `poll_market_catalogue`
unfoldable pub poll_market_catalogue : Exchange → Framework → Framework
poll_market_catalogue exchange s =
    put_all (poll_chunks exchange (chunks (wanted s.floor.markets) 25)) s

-- What a poll of one market gives: whether it went through, and the events it puts
pub record Polled : Type 0 where
  pub done : Bool
  pub events : List Event

abbrev pub before : Event → Option Polled → Option Polled
before event none = none
before event (some polled) = some (record polled { events = event ∷ polled.events })

-- `_get_cleared_orders` from a record on, with fuel for its rounds; none where that is used up
unfoldable pub get_cleared_orders : ℕ → Exchange → ℕ → ℕ → Option Polled
get_cleared_orders zero exchange market_id from_record = none
get_cleared_orders (suc fuel) exchange market_id from_record =
    elim (exchange.list_cleared_orders market_id from_record) [
      | none ↦ some (record { done = false; events = [] })
      | some page ↦
          (let rest =
              get_cleared_orders fuel exchange market_id (from_record + length page.orders) in
            before (cleared_orders market_id page.orders)
              (if page.more_available then rest else some (record { done = true; events = [] })))
    ]

-- `_get_cleared_market`
unfoldable pub get_cleared_market : Exchange → ℕ → Polled
get_cleared_market exchange market_id = elim (exchange.list_cleared_markets market_id) [
  | some (order ∷ orders) ↦ record {
    done = true;
    events = cleared_markets market_id (order ∷ orders) ∷ [];
  }
  | _ ↦ record { done = false; events = [] }
]

-- The markets that `poll_market_closure` goes through
abbrev pub is_uncleared : Market → Bool
is_uncleared market = market.closed && (not market.orders_cleared || not market.market_cleared)

-- The two polls of a market, its orders' first
unfoldable pub clear_orders : ℕ → Exchange → Market → Option (Market × List Event)
clear_orders fuel exchange market =
    if market.orders_cleared
    then some (market, [])
    else elim (get_cleared_orders fuel exchange market.market_id 0) [
      | none ↦ none
      | some polled ↦ some (record market { orders_cleared = polled.done }, polled.events)
    ]

unfoldable pub clear_market : Exchange → Market → Market × List Event
clear_market exchange market =
    let polled = get_cleared_market exchange market.market_id in
    if market.market_cleared
    then (market, [])
    else (record market { market_cleared = polled.done }, polled.events)

unfoldable pub poll_closed : ℕ → Exchange → Market → Option (Market × List Event)
poll_closed fuel exchange market = elim (clear_orders fuel exchange market) [
  | none ↦ none
  | some (market', events) ↦
      (let (market'', more) = clear_market exchange market' in some (market'', events ++ more))
]

abbrev pub both :
    ℕ → Option (Market × List Event) → Option (Markets × List Event) → Option (Markets × List Event)
both key (some (market, events)) (some (ms, more)) = some ((key, market) ∷ ms, events ++ more)
both key _ _ = none

-- The loop over the markets
unfoldable pub poll_markets : ℕ → Exchange → Markets → Option (Markets × List Event)
poll_markets fuel exchange [] = some ([], [])
poll_markets fuel exchange (item ∷ ms) =
    let polled =
      if is_uncleared item.1 then poll_closed fuel exchange item.1 else some (item.1, []) in
    both (item.0) polled (poll_markets fuel exchange ms)

-- `poll_market_closure`
unfoldable pub poll_market_closure : ℕ → Exchange → Framework → Option Framework
poll_market_closure fuel exchange s =
    if exchange.paper_trade then some s else elim (poll_markets fuel exchange s.floor.markets) [
      | none ↦ none
      | some (ms, events) ↦ some (put_all events (record s { floor = set_markets ms s.floor }))
    ]
