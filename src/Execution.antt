-- ===== src/Execution.antt =====
-- The simulated execution of execution/simulatedexecution.py, with the report handling of
-- execution/baseexecution.py `_order_logger`: packages of placements, cancellations and updates.
-- Replacements are in the child `Replacing`.
pub mod Leaving
pub mod Placement
pub mod Replacing
use flumine.Prelude.{
  ℕ, ◌+◌, Bool, true, false, Option, none, some, List, [], ◌∷◌, ◌==◌, if◌then◌else◌, length,
}
use flumine.Prelude.Int.{ℤ, pos, ◌==ℤ◌}
use flumine.Book.{MarketBook}
use flumine.Blotter.{Blotter}
use flumine.Order.{Order, PlaceReport, Persistence, OrderType, limit, order_size_remaining}
use flumine.Trade.{World, set_order, enter_trade, exit_trade, executable, execution_complete}
use flumine.Simulated.{
  ResponseStatus, success, failure, PlaceTerms, PlaceResponse, place, cancel, update,
}
use flumine.Controls.Hourly.{TransactionCount, add_transaction}
use flumine.Package.{Package, package_orders}

-- What an execution reaches: the store, the market's book and blotter, the id of the next order that
-- is created, the counter of bet ids and the client's count of transactions.
pub record Exchange : Type 0 where
  pub world : World
  pub book : MarketBook
  pub blotter : Blotter
  pub next_id : ℕ
  pub bet_id : ℕ
  pub count : TransactionCount

-- `_order_logger` for a placement; the text of a bet id is never empty
unfoldable pub log_place : PlaceResponse → ℕ → World → World
log_place response o w =
    set_order o
      (record (w.orders o) {
        place_response = some (record {
          average_price_matched = response.average_price_matched;
          size_matched = response.size_matched;
        });
        date_time_placed = some w.clock;
        bet_id = some response.bet_id;
      })
      w

-- The order after the report of its placement
unfoldable pub settle_place : ResponseStatus → ℕ → World → World
settle_place success o w = executable o w
settle_place failure o w = execution_complete o w

-- One order of `execute_place`, in the context of its trade; none is an exception.
unfoldable pub place_one : PlaceTerms → ℕ → Exchange → Option Exchange
place_one terms o x =
    let t = (x.world.orders o).trade in
    let w = enter_trade t x.world in
    let bet_id = x.bet_id + 1 in
    elim (place terms x.book bet_id (w.orders o)) [
      | none ↦ none
      | some (response, order) ↦ some (record x {
        bet_id = bet_id;
        world =
            exit_trade t
              (settle_place response.status o (log_place response o (set_order o order w)));
      })
    ]

unfoldable pub place_each : PlaceTerms → List ℕ → Exchange → Option Exchange
place_each terms [] x = some x
place_each terms (o ∷ os) x = elim (place_one terms o x) [
  | none ↦ none
  | some x' ↦ place_each terms os x'
]

abbrev pub count_transactions : ℕ → Bool → Exchange → Exchange
count_transactions n failed x = record x { count = add_transaction n failed x.count }

-- `execute_place`
unfoldable pub execute_place : PlaceTerms → Package → Exchange → Option Exchange
execute_place terms p x = elim (place_each terms (package_orders x.world.orders p) x) [
  | none ↦ none
  | some x' ↦ some (count_transactions (length (package_orders x'.world.orders p)) false x')
]

-- The order after the report of its cancellation
unfoldable pub settle_cancel : ResponseStatus → ℕ → World → World
settle_cancel success o w =
    if order_size_remaining (w.orders o) ==ℤ pos 0 then execution_complete o w else executable o w
settle_cancel failure o w = executable o w

abbrev pub failures : ResponseStatus → ℕ
failures success = 0
failures failure = 1

-- One order of `execute_cancel`, with the number of failures
unfoldable pub cancel_one : ℕ → Exchange → Exchange × ℕ
cancel_one o x =
    let t = (x.world.orders o).trade in
    let w = enter_trade t x.world in
    let (response, order) = cancel x.book (w.orders o) in
    (
      record x { world = exit_trade t (settle_cancel response.status o (set_order o order w)) },
      failures response.status,
    )

unfoldable pub cancel_each : List ℕ → Exchange → Exchange × ℕ
cancel_each [] x = (x, 0)
cancel_each (o ∷ os) x =
    let (x', n) = cancel_one o x in let (x'', m) = cancel_each os x' in (x'', n + m)

-- `if failed_transaction_count`
abbrev pub count_failures : ℕ → Exchange → Exchange
count_failures n x = if n == 0 then x else count_transactions n true x

-- `execute_cancel`
unfoldable pub execute_cancel : Package → Exchange → Exchange
execute_cancel p x =
    let (x', n) = cancel_each (package_orders x.world.orders p) x in count_failures n x'

-- The persistence of the update instruction, which is the order's own.
abbrev pub instruction_persistence : OrderType → Option Persistence
instruction_persistence (limit price size persistence_type) = some persistence_type
instruction_persistence _ = none

-- One order of `execute_update`; making the instruction of an order that is no LIMIT order raises.
unfoldable pub update_one : ℕ → Exchange → Option (Exchange × ℕ)
update_one o x =
    let t = (x.world.orders o).trade in
    let w = enter_trade t x.world in
    elim (instruction_persistence (x.world.orders o).order_type) [
      | none ↦ none
      | some persistence_type ↦
          (let (response, order) = update x.book persistence_type (w.orders o) in
            some (
              record x { world = exit_trade t (executable o (set_order o order w)) },
              failures response.status,
            ))
    ]

unfoldable pub update_each : List ℕ → Exchange → Option (Exchange × ℕ)
update_each [] x = some (x, 0)
update_each (o ∷ os) x = elim (update_one o x) [
  | none ↦ none
  | some (x', n) ↦ elim (update_each os x') [ none ↦ none | some (x'', m) ↦ some (x'', n + m) ]
]

-- `execute_update`
unfoldable pub execute_update : Package → Exchange → Option Exchange
execute_update p x = elim (update_each (package_orders x.world.orders p) x) [
  | none ↦ none
  | some (x', n) ↦ some (count_failures n x')
]
