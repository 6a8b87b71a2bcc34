-- ===== src/Execution/Replacing.antt =====
-- Replacements in the simulated execution, `execute_replace` of execution/simulatedexecution.py, and
-- `handler`.
pub mod Refusal
use flumine.Prelude.{
  ℕ, suc, ◌+◌, Bool, true, false, Option, none, some, List, [], ◌∷◌, ◌==◌, if◌then◌else◌, length,
}
use flumine.Prelude.Decimal.{Price, Amount}
use flumine.Order.{Order}
use flumine.Trade.{World, set_order, enter_trade, exit_trade, executable, execution_complete}
use flumine.Simulated.{ResponseStatus, success, failure, PlaceTerms, PlaceResponse, place, cancel}
use flumine.Controls.{PackageType}
use flumine.Controls
use flumine.Creation.{create_order_replacement}
use flumine.Package.{Package, package_orders}
use flumine.Transaction.{Transaction, Result, returned, already_placed, update_error, place_valid}
use flumine.Execution.{
  Exchange, log_place, count_transactions, count_failures, failures, execute_place, execute_cancel,
  execute_update,
}

-- The order whose cancellation is reported
unfoldable pub settle_replaced : ResponseStatus → ℕ → World → World
settle_replaced success o w = execution_complete o w
settle_replaced failure o w = executable o w

-- The transaction of `market.place_order`.
abbrev pub market_transaction : World → Exchange → Transaction
market_transaction w x = record {
  desk = record { world = w; count = x.count };
  blotter = x.blotter;
  publish_time = x.book.publish_time;
  market_id = x.book.market_id;
  bet_delay = x.book.bet_delay;
  async_place_orders = false;
  pending_orders = false;
  pending_place = [];
  pending_cancel = [];
  pending_update = [];
  pending_replace = [];
  sent = [];
}

-- `market.place_order(replacement_order, execute=False)` and `executable`; none is an exception
unfoldable pub add_replacement : ℕ → World → Exchange → Option Exchange
add_replacement id w x = elim (place_valid id none false (market_transaction w x)) [
  | returned done t ↦ some (record x { world = executable id t.desk.world; blotter = t.blotter })
  | already_placed t ↦ none
  | update_error error t ↦ none
]

-- After the report of the replacement's placement
unfoldable pub settle_replacement : PlaceResponse → ℕ → ℕ → World → Exchange → Option Exchange
settle_replacement response o id w x = elim response.status [
  | success ↦ add_replacement id (log_place response id w) x
  | failure ↦ some (record x { world = executable o w })
]

-- The placing of the replacement, of the size that was cancelled; a size of None raises
unfoldable pub replace_cancelled :
    PlaceTerms → ℕ → Price → Option Amount → World → Exchange → Option Exchange
replace_cancelled terms o new_price none w x = none
replace_cancelled terms o new_price (some size) w x =
    let id = x.next_id in
    let bet_id = x.bet_id + 1 in
    let x' = record x { next_id = suc id; bet_id = bet_id } in
    elim (create_order_replacement true id (w.orders o).trade (w.orders o) new_price size w) [
      | none ↦ none
      | some w' ↦ elim (place terms x.book bet_id (w'.orders id)) [
        | none ↦ none
        | some (response, order) ↦ settle_replacement response o id (set_order id order w') x'
      ]
    ]

-- One order of `execute_replace`, with the number of failures; the new price of the instruction is
-- the order's
unfoldable pub replace_one : PlaceTerms → ℕ → Exchange → Option (Exchange × ℕ)
replace_one terms o x =
    let t = (x.world.orders o).trade in
    let w = enter_trade t x.world in
    elim (x.world.orders o).new_price [
      | none ↦ none
      | some new_price ↦
          (let (response, order) = cancel x.book (w.orders o) in
            let w' = settle_replaced response.status o (set_order o order w) in
            elim (replace_cancelled terms o new_price response.size_cancelled w' x) [
              | none ↦ none
              | some x' ↦
                  some (record x' { world = exit_trade t x'.world }, failures response.status)
            ])
    ]

unfoldable pub replace_each : PlaceTerms → List ℕ → Exchange → Option (Exchange × ℕ)
replace_each terms [] x = some (x, 0)
replace_each terms (o ∷ os) x = elim (replace_one terms o x) [
  | none ↦ none
  | some (x', n) ↦ elim (replace_each terms os x') [
    | none ↦ none
    | some (x'', m) ↦ some (x'', n + m)
  ]
]

-- `execute_replace`
unfoldable pub execute_replace : PlaceTerms → Package → Exchange → Option Exchange
execute_replace terms p x = elim (replace_each terms (package_orders x.world.orders p) x) [
  | none ↦ none
  | some (x', n) ↦
      some
        (count_failures n (count_transactions (length (package_orders x'.world.orders p)) false x'))
]

-- `handler`, without paper trading
unfoldable pub handler : Bool → Package → Exchange → Option Exchange
handler best_price_execution p x =
    let terms : PlaceTerms = (record {
      market_version = p.market_version;
      best_price_execution = best_price_execution;
    }) in
    elim p.package_type [
      | Controls.place ↦ execute_place terms p x
      | Controls.cancel ↦ some (execute_cancel p x)
      | Controls.update ↦ execute_update p x
      | Controls.replace ↦ execute_replace terms p x
    ]
