-- ===== src/Tests/Orders.antt =====
-- Orders, trades, exposures and controls on examples.
use flumine.Prelude.{ℕ, ◌≡◌, refl, true, false, none, some, [], ◌∷◌, arith, contains}
use flumine.Prelude.Int.{pos, ◌≤ℤ◌, ◌-ℤ◌, ◌+ℤ◌, negate}
use flumine.Prelude.Decimal.{round2, winnings}
use flumine.Order.{
  back, limit, Persistence, Order, OrderStatus, bet, new_order, order_size_matched,
  order_size_remaining, size_remaining,
}
use flumine.Trade.{
  World, modify_order, TradeStatus, get_runner_context, execution_complete, executable,
}
use flumine.Trade.Completion.{live_in_context, OthersComplete, execution_complete-completes}
use flumine.Requests.{place_request, cancel_request}
use flumine.Requests.Statuses.{Logs}
use flumine.Requests.Lifecycle.{outcome, stop, go, places, writes, rests, cancels, Run-Logs}
use flumine.Exposure.{
  collect, add_order, exposures_of, calculate_matched_exposure, calculate_unmatched_exposure,
  sum_sizes, sum_winnings, add_unmatched, add_matched, get_exposures,
}
use flumine.Exposure.Placed.{HasRoundSizes, IsPlacedBack}
use flumine.Blotter.{new_blotter, set_item}
use flumine.Blotter.Caches.{IsIndexed, new_blotter-IsIndexed, set_item-IsIndexed}
use flumine.Controls.{
  exposure_limits, order_exposure_of, validate_size, validate_price, validate_min_size, Minimums,
  ExposureLimits, order_validation, strategy_exposure,
}
use flumine.Controls
use flumine.Controls.Limits.{
  IsValidLimit, order_validation-IsValidLimit, strategy_exposure-bounds_loss,
}
use flumine.Controls.Hourly.{
  TransactionCount, IsWithin, new_count, check_hour, safe, validate_count, validate_count_lem,
}
use flumine.Ladder.{prices, make_prices, arange, arange_loop}
use flumine.Tests.{some_order, live_order, some_world}

live_distinct : live_in_context some_world 1 ≡ 1 ∷ []
unfolding get_runner_context
live_distinct = refl

others-OthersComplete : OthersComplete 1 some_world
others-OthersComplete p listed other = ground arith

execution_complete-completes_example :
    let w' = execution_complete 1 some_world in
    ((w'.orders 1).status ≡ some OrderStatus.execution_complete)
    × ((w'.orders 1).size_reduction ≡ none)
    × ((w'.trades 1).status ≡ TradeStatus.complete_)
    × ((w'.trades 1).date_time_complete ≡ some 5_000)
    × (contains 1 (live_in_context w' 1) ≡ false)
execution_complete-completes_example =
    execution_complete-completes 1 some_world refl others-OthersComplete
      (unfold get_runner_context in (refl, tt))

some_order-IsPlacedBack : IsPlacedBack 300 (pos 50_000) Persistence.lapse some_order
unfolding order_size_matched order_size_remaining size_remaining round2 ◌-ℤ◌
some_order-IsPlacedBack = record {
  type_eq = refl;
  side_eq = refl;
  in_force = refl;
  unmatched = refl;
  remains = refl;
  priced = refl;
  sized = refl;
  rounded = omega arith;
}

live-HasRoundSizes : HasRoundSizes (live_order ∷ [])
unfolding order_size_matched order_size_remaining size_remaining round2 ◌-ℤ◌
live-HasRoundSizes = ((omega arith, omega arith), tt)

abbrev some_limits : ExposureLimits
some_limits = record { max_order_exposure = pos 100_000; max_selection_exposure = pos 1_000_000 }

some_passes : strategy_exposure some_limits true Controls.place (live_order ∷ []) some_order ≡ none
unfolding strategy_exposure exposure_limits order_exposure_of get_exposures collect add_order
    add_matched add_unmatched exposures_of calculate_matched_exposure calculate_unmatched_exposure
    sum_sizes sum_winnings winnings order_size_matched order_size_remaining size_remaining round2
    ◌-ℤ◌ ◌+ℤ◌ negate
some_passes = refl

strategy_exposure-bounds_loss_example :
    (pos 50_000 ≤ℤ pos 100_000)
    × (negate (pos 1_000_000)
        ≤ℤ (get_exposures none (live_order ∷ some_order ∷ [])).worst_possible_profit_on_lose)
strategy_exposure-bounds_loss_example =
    strategy_exposure-bounds_loss some_limits (live_order ∷ []) some_order live-HasRoundSizes
      some_order-IsPlacedBack some_passes

abbrev some_minimums : Minimums
some_minimums = record {
  min_bet_validation = true;
  min_bet_size = pos 20_000;
  min_bet_payout = pos 100_000;
  min_bsp_liability = pos 100_000;
}

some_valid : order_validation some_minimums back (limit 300 (pos 50_000) Persistence.lapse) ≡ none
unfolding order_validation validate_size validate_price validate_min_size prices make_prices arange
    arange_loop round2
some_valid = refl

order_validation-IsValidLimit_example : IsValidLimit some_minimums 300 (pos 50_000)
order_validation-IsValidLimit_example =
    order_validation-IsValidLimit some_minimums back 300 (pos 50_000) Persistence.lapse some_valid

abbrev some_count : TransactionCount
some_count = record new_count {
  next_hour = some 3_600_000_000;
  transaction_count = 9;
  current_transaction_count = 4;
}

validate_count_lem_example : IsWithin 5 20 3_600_000_000 some_count some_count
validate_count_lem_example =
    validate_count_lem 5 20 3_600_000_000 some_count some_count
      (record { part = omega arith; failed_part = omega arith; soon = omega arith }) refl
      (unfold validate_count check_hour safe in refl)

abbrev all_orders : ℕ → Order
all_orders o = live_order

set_item-IsIndexed_example : IsIndexed all_orders (set_item 1 (all_orders 1) new_blotter)
set_item-IsIndexed_example =
    set_item-IsIndexed all_orders new_blotter 1 (new_blotter-IsIndexed all_orders) refl

-- Order 1 is placed, gets a bet id, rests, and is cancelled by 1.00.
abbrev blank_world : World
blank_world = record some_world {
  orders = λ o. new_order false o 1 1 back (limit 300 (pos 50_000) Persistence.lapse) 10 7 0;
}

abbrev placed_world : World
placed_world = place_request 500 1 blank_world

abbrev known_world : World
known_world = modify_order 1 (λ order. record order { bet_id = some (bet 100) }) placed_world

abbrev resting_world : World
resting_world = executable 1 known_world

abbrev asked_world : World
asked_world = outcome resting_world (cancel_request (some (pos 10_000)) 1 resting_world)

Run-Logs_example : Logs asked_world
Run-Logs_example =
    Run-Logs blank_world asked_world
      (go blank_world placed_world asked_world (places 500 1 blank_world) (
        go placed_world known_world asked_world
          (writes 1 (λ order. record order { bet_id = some (bet 100) }) placed_world
            (λ order. (refl, refl)))
          (go known_world resting_world asked_world (rests 1 known_world) (
            go resting_world asked_world asked_world (cancels (some (pos 10_000)) 1 resting_world)
              (stop asked_world)))))
      (λ o. record { current = refl; follows = tt })
