-- ===== src/Tests/Exchanges.antt =====
-- The simulated execution on examples.
use flumine.Prelude.{◌≡◌, refl, true, none, some, arith}
use flumine.Book.{MarketStatus, winner}
use flumine.Order.{back}
use flumine.Prelude.Int.{pos, scale, ◌-ℤ◌, ◌*ℤ◌}
use flumine.Prelude.Decimal.{round_div}
use flumine.Settlement.{profit, back_winnings, lost_stake, round_share}
use flumine.Simulated.{PlaceTerms, error_in_order, place, place_response, refuse_void}
use flumine.Blotter.{new_blotter}
use flumine.Controls.Hourly.{new_count}
use flumine.Execution.{Exchange, place_one}
use flumine.Execution.Placement.{IsEnded, place_one-IsEnded}
use flumine.Trade.{get_runner_context}
use flumine.Trade.Completion.{OthersComplete}
use flumine.Tests.{some_book, some_world, live_order}

-- The exchange while the market is suspended.
abbrev suspended_exchange : Exchange
suspended_exchange = record {
  world = some_world;
  book = record some_book { status = MarketStatus.suspended };
  blotter = new_blotter;
  next_id = 50;
  bet_id = 99;
  count = new_count;
}

abbrev some_terms : PlaceTerms
some_terms = record { market_version = none; best_price_execution = true }

others-OthersComplete : OthersComplete 1 some_world
others-OthersComplete p listed other = ground arith

place_one-IsEnded_example :
    (x' : Exchange) × (place_one some_terms 1 suspended_exchange ≡ some x') × IsEnded 1 1 x'.world
place_one-IsEnded_example =
    place_one-IsEnded some_terms 1 suspended_exchange (refuse_void error_in_order live_order).0
      (refuse_void error_in_order live_order).1 (unfold place in refl)
      (unfold refuse_void place_response in refl) others-OthersComplete
      (unfold get_runner_context in (refl, tt))

-- 5.00 at 3.00 win 10.00, and 2.50 in a dead heat of two.
profit_run : profit back (some winner) none (pos 50_000) (pos 300) ≡ pos 100_000
unfolding profit back_winnings lost_stake round_share round_div scale ◌-ℤ◌ ◌*ℤ◌
profit_run = refl

dead_heat_run : profit back (some winner) (some 2) (pos 50_000) (pos 300) ≡ pos 25_000
unfolding profit back_winnings lost_stake round_share round_div scale ◌-ℤ◌ ◌*ℤ◌
dead_heat_run = refl
