-- ===== src/Tests/Reports.antt =====
-- Reports of the order stream, replacements and the middleware on examples.
use flumine.Prelude.{
  All, inl, sym, subst, ℕ, zero, suc, ◌<◌, ◌≤◌, contains, Option, ◌≡◌, refl, true, false, none,
  some, List, [], ◌∷◌, arith,
}
use flumine.Prelude.Int.{pos, ◌+ℤ◌}
use flumine.Book.{MarketStatus, PriceSize, MarketBook, RunnerStatus}
use flumine.Order.{back, limit, Persistence, bet, ExchangeStatus}
use flumine.Controls
use flumine.Controls.Hourly.{new_count}
use flumine.Package.{Package, new_package, package_orders}
use flumine.Blotter.{Blotter, new_blotter}
use flumine.Markets.{get_order}
use flumine.Process.{Report, Floor, Settings, process_report}
use flumine.Process.Adoption.{IsAdopted, process_report-IsAdopted}
use flumine.Execution.{Exchange}
use flumine.Execution.Replacing.{execute_replace}
use flumine.Execution.Replacing.Refusal.{execute_replace_shut}
use flumine.Simulated.Sound.{fresh-IsSound}
use flumine.Middleware.{
  Removal, StreamingUpdate, Middleware, process_runners, knows_removal, process_streaming_update,
  run_middleware,
}
use flumine.Analytics.{
  RunnerAnalytics, new_analytics, volume_onto, volume_dict, calculate_traded, process_runner,
}
use flumine.Analytics.Volume.{size_at, volume_at, calculate_traded_lem}
use flumine.Middleware.Orders.{is_hit}
use flumine.Middleware.Tracking.{IsTracked}
use flumine.Middleware.Updating.{new_removals, run_middleware-IsTracked}
use flumine.BetfairExecution.{
  Answer, betfair_error, responded, ReportStatus, CancelInstructionReport, execution_helper,
  order_lookup, store_order, pop_order, process_cancel,
}
use flumine.BetfairExecution.Retries.{
  retries_left, execution_helper-ends, execution_helper-delivers,
}
use flumine.BetfairExecution.Lookups.{DistinctBets}
use flumine.BetfairExecution.Cancelling.{Answered, is_settled, process_cancel-settles}
use flumine.Tests.{live_order, some_book, some_world, some_runner}

-- A resting back of 5.00 at 3.00 that nothing is known of.
abbrev some_report : Report
some_report = record {
  strategy_hash = 77;
  order_id = 8;
  market_id = 10;
  selection_id = 7;
  handicap = 0;
  side = back;
  order_type = some (limit 300 (pos 50_000) Persistence.lapse);
  current = record {
    bet_id = bet 500;
    status = ExchangeStatus.executable;
    average_price_matched = pos 0;
    size_matched = pos 0;
    size_remaining = pos 50_000;
  };
}

abbrev some_floor : Floor
some_floor = record { world = some_world; markets = []; next_trade = 2 }

abbrev some_settings : Settings
some_settings = record { hashes = λ h. some 1; is_simulated = false; async_place_orders = false }

process_report-IsAdopted_example :
    (g : Floor) × (process_report some_settings some_report some_floor ≡ some g)
    × IsAdopted some_report 2 g
process_report-IsAdopted_example =
    process_report-IsAdopted some_settings some_report some_floor (unfold get_order in refl) refl
      refl refl refl

abbrev shut_exchange : Exchange
shut_exchange = record {
  world = some_world;
  book = record some_book { status = MarketStatus.suspended };
  blotter = new_blotter;
  next_id = 50;
  bet_id = 99;
  count = new_count;
}

abbrev some_replacements : Package
some_replacements = new_package 10 (1 ∷ []) Controls.replace 0 false none

execute_replace_shut_example :
    execute_replace
      (record { market_version = none; best_price_execution = true })
      some_replacements
      shut_exchange
    ≡ none
execute_replace_shut_example =
    execute_replace_shut (record { market_version = none; best_price_execution = true })
      some_replacements shut_exchange 1 [] (unfold package_orders in refl) refl

abbrev some_analytics : RunnerAnalytics
some_analytics = record (new_analytics some_runner) { p_v = (300, pos 40_000) ∷ [] }

abbrev some_volume : List PriceSize
some_volume = record { price = 300; size = pos 90_000 } ∷ []

abbrev some_removal : Removal
some_removal = record { selection_id = 8; handicap = 0; adjustment_factor = 1_000 }

-- Analytics that know 4.00 traded at 3.00, and volumes by now of 9.00 there.
calculate_traded_lem_example :
    (volume_at 300 some_analytics.p_v +ℤ size_at 300 (calculate_traded some_volume some_analytics).0
      ≡ volume_at 300 (volume_dict some_volume))
    × ((calculate_traded some_volume some_analytics).1 ≡ volume_dict some_volume)
calculate_traded_lem_example =
    calculate_traded_lem 300 some_volume some_analytics (omega arith)
      (unfold volume_onto in omega arith) (refl, refl) (unfold volume_onto in (refl, refl))

-- A book in which runner 8 is removed, with a reduction of 10 per cent.
abbrev removal_book : MarketBook
removal_book = record some_book {
  runners =
      some_runner
      ∷ record some_runner {
        selection_id = 8;
        status = RunnerStatus.removed;
        adjustment_factor = 1_000;
      }
      ∷ [];
}

abbrev some_update : StreamingUpdate
some_update = record { img = false; market_definition = true; rc = [] }

abbrev new_middleware : Middleware
new_middleware = record { markets = []; runner_removals = [] }

abbrev listed_blotter : Blotter
listed_blotter = record new_blotter { orders = (1, 1) ∷ []; live_orders = 1 ∷ [] }

removals_run : new_removals some_update removal_book new_middleware ≡ some_removal ∷ []
unfolding process_runners process_streaming_update process_runner knows_removal
removals_run = refl

run_middleware-IsTracked_example : IsTracked 300 (pos 50_000) Persistence.lapse live_order (
    (run_middleware
        (pos 100_000)
        some_update
        removal_book
        listed_blotter
        new_middleware
        some_world).1.orders
      1)
run_middleware-IsTracked_example =
    run_middleware-IsTracked (pos 100_000) some_update removal_book listed_blotter new_middleware
      some_world 1 (omega arith, inl refl)
      (record { type_eq = refl; sound = fresh-IsSound (pos 50_000) (omega arith) (omega arith) })
      (subst (All (λ r. is_hit 10 r live_order ≡ false)) (sym removals_run) (refl, tt))

-- The exchange that refuses one call and then answers.
abbrev second_time : ℕ → Answer ℕ
second_time zero = betfair_error
second_time (suc n) = responded n

execution_helper-ends_example :
    (r : Option ℕ) × (n : ℕ) × (execution_helper 4 second_time (1 ∷ []) some_replacements
      ≡ some (r, n))
    × (n ≤ suc (retries_left some_replacements))
execution_helper-ends_example =
    execution_helper-ends second_time 4 (1 ∷ []) some_replacements (omega arith)

first_fails : (j : ℕ) → j < 1 → second_time j ≡ betfair_error
first_fails zero h = refl
first_fails (suc j) h = absurd (omega arith)

execution_helper-delivers_example :
    execution_helper 4 second_time (1 ∷ []) (new_package 10 (1 ∷ []) Controls.cancel 0 false none)
    ≡ some (some 0, 2)
execution_helper-delivers_example =
    execution_helper-delivers second_time 1 10 1 0 [] Controls.cancel false none 0 (omega arith)
      first_fails refl

abbrev some_cancellation : Package
some_cancellation = new_package 10 (1 ∷ []) Controls.cancel 0 false none

-- The cancellation of what remains of order 1, whose bet id is 100.
abbrev cancelled_report : CancelInstructionReport
cancelled_report = record {
  status = ReportStatus.success;
  bet_id = bet 100;
  size_cancelled = some (pos 50_000);
}

report-Answered : Answered (cancelled_report ∷ []) (
    order_lookup shut_exchange.world.orders
      (package_orders shut_exchange.world.orders some_cancellation)
      [])
unfolding order_lookup store_order pop_order package_orders
report-Answered = (1, [], refl, tt)

distinct_bets :
    DistinctBets shut_exchange.world.orders
      (package_orders shut_exchange.world.orders some_cancellation)
unfolding package_orders
distinct_bets = (tt, tt)

process_cancel-settles_example :
    (x' : Exchange) × (process_cancel some_cancellation (cancelled_report ∷ []) shut_exchange
      ≡ some x')
    × ((o : ℕ)
        → contains o (package_orders shut_exchange.world.orders some_cancellation) ≡ true
        → is_settled o x'.world ≡ true)
process_cancel-settles_example =
    process_cancel-settles some_cancellation (cancelled_report ∷ []) shut_exchange distinct_bets
      report-Answered
