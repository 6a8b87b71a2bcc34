-- ===== src/Tests/Backtests.antt =====
-- Backtests on examples.
use flumine.Prelude.{ℕ, ◌≡◌, refl, true, false, none, some, List, [], ◌∷◌, arith}
use flumine.Prelude.Int.{pos}
use flumine.Trade.{World}
use flumine.Controls
use flumine.Controls.Hourly.{new_count}
use flumine.Package.{new_package, package_orders, latencies, calc_simulated_delay}
use flumine.Blotter.{Blotter, new_blotter}
use flumine.Markets.{new_market}
use flumine.Execution.{execute_cancel, cancel_each}
use flumine.Execution.Replacing.{handler}
use flumine.Book.{MarketStatus}
use flumine.Backtest.{
  Waiting, Session, Setup, is_due, run_due, run_package, check_pending_packages, remove_package,
  remove_packages, process_live_orders, mux,
}
use flumine.Backtest.Cycles.{IsMuxed, mux-IsMuxed}
use flumine.Backtest.Queue.{Splits, with_queue, run_packages, check_pending_packages-Splits}
use flumine.Backtest.Live.{IsPass, process_live_orders_lem}
use flumine.Backtest.Run.{
  Snapshot, EventStream, run, run_group, run_groups, group_streams, add_to_event, run_markets,
  process_batches, process_snapshots, process_snapshot, process_close_market,
}
use flumine.Backtest.Ends.{IsIdle, AllIsolated, run-AllIsolated}
use flumine.Tests.{some_book, some_world}

-- Two streams whose books have the times 10, 30 and 20, 20.
abbrev two_streams : List (List ℕ)
two_streams = (10 ∷ 30 ∷ []) ∷ (20 ∷ 20 ∷ []) ∷ []

mux-IsMuxed_example :
    (out : List ℕ) × (mux (λ t. t) two_streams ≡ some out) × IsMuxed (λ t. t) two_streams out
mux-IsMuxed_example = mux-IsMuxed (λ t. t) two_streams ((omega arith, tt), ((omega arith, tt), tt))

-- The strategies of the examples do nothing until they finish.
abbrev idle_setup : Setup
idle_setup = record {
  latencies = latencies;
  best_price_execution = true;
  min_bsp_liability = pos 100_000;
  process_market_book = λ book s. s;
  process_orders = λ market_id s. s;
  process_closed_market = λ book s. s;
  finish = λ s. record s { next_id = 0 };
}

-- A cancellation that no order is left of, which is due, and one of another market.
abbrev some_queue : List Waiting
some_queue =
    record { id = 7; request = new_package 10 [] Controls.cancel 0 false none; created = 5_000 }
    ∷ record {
      id = 8;
      request = new_package 11 (1 ∷ []) Controls.cancel 0 false none;
      created = 5_000;
    }
    ∷ []

abbrev some_session : Session
some_session = record {
  world = some_world;
  markets = (10, new_market 10 (some some_book)) ∷ [];
  handler_queue = some_queue;
  next_package = 9;
  middleware = record { markets = []; runner_removals = [] };
  next_id = 50;
  bet_id = 99;
  count = new_count;
}

-- The session after the check at 0.9 seconds.
abbrev checked_session : Session
checked_session = record some_session {
  handler_queue =
      record {
        id = 8;
        request = new_package 11 (1 ∷ []) Controls.cancel 0 false none;
        created = 5_000;
      }
      ∷ [];
}

check_run : check_pending_packages idle_setup 900_000 10 some_session ≡ some checked_session
unfolding check_pending_packages run_due is_due run_package remove_packages remove_package handler
    execute_cancel cancel_each package_orders calc_simulated_delay
check_run = refl

check_pending_packages-Splits_example :
    (due : List Waiting) × (waiting : List Waiting) × Splits latencies 900_000 10 some_queue due
      waiting
    × (check_pending_packages idle_setup 900_000 10 some_session
        ≡ with_queue waiting (run_packages idle_setup due some_session))
check_pending_packages-Splits_example =
    check_pending_packages-Splits idle_setup 900_000 10 some_session (refl, (refl, tt))

-- Order 1 is live.
abbrev live_blotter : Blotter
live_blotter = record new_blotter { orders = (1, 1) ∷ []; live_orders = 1 ∷ [] }

process_live_orders_lem_example :
    (w' : World) × (b' : Blotter) × (process_live_orders live_blotter.live_orders some_world
        live_blotter
      ≡ some (w', b'))
    × IsPass live_blotter.live_orders some_world live_blotter w' b'
process_live_orders_lem_example = process_live_orders_lem some_world live_blotter (refl, tt)

abbrev shot_at : ℕ → Snapshot
shot_at epoch = record {
  epoch = epoch;
  book = some_book;
  update = record { img = true; market_definition = true; rc = [] };
}

abbrev idle_session : Session
idle_session = record some_session { handler_queue = [] }

-- A stream that closes a market which nobody listed.
abbrev closing_stream : EventStream
closing_stream = record {
  event_id = some 3;
  event_processing = true;
  batches =
      (
        record (shot_at 10) {
          book = record some_book { market_id = 12; status = MarketStatus.closed };
        },
        [],
      )
      ∷ [];
}

abbrev closed_session : Session
closed_session = record idle_session { next_id = 0; world = record some_world { clock = 1_000 } }

closing_run : run idle_setup (closing_stream ∷ []) idle_session ≡ some closed_session
unfolding run run_groups run_group group_streams add_to_event run_markets process_batches
    process_snapshots process_snapshot process_close_market check_pending_packages run_due
    remove_packages
closing_run = refl

run-AllIsolated_example :
    (t : Session) × AllIsolated idle_setup (group_streams (closing_stream ∷ []) []) idle_session t
    × IsIdle t
    × (closed_session ≡ idle_setup.finish t)
run-AllIsolated_example =
    run-AllIsolated idle_setup (closing_stream ∷ []) idle_session closed_session refl closing_run
