-- ===== src/Tests/Matching.antt =====
-- The matching of the simulation, the ladder and the chunks on examples.
use flumine.Prelude.{◌≡◌, ◌≤◌, refl, true, none, some, arith, inl, contains, All}
use flumine.Prelude.Int.{pos, ◌≤ℤ◌, ◌-ℤ◌, ◌+ℤ◌, min_ℤ}
use flumine.Prelude.Decimal.{round2}
use flumine.Book.{get_runner}
use flumine.Order.{back, Persistence, Order, fresh_simulated, Simulated}
use flumine.Simulated.{
  crosses, PlaceTerms, PlaceResponse, place, half, cancel, remaining, process_traded, or_else,
}
use flumine.Simulated.Tick.{tick}
use flumine.Simulated.Sound.{fresh-IsSound, room}
use flumine.Simulated.Matching.{IsRung}
use flumine.Simulated.Placing.{IsLimit, IsAnswer, place-IsAnswer}
use flumine.Simulated.Ticking.{Keeps, tick-IsSound, IsCancelled, cancel_lem}
use flumine.Simulated.Queue.{passing, process_traded_waits}
use flumine.Ladder.{prices, get_nearest_price}
use flumine.Ladder.Nearest.{contains-prices, get_nearest_price_lem}
use flumine.Ladder.Rounding.{dist}
use flumine.Tests.{some_order, some_runner, some_book, some_traded}

some_order-IsLimit : IsLimit 300 (pos 50_000) Persistence.lapse some_order
some_order-IsLimit = record {
  type_eq = refl;
  sound = fresh-IsSound (pos 50_000) (omega arith) (omega arith);
}

some_runner-found : get_runner 7 0 some_book.runners ≡ some some_runner
unfolding get_runner
some_runner-found = refl

some_room : pos 50_000 ≤ℤ room (pos 50_000) fresh_simulated
unfolding ◌-ℤ◌
some_room = omega arith

some_rungs : All IsRung some_runner.available_to_back × All IsRung some_runner.available_to_lay
some_rungs = (
  (record { price_pos = omega arith; size_nonneg = omega arith; size_round = omega arith }, tt),
  (record { price_pos = omega arith; size_nonneg = omega arith; size_round = omega arith }, tt),
)

abbrev some_terms : PlaceTerms
some_terms = record { market_version = none; best_price_execution = true }

place-IsAnswer_example :
    (answer : PlaceResponse × Order) × (place some_terms some_book 100 some_order ≡ some answer)
    × IsAnswer 300 (pos 50_000) Persistence.lapse answer
place-IsAnswer_example =
    place-IsAnswer some_terms some_book 100 some_order some_runner some_runner-found
      some_order-IsLimit (omega arith) some_room some_rungs.0 some_rungs.1

tick-IsSound_example : Keeps (pos 50_000) (tick (pos 100_000) some_book some_traded some_order)
tick-IsSound_example =
    tick-IsSound (pos 100_000) some_book some_traded some_order some_runner (omega arith)
      some_runner-found some_order-IsLimit (inl refl)

-- A reduction by 2.00.
abbrev reduced_order : Order
reduced_order = record some_order { size_reduction = some (pos 20_000) }

cancel_lem_example :
    IsCancelled 300
      (pos 50_000)
      Persistence.lapse
      reduced_order
      (min_ℤ
        (or_else reduced_order.size_reduction (remaining reduced_order))
        (remaining reduced_order))
      (cancel some_book reduced_order)
cancel_lem_example =
    cancel_lem some_book reduced_order refl
      (record { type_eq = refl; sound = fresh-IsSound (pos 50_000) (omega arith) (omega arith) })
      (omega arith) (omega arith)

-- 7.00 are queued ahead of the order; half of what was traded is 6.50.
abbrev queued : Simulated
queued = record fresh_simulated { piq = pos 70_000 }

queue_covers : passing back 300 some_traded ≤ℤ pos 70_000
unfolding half round2 ◌+ℤ◌ crosses
queue_covers = omega arith

process_traded_waits_example :
    process_traded back 1_000 some_order.order_type 300 some_traded queued
    ≡ record queued { piq = pos 70_000 -ℤ passing back 300 some_traded }
process_traded_waits_example =
    process_traded_waits back 1_000 some_order.order_type 300 some_traded queued
      (omega arith, (omega arith, tt)) queue_covers

min_listed : contains 101 prices ≡ true
min_listed = contains-prices 101

get_nearest_price_lem_example :
    (contains (get_nearest_price 2_013) prices ≡ true)
    × (dist 2_013 (get_nearest_price 2_013) ≤ dist 2_013 101)
get_nearest_price_lem_example = get_nearest_price_lem 2_013 101 min_listed
