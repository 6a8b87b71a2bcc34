-- ===== src/Settlement.antt =====
-- The profit of a simulated order (backtest/simulated.py `profit`).
pub mod Sides
use flumine.Prelude.{ℕ, ◌*◌, ◌-◌, Option, none, some, ◌==◌, ltb, if◌then◌else◌}
use flumine.Prelude.Int.{ℤ, pos, negate, scale, ◌-ℤ◌, ◌*ℤ◌}
use flumine.Prelude.Decimal.{Amount, round_div}
use flumine.Book.{RunnerStatus, winner, loser}
use flumine.Order.{Side, back, lay, Order}

-- `number_of_dead_heat_winners or 1`
abbrev pub winners_or_one : Option ℕ → ℕ
winners_or_one none = 1
winners_or_one (some n) = if n == 0 then 1 else n

-- The stake that a dead heat takes back, times the number of winners
unfoldable pub lost_stake : ℕ → Amount → Amount
lost_stake winners size =
    if winners == 2 then size else if ltb 2 winners then scale (winners - 1) size else pos 0

-- The profit of a back on a winner, in millionths and times the number of winners
unfoldable pub back_winnings : ℕ → Amount → ℤ → ℤ
back_winnings winners size average_price =
    size *ℤ (average_price -ℤ pos 100) -ℤ scale 100 (lost_stake winners size)

-- What a winner is for the side
abbrev pub for_side : Side → ℤ → ℤ
for_side back profit = profit
for_side lay profit = negate profit

-- `round(x, 2)` of millionths that a number of winners shares
unfoldable pub round_share : ℤ → ℕ → Amount
round_share profit winners = scale 100 (round_div profit (winners * 10_000))

abbrev pub on_winner : Side → ℕ → Amount → ℤ → Amount
on_winner side winners size average_price =
    round_share (for_side side (back_winnings winners size average_price)) winners

abbrev pub on_loser : Side → Amount → Amount
on_loser back size = negate size
on_loser lay size = size

-- `profit`, of the side, the runner's status, the winners, and what was matched
unfoldable pub profit : Side → Option RunnerStatus → Option ℕ → Amount → ℤ → Amount
profit side none winners size average_price = pos 0
profit side (some winner) winners size average_price =
    on_winner side (winners_or_one winners) size average_price
profit side (some loser) winners size average_price = on_loser side size
profit side (some _) winners size average_price = pos 0

abbrev pub order_profit : Order → Amount
order_profit order =
    profit order.side order.runner_status order.number_of_dead_heat_winners
      order.simulated.size_matched order.simulated.average_price_matched
