-- ===== src/Settlement/Sides.antt =====
-- The two sides of a bet.
use flumine.Prelude.{ℕ, ◌*◌, ◌≡◌, refl, ◌∙◌, ap, Option, none, some, arith}
use flumine.Prelude.Int.{ℤ, negate, scale}
use flumine.Prelude.Decimal.{Amount, round_div}
use flumine.Book.{RunnerStatus, active, removed, winner, loser}
use flumine.Order.{back, lay}
use flumine.Settlement.{winners_or_one, back_winnings, round_share, profit}

round_div-negate : (a : ℤ) (d : ℕ) → round_div (negate a) d ≡ negate (round_div a d)
unfolding round_div negate
round_div-negate a d = ground arith

scale-negate : (k : ℕ) (a : ℤ) → scale k (negate a) ≡ negate (scale k a)
unfolding scale negate
scale-negate k a = ground arith

round_share-negate : (a : ℤ) (n : ℕ) → round_share (negate a) n ≡ negate (round_share a n)
unfolding round_share
round_share-negate a n =
    ap (scale 100) (round_div-negate a (n * 10_000)) ∙ scale-negate 100 (round_div a (n * 10_000))

-- A lay makes exactly the loss of a back of the same size at the same price, whatever the status of
-- the runner and the number of winners of a dead heat.
profit-lay :
    (status : Option RunnerStatus) (winners : Option ℕ) (size : Amount) (average_price : ℤ)
    → profit lay status winners size average_price
      ≡ negate (profit back status winners size average_price)
unfolding profit
profit-lay none winners size average_price = unfold negate in refl
profit-lay (some active) winners size average_price = unfold negate in refl
profit-lay (some removed) winners size average_price = unfold negate in refl
profit-lay (some winner) winners size average_price =
    round_share-negate (back_winnings (winners_or_one winners) size average_price)
      (winners_or_one winners)
profit-lay (some loser) winners size average_price = unfold negate in ground arith
