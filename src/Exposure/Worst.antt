-- ===== src/Exposure/Worst.antt =====
-- The exposure of a selection is the worst loss.
use flumine.Prelude.{◌≡◌, ◌⊎◌, none, List, arith}
use flumine.Prelude.Int.{pos, ◌≤ℤ◌, negate, min_ℤ, max_ℤ}
use flumine.Prelude.Decimal.{Amount}
use flumine.Order.{Order}
use flumine.Exposure.{get_exposures, selection_exposure}

worst_lem :
    (win lose : Amount)
    → let e = max_ℤ (negate (min_ℤ win lose)) (pos 0) in
      (pos 0 ≤ℤ e)
      × (negate e ≤ℤ win)
      × (negate e ≤ℤ lose)
      × ((e ≡ pos 0) ⊎ (e ≡ negate win) ⊎ (e ≡ negate lose))
unfolding max_ℤ min_ℤ negate
worst_lem win lose = ground arith

-- The selection exposure is never negative; the strategy loses no more than it whether the selection
-- wins or loses, by the worst profits that `get_exposures` gives; and it is no more than that: it is
-- 0 or the loss of one of the two outcomes.
selection_exposure-worst :
    (orders : List Order)
    → let e = selection_exposure orders in
      let exposures = get_exposures none orders in
      (pos 0 ≤ℤ e)
      × (negate e ≤ℤ exposures.worst_possible_profit_on_win)
      × (negate e ≤ℤ exposures.worst_possible_profit_on_lose)
      × ((e ≡ pos 0)
          ⊎ (e ≡ negate exposures.worst_possible_profit_on_win)
          ⊎ (e ≡ negate exposures.worst_possible_profit_on_lose))
unfolding selection_exposure
selection_exposure-worst orders =
    let exposures = get_exposures none orders in
    worst_lem exposures.worst_possible_profit_on_win exposures.worst_possible_profit_on_lose
