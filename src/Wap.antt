-- ===== src/Wap.antt =====
-- `utils.wap`, the size and the size-weighted average price of a list of fills.
pub mod Size
use flumine.Prelude.{ℕ, suc, ◌≡◌, Bool, ◌||◌, List, [], ◌∷◌, ◌++◌, arith, if◌then◌else◌}
use flumine.Prelude.Int.{ℤ, pos, negsuc, ◌+ℤ◌, ◌==ℤ◌, negate, scale, int_laws}
use flumine.Prelude.Decimal.{Price, Amount, round2, round_div}

-- `[publish_time, price, size]`
pub record Fill : Type 0 where
  pub time : ℕ
  pub price : Price
  pub size : Amount

-- n / d to the nearest whole number, for a signed denominator
unfoldable pub round_quotient : ℤ → ℤ → ℤ
round_quotient n (pos d) = round_div n d
round_quotient n (negsuc d) = negate (round_div n (suc d))

-- The loop of `wap` over its accumulators `a`, the turnover, and `b`, the size.
unfoldable pub wap_loop : ℤ → Amount → List Fill → ℤ × Amount
wap_loop a b [] = (a, b)
wap_loop a b (fill ∷ fills) = wap_loop (a +ℤ scale fill.price fill.size) (b +ℤ fill.size) fills

-- The size matched, and the average price in hundredths.
unfoldable pub wap : List Fill → Amount × ℤ
unfolding wap_loop
wap [] = (pos 0, pos 0)
wap (fill ∷ fills) =
    let (a, b) = wap_loop (pos 0) (pos 0) (fill ∷ fills) in
    if b ==ℤ pos 0 || a ==ℤ pos 0 then (pos 0, pos 0) else (round2 b, round_quotient a b)
