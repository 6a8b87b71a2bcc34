-- ===== src/Prelude/Decimal.antt =====
-- Python's floats as exact decimals: a price counts hundredths, an amount of money counts
-- ten-thousandths of a currency unit, and a product of the two counts millionths.
use Prim.Native.Nat.{ℕ, ◌+◌, ◌*◌, ◌/◌, ◌%◌}
use mathlib.Core.Path.{◌≡◌}
use native.Mathlib.Omega.{arith}
use flumine.Prelude.Tests.{ltb, if◌then◌else◌}
use flumine.Prelude.Int.{ℤ, pos, ◌≤ℤ◌, pos_part, neg_part, sub_ℕ, ◌+ℤ◌, ◌-ℤ◌, min_ℤ, scale}

abbrev pub Price : Type 0
Price = ℕ

abbrev pub Amount : Type 0
Amount = ℤ

-- n / d to the nearest whole number, a tie to the even one; 0 for d = 0
unfoldable pub round_ℕ : ℕ → ℕ → ℕ
round_ℕ n d =
    let q = n / d in
    let r = n % d in if ltb (2 * r) d then q else if ltb d (2 * r) then q + 1 else q + q % 2

-- The same on a signed numerator.
unfoldable pub round_div : ℤ → ℕ → ℤ
unfolding round_ℕ
round_div a d = sub_ℕ (round_ℕ (pos_part a) d) (round_ℕ (neg_part a) d)

-- `round(x, 2)`: whole hundredths of a currency unit are multiples of a hundred
unfoldable pub round2 : Amount → Amount
unfolding round_ℕ
round2 a = sub_ℕ (100 * round_ℕ (pos_part a) 100) (100 * round_ℕ (neg_part a) 100)

-- `round(x, 2)` of a product, as an amount
unfoldable pub round_product : ℤ → Amount
unfolding round_ℕ
round_product a = sub_ℕ (100 * round_ℕ (pos_part a) 10000) (100 * round_ℕ (neg_part a) 10000)

-- (price - 1) * size, in millionths
unfoldable pub winnings : Price → Amount → ℤ
unfolding scale ◌-ℤ◌
winnings price size = scale price size -ℤ scale 100 size

-- The amount has no more than two decimal places.
abbrev pub IsRound : Amount → Type 0
IsRound a = (pos_part a % 100 ≡ 0) × (neg_part a % 100 ≡ 0)

pub round2_self : (a : Amount) → IsRound a → round2 a ≡ a
unfolding round2
round2_self a h = ground arith

pub round2-IsRound : (a : Amount) → IsRound (round2 a)
unfolding round2
round2-IsRound a = ground arith

pub +ℤ-IsRound : (a b : Amount) → IsRound a → IsRound b → IsRound (a +ℤ b)
unfolding ◌+ℤ◌
+ℤ-IsRound a b h k = ground arith

pub -ℤ-IsRound : (a b : Amount) → IsRound a → IsRound b → IsRound (a -ℤ b)
unfolding ◌-ℤ◌
-ℤ-IsRound a b h k = ground arith

pub min_ℤ-IsRound : (a b : Amount) → IsRound a → IsRound b → IsRound (min_ℤ a b)
unfolding min_ℤ
min_ℤ-IsRound a b h k = ground arith

-- Rounding stays on the same side of a round amount, and of 0.
pub round2_le : (a b : Amount) → IsRound b → a ≤ℤ b → round2 a ≤ℤ b
unfolding round2
round2_le a b h k = ground arith

pub round2_nonneg : (a : Amount) → pos 0 ≤ℤ a → pos 0 ≤ℤ round2 a
unfolding round2
round2_nonneg a h = ground arith
