-- ===== src/Wap/Size.antt =====
-- The size that `wap` reports is the sum of the sizes, for fills at positive prices.
use flumine.Prelude.{ℕ, ◌<◌, ◌≡◌, refl, List, [], ◌∷◌, ◌++◌, arith, All}
use flumine.Prelude.Int.{ℤ, pos, ◌+ℤ◌, ◌≤ℤ◌, scale, +ℤ_zero, zero_+ℤ, +ℤ_comm, +ℤ_assoc, int_laws}
use flumine.Prelude.Decimal.{Amount, IsRound, round2_self, +ℤ-IsRound}
use flumine.Wap.{Fill, wap_loop, wap}

-- A fill at a positive price, of a size that is not negative and has two decimal places.
pub record IsFill (fill : Fill) : Type 0 where
  pub price_pos : 0 < fill.price
  pub size_nonneg : pos 0 ≤ℤ fill.size
  pub size_round : IsRound fill.size

abbrev pub total : List Fill → Amount
total [] = pos 0
total (fill ∷ fills) = fill.size +ℤ total fills

pub total_snoc :
    (fills : List Fill) (fill : Fill) → total (fills ++ fill ∷ []) ≡ total fills +ℤ fill.size
total_snoc [] fill = +ℤ_comm fill.size (pos 0)
total_snoc (f ∷ fills) fill = rw (total_snoc fills fill, +ℤ_assoc)

abbrev turnover : List Fill → ℤ
turnover [] = pos 0
turnover (fill ∷ fills) = scale fill.price fill.size +ℤ turnover fills

pub total-IsRound : (fills : List Fill) → All IsFill fills → IsRound (total fills)
total-IsRound [] h = omega arith
total-IsRound (f ∷ fills) h =
    +ℤ-IsRound f.size (total fills) h.0.size_round (total-IsRound fills h.1)

pub total_nonneg : (fills : List Fill) → All IsFill fills → pos 0 ≤ℤ total fills
total_nonneg [] h = omega arith
total_nonneg (f ∷ fills) h =
    let nonneg = h.0.size_nonneg in omega (int_laws, total_nonneg fills h.1)

scale_grows : (k : ℕ) (a : Amount) → 0 < k → pos 0 ≤ℤ a → a ≤ℤ scale k a
unfolding scale
scale_grows k a h p = grind arith

total-le-turnover : (fills : List Fill) → All IsFill fills → total fills ≤ℤ turnover fills
total-le-turnover [] h = omega arith
total-le-turnover (f ∷ fills) h = omega (
  int_laws,
  scale_grows f.price f.size h.0.price_pos h.0.size_nonneg,
  total-le-turnover fills h.1,
)

wap_loop_lem :
    (fills : List Fill) (a b : ℤ) → wap_loop a b fills ≡ (a +ℤ turnover fills, b +ℤ total fills)
unfolding wap_loop
wap_loop_lem [] a b = simp +ℤ_zero
wap_loop_lem (f ∷ fills) a b =
    simp +ℤ_assoc at (wap_loop_lem fills (a +ℤ scale f.price f.size) (b +ℤ f.size))

pub wap_size : (fills : List Fill) → All IsFill fills → (wap fills).0 ≡ total fills
unfolding wap
wap_size [] h = refl
wap_size (f ∷ fills) h = rw wap_loop_lem (
    simp zero_+ℤ (
      ground (
        arith,
        total-le-turnover (f ∷ fills) h,
        total_nonneg (f ∷ fills) h,
        round2_self (total (f ∷ fills)) (total-IsRound (f ∷ fills) h),
      )))
