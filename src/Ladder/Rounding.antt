-- ===== src/Ladder/Rounding.antt =====
-- Rounding to an increment, and the bands of the table.
use native.Mathlib.Nat.{
  div-add-mod, mod-lt, mul_assoc, add-mod-mod, mod-add-mod, mul-le-mul_left, mul-mod_right,
}
use flumine.Prelude.{
  ℕ, suc, ◌+◌, ◌-◌, ◌*◌, ◌/◌, ◌%◌, ◌≤◌, ◌<◌, ◌≡◌, sym, ◌∙◌, ap, true, false, List, [], ◌∷◌, arith,
  ltb, ◌⊎◌,
}
use flumine.Prelude.Decimal.{Price}
use flumine.Ladder.{max_price, round_to}
use flumine.Ladder.Table.{in_band, on_ladder}

-- How far apart two prices are.
abbrev pub dist : Price → Price → ℕ
dist a b = (a - b) + (b - a)

-- Bands that meet, each bound a whole number of increments, up to the greatest price.
abbrev pub IsTable : Price → List (Price × Price) → Type 0
IsTable cursor [] = cursor ≡ max_price
IsTable cursor ((cutoff, step) ∷ rows) =
    (0 < step) × (cursor < cutoff) × (cursor % step ≡ 0) × (cutoff % step ≡ 0) × IsTable cutoff rows

multiple : (t s : ℕ) → t % s ≡ 0 → t ≡ s * (t / s)
multiple t s h = omega (arith, div-add-mod t s)

-- Rounding moves a price by at most half an increment.
round_to_lem :
    (s p : ℕ)
    → 0 < s
    → (m : ℕ) × (2 * round_to s p + m ≡ 2 * p + s)
      × (m < 2 * s)
      × (round_to s p ≡ s * (round_to s p / s))
unfolding round_to
round_to_lem s p positive = (
  (2 * p + s) % (2 * s),
  ap (λ n. n + (2 * p + s) % (2 * s)) (sym (mul_assoc 2 s ((2 * p + s) / (2 * s))))
      ∙ div-add-mod (2 * p + s) (2 * s),
  mod-lt (2 * p + s) (omega arith),
  multiple (s * ((2 * p + s) / (2 * s))) s (mul-mod_right s ((2 * p + s) / (2 * s))),
)

-- Two multiples that differ lie an increment apart.
apart : (s a b : ℕ) → (s * a + s ≤ s * b) ⊎ (s * a ≡ s * b) ⊎ (s * b + s ≤ s * a)
apart s a b =
    ground (arith, mul-le-mul_left {m = suc a} {n = b} s, mul-le-mul_left {m = suc b} {n = a} s)

apart_of_mod : (s t r : ℕ) → t ≡ s * (t / s) → r ≡ s * (r / s) → (t + s ≤ r) ⊎ (t ≡ r) ⊎ (r + s ≤ t)
apart_of_mod s t r e f = omega (arith, apart s (t / s) (r / s))

pub round_to-mod : (s p : ℕ) → round_to s p % s ≡ 0
unfolding round_to
round_to-mod s p = mul-mod_right s ((2 * p + s) / (2 * s))

pub below_band : (x cursor cutoff step : Price) → in_band x cursor cutoff step ≡ true → x < cutoff
below_band x cursor cutoff step inside = ground arith

pub not_ltb : (a b : ℕ) → ltb a b ≡ false → b ≤ a
not_ltb a b h = ground arith

pub round_to_nearest : (s p t : ℕ) → 0 < s → t % s ≡ 0 → dist p (round_to s p) ≤ dist p t
round_to_nearest s p t positive h =
    let (m, e, small, whole) = round_to_lem s p positive in
    omega (arith, e, small, apart_of_mod s t (round_to s p) (multiple t s h) whole)

pub round_to_bounds :
    (s p lo hi : ℕ)
    → 0 < s
    → lo % s ≡ 0
    → hi % s ≡ 0
    → lo ≤ p
    → p ≤ hi
    → (lo ≤ round_to s p) × (round_to s p ≤ hi)
round_to_bounds s p lo hi positive h k below above =
    let (m, e, small, whole) = round_to_lem s p positive in
    (
      omega (arith, e, small, apart_of_mod s lo (round_to s p) (multiple lo s h) whole),
      omega (arith, e, small, apart_of_mod s hi (round_to s p) (multiple hi s k) whole),
    )

-- The difference of two multiples is one.
pub sub-mod : (s a b : ℕ) → a % s ≡ 0 → b % s ≡ 0 → b ≤ a → (a - b) % s ≡ 0
sub-mod s a b h k le =
    ap (λ n. n % s) (omega arith)
    ∙ ap (λ r. (a - b + r) % s) (sym k)
    ∙ add-mod-mod (a - b) b s
    ∙ ap (λ n. n % s) (omega arith)
    ∙ h

add-mod : (s a b : ℕ) → b ≤ a → (a - b) % s ≡ 0 → b % s ≡ 0 → a % s ≡ 0
add-mod s a b le h k =
    ap (λ n. n % s) (omega arith)
    ∙ sym (mod-add-mod (a - b) s b)
    ∙ ap (λ r. (r + b) % s) h
    ∙ ap (λ n. n % s) (omega arith)
    ∙ k

pub on_ladder_self :
    (cursor : Price) (rows : List (Price × Price))
    → IsTable cursor rows
    → on_ladder cursor cursor rows ≡ true
on_ladder_self cursor [] h = ground arith
on_ladder_self cursor ((cutoff, step) ∷ rows) h = ground arith

pub on_ladder-ge :
    (x cursor : Price) (rows : List (Price × Price))
    → IsTable cursor rows
    → on_ladder x cursor rows ≡ true
    → cursor ≤ x
on_ladder-ge x cursor [] h on = ground arith
on_ladder-ge x cursor ((cutoff, step) ∷ rows) h on = ground (arith, on_ladder-ge x cutoff rows h.4)

-- What lies in a band is a whole number of increments.
pub in_band-mod :
    (x cursor cutoff step : Price)
    → cursor % step ≡ 0
    → in_band x cursor cutoff step ≡ true
    → x % step ≡ 0
in_band-mod x cursor cutoff step h inside = add-mod step x cursor (ground arith) (ground arith) h
