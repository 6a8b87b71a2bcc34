-- ===== src/Ladder/Table.antt =====
-- Membership in the ladder, read off the table of cutoffs.
use native.Mathlib.Nat.{mod-eq-sub-mod, mod-eq_of_lt}
use flumine.Prelude.{
  ℕ, zero, suc, ◌+◌, ◌-◌, ◌%◌, ◌≤◌, ◌<◌, ◌≡◌, ◌∙◌, ap, ap₂, Bool, ◌&&◌, ◌||◌, List, [], ◌∷◌, arith,
  ◌==◌, ltb, leb, contains, contains-append,
}
use flumine.Prelude.Decimal.{Price}
use flumine.Ladder.{max_price, arange_loop, arange, make_prices}

-- In the band from `cursor` to `cutoff`, a whole number of increments up.
abbrev pub in_band : Price → Price → Price → Price → Bool
in_band x cursor cutoff step = leb cursor x && ltb x cutoff && (x - cursor) % step == 0

abbrev pub on_ladder : Price → Price → List (Price × Price) → Bool
on_ladder x cursor [] = x == max_price
on_ladder x cursor ((cutoff, step) ∷ rows) = in_band x cursor cutoff step || on_ladder x cutoff rows

-- One increment further the remainder is the same.
mod-step : (x a s : ℕ) → 0 < s → a + s ≤ x → (x - a) % s ≡ (x - (a + s)) % s
mod-step x a s p q =
    mod-eq-sub-mod {n = x - a} {m = s} (omega arith) ∙ ap (λ n. n % s) (omega arith)

mod-short : (x a s : ℕ) → a ≤ x → x < a + s → (x - a) % s ≡ x - a
mod-short x a s p q = mod-eq_of_lt (omega arith)

contains-arange_loop :
    (x fuel start stop step : ℕ)
    → 0 < step
    → stop - start ≤ fuel
    → contains x (arange_loop fuel start stop step) ≡ in_band x start stop step
unfolding arange_loop
contains-arange_loop x zero start stop step h enough = ground arith
contains-arange_loop x (suc fuel) start stop step h enough = ground (
  arith,
  contains-arange_loop x fuel (start + step) stop step,
  mod-step x start step h,
  mod-short x start step,
)

pub contains-arange :
    (x start stop step : ℕ)
    → 0 < step
    → contains x (arange start stop step) ≡ in_band x start stop step
unfolding arange
contains-arange x start stop step h =
    contains-arange_loop x (stop - start) start stop step h (omega arith)

-- Every increment is positive.
abbrev pub IsStepped : List (Price × Price) → Type 0
IsStepped [] = Unit
IsStepped ((_, step) ∷ rows) = (0 < step) × IsStepped rows

-- A price is among those that `make_prices` lists if it is a whole number of increments up its band.
pub contains-make_prices :
    (x cursor : Price) (rows : List (Price × Price))
    → IsStepped rows
    → contains x (make_prices cursor rows) ≡ on_ladder x cursor rows
unfolding make_prices
contains-make_prices x cursor [] h = ground arith
contains-make_prices x cursor ((cutoff, step) ∷ rows) h =
    contains-append x (arange cursor cutoff step) (make_prices cutoff rows)
    ∙ ap₂ ◌||◌ (contains-arange x cursor cutoff step h.0) (contains-make_prices x cutoff rows h.1)
