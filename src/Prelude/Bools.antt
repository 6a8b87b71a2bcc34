-- ===== src/Prelude/Bools.antt =====
-- Laws of the Boolean operations.
use mathlib.Core.Path.{◌≡◌, refl, sym}
use mathlib.Core.Bool.{Bool, true, false, not, ◌&&◌, ◌||◌, true≢false}

pub stays_or :
    (a b c d : Bool) → (d ≡ true → (a || c) ≡ true) → (b || d) ≡ true → (a || (b || c)) ≡ true
stays_or true b c d h k = refl
stays_or false true c d h k = refl
stays_or false false c d h k = h k

pub moves_or :
    (a b c s : Bool) → (b ≡ true → (c || a) ≡ true) → (b || s) ≡ true → (a || (c || s)) ≡ true
moves_or true b c s h k = refl
moves_or false b true s h k = refl
moves_or false true false s h k = absurd (true≢false (sym (h refl)))
moves_or false false false s h k = k

pub split_and : (a b : Bool) → (a && b) ≡ true → (a ≡ true) × (b ≡ true)
split_and true b h = (refl, h)
split_and false b h = absurd (true≢false (sym h))

pub eq_false_of_not : (b : Bool) → not b ≡ true → b ≡ false
eq_false_of_not true h = absurd (true≢false (sym h))
eq_false_of_not false h = refl

pub or_assoc : (a b c : Bool) → (a || (b || c)) ≡ ((a || b) || c)
or_assoc true b c = refl
or_assoc false b c = refl

pub or_true : (a b : Bool) → a ≡ true → (a || b) ≡ true
or_true true b h = refl
or_true false b h = absurd (true≢false (sym h))

pub or_turn : (a b c : Bool) → ((a || b) || c) ≡ true → (b || (c || a)) ≡ true
or_turn true true c h = refl
or_turn true false true h = refl
or_turn true false false h = refl
or_turn false true c h = refl
or_turn false false true h = refl
or_turn false false false h = h

pub of_not : (b : Bool) → not b ≡ false → b ≡ true
of_not true h = refl
of_not false h = absurd (true≢false h)

pub neither : (a b : Bool) → (a || b) ≡ false → (a ≡ false) × (b ≡ false)
neither true b h = absurd (true≢false h)
neither false b h = (refl, h)
