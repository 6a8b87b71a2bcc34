-- ===== src/Prelude/Dict.antt =====
-- A Python dict keyed by numbers, in insertion order, and a `defaultdict(list)`.
use Prim.Native.Nat.{ℕ}
use mathlib.Core.Path.{◌≡◌}
use mathlib.Core.Bool.{Bool, true, false}
use mathlib.Core.List.{List, [], ◌∷◌}
use mathlib.Core.Option.{Option, none, some}
use native.Mathlib.Omega.{arith}
use flumine.Prelude.Tests.{◌==◌, if◌then◌else◌}

-- The items of the dict.
abbrev pub Dict {ℓ} : Type ℓ → Type ℓ
Dict A = List (ℕ × A)

-- `list(d.values())`
abbrev pub values {ℓ} : {A : Type ℓ} → Dict A → List A
values [] = []
values (item ∷ rest) = item.1 ∷ values rest

-- `d.get(key)`
abbrev pub lookup {ℓ} : {A : Type ℓ} → ℕ → Dict A → Option A
lookup key [] = none
lookup key (item ∷ rest) = if key == item.0 then some item.1 else lookup key rest

-- Whether the dict has the key.
abbrev pub has_key {ℓ} : {A : Type ℓ} → ℕ → Dict A → Bool
has_key key items = elim (lookup key items) [ some _ ↦ true | none ↦ false ]

-- A key that is there keeps its place, a new one is the last.
abbrev pub insert {ℓ} : {A : Type ℓ} → ℕ → A → Dict A → Dict A
insert key value [] = (key, value) ∷ []
insert key value (item ∷ rest) =
    if key == item.0 then (item.0, value) ∷ rest else item ∷ insert key value rest

-- `del d[key]`, of a key that is there
abbrev pub drop_key {ℓ} : {A : Type ℓ} → ℕ → Dict A → Dict A
drop_key key [] = []
drop_key key (item ∷ rest) = if key == item.0 then rest else item ∷ drop_key key rest

pub lookup-insert {ℓ} :
    {A : Type ℓ} (key new : ℕ) (value : A) (items : Dict A)
    → lookup key (insert new value items) ≡ (if key == new then some value else lookup key items)
lookup-insert key new value [] = ground arith
lookup-insert key new value (item ∷ rest) = ground (arith, lookup-insert key new value rest)
