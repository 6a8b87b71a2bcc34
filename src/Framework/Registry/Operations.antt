-- ===== src/Framework/Registry/Operations.antt =====
-- The operations on the registry of markets, and the reports, keep it well formed.
use flumine.Prelude.{
  ℕ, ◌≡◌, refl, sym, ◌∙◌, subst, false, ◌||◌, Option, none, some, List, [], ◌∷◌, ◌==◌, arith, All,
  contains, Distinct, Bool-cases, Option-cases, inl, inr, ==_iff,
}
use mathlib.Core.Option.{some-injective, none-ne-some}
use flumine.Prelude.Dict.{Dict, lookup, insert, drop_key}
use flumine.Process.{Floor}
use flumine.Markets.{Market, Markets, add_market, open_market}

abbrev pub keys {ℓ} : {A : Type ℓ} → Dict A → List ℕ
keys [] = []
keys (item ∷ d) = item.0 ∷ keys d

-- Each market is listed once, under its id.
pub record IsRegistry (ms : Markets) : Type 0 where
  pub ids : All (λ item. item.1.market_id ≡ item.0) ms
  pub distinct : Distinct (keys ms)

contains-insert :
    {A : Type 0} (j k : ℕ) (v : A) (d : Dict A)
    → contains j (keys (insert k v d)) ≡ (contains j (keys d) || j == k)
contains-insert j k v [] = ground arith
contains-insert j k v (item ∷ d) = ground (arith, contains-insert j k v d)

insert-Distinct :
    {A : Type 0} (k : ℕ) (v : A) (d : Dict A) → Distinct (keys d) → Distinct (keys (insert k v d))
insert-Distinct k v [] h = (refl, tt)
insert-Distinct k v (item ∷ d) h =
    ground (arith, insert-Distinct k v d h.1, contains-insert item.0 k v d)

insert-ids :
    (k : ℕ) (m : Market) (ms : Markets)
    → m.market_id ≡ k
    → All (λ item. item.1.market_id ≡ item.0) ms
    → All (λ item. item.1.market_id ≡ item.0) (insert k m ms)
insert-ids k m [] h a = (h, tt)
insert-ids k m (item ∷ ms) h a = elim (Bool-cases (k == item.0)) [
  | inl same ↦ rw same (h ∙ (==_iff k item.0).0 same, a.1)
  | inr other ↦ rw other (a.0, insert-ids k m ms h a.1)
]

pub insert-IsRegistry :
    (k : ℕ) (m : Market) (ms : Markets)
    → m.market_id ≡ k
    → IsRegistry ms
    → IsRegistry (insert k m ms)
insert-IsRegistry k m ms h r = record {
  ids = insert-ids k m ms h r.ids;
  distinct = insert-Distinct k m ms r.distinct;
}

drop_key-absent :
    {A : Type 0} (j k : ℕ) (d : Dict A)
    → contains j (keys d) ≡ false
    → contains j (keys (drop_key k d)) ≡ false
drop_key-absent j k [] h = refl
drop_key-absent j k (item ∷ d) h = ground (arith, drop_key-absent j k d)

drop_key-Distinct :
    {A : Type 0} (k : ℕ) (d : Dict A) → Distinct (keys d) → Distinct (keys (drop_key k d))
drop_key-Distinct k [] h = tt
drop_key-Distinct k (item ∷ d) h =
    ground (arith, drop_key-Distinct k d h.1, drop_key-absent item.0 k d h.0)

drop_key-ids :
    (k : ℕ) (ms : Markets)
    → All (λ item. item.1.market_id ≡ item.0) ms
    → All (λ item. item.1.market_id ≡ item.0) (drop_key k ms)
drop_key-ids k [] a = tt
drop_key-ids k (item ∷ ms) a = elim (Bool-cases (k == item.0)) [
  | inl same ↦ rw same a.1
  | inr other ↦ rw other (a.0, drop_key-ids k ms a.1)
]

pub drop_key-IsRegistry : (k : ℕ) (ms : Markets) → IsRegistry ms → IsRegistry (drop_key k ms)
drop_key-IsRegistry k ms r = record {
  ids = drop_key-ids k ms r.ids;
  distinct = drop_key-Distinct k ms r.distinct;
}

-- The market that a key finds has it as its id.
pub lookup-id :
    (k : ℕ) (m : Market) (ms : Markets) → IsRegistry ms → lookup k ms ≡ some m → m.market_id ≡ k
lookup-id k m ms r h = find ms r.ids h
  where
    find :
        (ns : Markets)
        → All (λ item. item.1.market_id ≡ item.0) ns
        → lookup k ns ≡ some m
        → m.market_id ≡ k
    find [] a e = absurd (none-ne-some m e)
    find (item ∷ ns) a e = elim (Bool-cases (k == item.0)) [
      | inl same ↦
          subst (λ n. n.market_id ≡ k) (some-injective _ _ (rw same at e))
            (a.0 ∙ sym ((==_iff k item.0).0 same))
      | inr other ↦ find ns a.1 (rw other at e)
    ]

pub add_market-IsRegistry :
    (k : ℕ) (m : Market) (ms : Markets)
    → m.market_id ≡ k
    → IsRegistry ms
    → IsRegistry (add_market k m ms)
unfolding add_market open_market
add_market-IsRegistry k m ms h r = elim (Option-cases (lookup k ms)) [
  | inl missing ↦ rw (add_market, missing) (insert-IsRegistry k m ms h r)
  | inr (old, known) ↦
      rw (add_market, known)
        (insert-IsRegistry k (open_market old) ms (lookup-id k old ms r known) r)
]

-- The floor's registry is well formed.
abbrev pub IsListed : Floor → Type 0
IsListed f = IsRegistry f.markets

-- The outcome, where nothing is raised, is listed.
abbrev pub Lists : Option Floor → Type 0
Lists none = Unit
Lists (some f) = IsListed f
