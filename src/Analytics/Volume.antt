-- ===== src/Analytics/Volume.antt =====
-- The volume traded between two updates of a runner.
use flumine.Prelude.{
  ℕ, ◌≡◌, refl, sym, ◌∙◌, ap, ap₂, inl, inr, true, false, Option, none, some, List, [], ◌∷◌, ◌++◌,
  arith, ◌==◌, Bool-cases, if◌then◌else◌,
}
use flumine.Prelude.Int.{
  pos, ◌+ℤ◌, ◌-ℤ◌, ◌≤ℤ◌, ltb_ℤ, int_laws, +ℤ_assoc, +ℤ_zero, zero_+ℤ, eq_of_parts, -ℤ_parts,
}
use flumine.Prelude.Decimal.{Price, Amount, IsRound, round2_self, -ℤ-IsRound}
use flumine.Prelude.Dict.{Dict, lookup, has_key, insert, lookup-insert}
use flumine.Book.{PriceSize}
use flumine.Analytics.{
  RunnerAnalytics, volume_onto, volume_dict, traded_at, traded_since, calculate_traded,
}

-- What a list holds at a price, and what a dict does.
abbrev pub size_at : Price → List PriceSize → Amount
size_at p [] = pos 0
size_at p (item ∷ items) = if p == item.price then item.size +ℤ size_at p items else size_at p items

abbrev pub or_zero : Option Amount → Amount
or_zero none = pos 0
or_zero (some size) = size

abbrev pub volume_at : Price → Dict Amount → Amount
volume_at p d = or_zero (lookup p d)

-- No key stands twice.
abbrev HasOnce : Dict Amount → Type 0
HasOnce [] = Unit
HasOnce (item ∷ items) = (has_key item.0 items ≡ false) × HasOnce items

has_key-insert :
    (j k : ℕ) (v : Amount) (d : Dict Amount)
    → has_key j (insert k v d) ≡ (if j == k then true else has_key j d)
has_key-insert j k v d = ground (arith, lookup-insert j k v d)

insert-HasOnce : (k : ℕ) (v : Amount) (d : Dict Amount) → HasOnce d → HasOnce (insert k v d)
insert-HasOnce k v [] h = (refl, tt)
insert-HasOnce k v (item ∷ items) h = elim (Bool-cases (k == item.0)) [
  | inl same ↦ rw same h
  | inr other ↦
      rw other (rw (has_key-insert item.0 k v items) (ground arith), insert-HasOnce k v items h.1)
]

volume_onto-HasOnce :
    (d : Dict Amount) (items : List PriceSize) → HasOnce d → HasOnce (volume_onto d items)
unfolding volume_onto
volume_onto-HasOnce d [] h = h
volume_onto-HasOnce d (item ∷ items) h =
    volume_onto-HasOnce (insert item.price item.size d) items
      (insert-HasOnce item.price item.size d h)

size_at-append :
    (p : Price) (xs ys : List PriceSize) → size_at p (xs ++ ys) ≡ size_at p xs +ℤ size_at p ys
size_at-append p [] ys = sym (zero_+ℤ (size_at p ys))
size_at-append p (x ∷ xs) ys = elim (Bool-cases (p == x.price)) [
  | inl same ↦ rw same (
      ap (λ r. x.size +ℤ r) (size_at-append p xs ys)
      ∙ sym (+ℤ_assoc x.size (size_at p xs) (size_at p ys)))
  | inr other ↦ rw other (size_at-append p xs ys)
]

traded_at_other :
    (p_v : Dict Amount) (p q : Price) (size : Amount)
    → (p == q) ≡ false
    → size_at p (traded_at p_v q size) ≡ pos 0
unfolding traded_at
traded_at_other p_v p q size h = ground arith

ground_eq : (p q : ℕ) → (p == q) ≡ true → p ≡ q
ground_eq p q h = ground arith

-- What a dict of volumes with distinct prices gives at a price.
abbrev traded_for : Dict Amount → Price → Option Amount → Amount
traded_for p_v p none = pos 0
traded_for p_v p (some size) = size_at p (traded_at p_v p size)

abbrev expected : Dict Amount → Price → Dict Amount → Amount
expected p_v p items = traded_for p_v p (lookup p items)

lookup_self :
    (p : Price) (item : ℕ × Amount) (items : Dict Amount)
    → (p == item.0) ≡ true
    → some item.1 ≡ lookup p (item ∷ items)
lookup_self p item items same = rw same

lookup_other :
    (p : Price) (item : ℕ × Amount) (items : Dict Amount)
    → (p == item.0) ≡ false
    → lookup p items ≡ lookup p (item ∷ items)
lookup_other p item items other = rw other

traded_since-absent :
    (p_v : Dict Amount) (p : Price) (items : Dict Amount)
    → has_key p items ≡ false
    → size_at p (traded_since p_v items) ≡ pos 0
unfolding traded_since
traded_since-absent p_v p [] h = refl
traded_since-absent p_v p (item ∷ items) h =
    size_at-append p (traded_at p_v item.0 item.1) (traded_since p_v items)
    ∙ rw
        (
          traded_at_other p_v p item.0 item.1 (ground arith),
          traded_since-absent p_v p items (ground arith),
        )
        (+ℤ_zero (pos 0))

expected_self :
    (p_v : Dict Amount) (p : Price) (item : ℕ × Amount) (items : Dict Amount)
    → (p == item.0) ≡ true
    → size_at p (traded_at p_v item.0 item.1) ≡ expected p_v p (item ∷ items)
expected_self p_v p item items same =
    ap₂ (λ q r. size_at q r) refl (ap (λ q. traded_at p_v q item.1) (sym (ground_eq p item.0 same)))
    ∙ ap (traded_for p_v p) (lookup_self p item items same)

expected_other :
    (p_v : Dict Amount) (p : Price) (item : ℕ × Amount) (items : Dict Amount)
    → (p == item.0) ≡ false
    → expected p_v p items ≡ expected p_v p (item ∷ items)
expected_other p_v p item items other = ap (traded_for p_v p) (lookup_other p item items other)

traded_since-expected :
    (p_v : Dict Amount) (p : Price) (items : Dict Amount)
    → HasOnce items
    → size_at p (traded_since p_v items) ≡ expected p_v p items
unfolding traded_since
traded_since-expected p_v p [] h = refl
traded_since-expected p_v p (item ∷ items) h =
    size_at-append p (traded_at p_v item.0 item.1) (traded_since p_v items)
    ∙ elim (Bool-cases (p == item.0)) [
      | inl same ↦
          ap (λ r. size_at p (traded_at p_v item.0 item.1) +ℤ r)
            (traded_since-absent p_v p items (rw (ground_eq p item.0 same) h.0))
          ∙ +ℤ_zero _
          ∙ expected_self p_v p item items same
      | inr other ↦
          ap (λ r. r +ℤ size_at p (traded_since p_v items))
            (traded_at_other p_v p item.0 item.1 other)
          ∙ zero_+ℤ _
          ∙ traded_since-expected p_v p items h.1
          ∙ expected_other p_v p item items other
    ]

grown_size : (old new : Amount) → Amount
grown_size old new = if ltb_ℤ (pos 0) (new -ℤ old) then new -ℤ old else pos 0

adds : (old new : Amount) → old ≤ℤ new → old +ℤ grown_size old new ≡ new
unfolding grown_size
adds old new h = elim (Bool-cases (ltb_ℤ (pos 0) (new -ℤ old))) [
  | inl more ↦ rw more (omega int_laws)
  | inr none_more ↦
      rw none_more (+ℤ_zero old ∙ eq_of_parts old new (ground (arith, -ℤ_parts new old)))
]

size_at-traded :
    (p : Price) (p_v : Dict Amount) (old new : Amount)
    → lookup p p_v ≡ some old
    → IsRound new
    → IsRound old
    → size_at p (traded_at p_v p new) ≡ grown_size old new
unfolding traded_at grown_size
size_at-traded p p_v old new e s r =
    ground (arith, round2_self (new -ℤ old) (-ℤ-IsRound new old s r), +ℤ_zero (new -ℤ old))

-- Growth between two volumes, either of which may be missing.
grows :
    (p : Price) (p_v : Dict Amount) (old new : Option Amount)
    → lookup p p_v ≡ old
    → pos 0 ≤ℤ or_zero old
    → or_zero old ≤ℤ or_zero new
    → IsRound (or_zero old)
    → IsRound (or_zero new)
    → or_zero old +ℤ traded_for p_v p new ≡ or_zero new
unfolding traded_at
grows p p_v none none e nonneg grown r s = +ℤ_zero (pos 0)
grows p p_v (some old) none e nonneg grown r s = +ℤ_zero old ∙ eq_of_parts old (pos 0) (omega arith)
grows p p_v none (some new) e nonneg grown r s = zero_+ℤ _ ∙ ground (arith, +ℤ_zero new)
grows p p_v (some old) (some new) e nonneg grown r s =
    ap (λ q. old +ℤ q) (size_at-traded p p_v old new e s r) ∙ adds old new grown

-- At a price whose volume has not shrunk, with volumes that are not negative and have two decimal
-- places, the volume known before and what counts as traded make up the new volume, which is known
-- from then on.
pub calculate_traded_lem :
    (p : Price) (traded_volume : List PriceSize) (a : RunnerAnalytics)
    → pos 0 ≤ℤ volume_at p a.p_v
    → volume_at p a.p_v ≤ℤ volume_at p (volume_dict traded_volume)
    → IsRound (volume_at p a.p_v)
    → IsRound (volume_at p (volume_dict traded_volume))
    → (volume_at p a.p_v +ℤ size_at p (calculate_traded traded_volume a).0
        ≡ volume_at p (volume_dict traded_volume))
      × ((calculate_traded traded_volume a).1 ≡ volume_dict traded_volume)
unfolding calculate_traded
calculate_traded_lem p traded_volume a nonneg grown old_round new_round =
    let c_v = volume_dict traded_volume in
    let e = traded_since-expected a.p_v p c_v (volume_onto-HasOnce [] traded_volume tt) in
    (
      ap (λ r. volume_at p a.p_v +ℤ r) e
          ∙ grows p a.p_v (lookup p a.p_v) (lookup p c_v) refl nonneg grown old_round new_round,
      refl,
    )
