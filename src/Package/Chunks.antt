-- ===== src/Package/Chunks.antt =====
-- `chunks` cuts a list up.
use flumine.Prelude.{
  ℕ, zero, suc, ◌≤◌, ◌<◌, ◌≡◌, refl, ap, ◌∙◌, List, [], ◌∷◌, ◌++◌, arith, All, length, take, drop,
  length-drop, length-take-le, take-append-drop,
}
use flumine.Package.{chunks_loop, chunks}

module _ {ℓ} {A : Type ℓ} where
  abbrev pub join : List (List A) → List A
  join [] = []
  join (l ∷ ls) = l ++ join ls

  join-chunks_loop :
      (fuel : ℕ) (l : List A) (n : ℕ) → 0 < n → length l ≤ fuel → join (chunks_loop fuel l n) ≡ l
  unfolding chunks_loop
  join-chunks_loop zero [] n h enough = refl
  join-chunks_loop zero (x ∷ l) n h enough = elim enough [ ]
  join-chunks_loop (suc fuel) [] n h enough = refl
  join-chunks_loop (suc fuel) (x ∷ l) n h enough =
      ap (λ r. take n (x ∷ l) ++ r)
        (join-chunks_loop fuel (drop n (x ∷ l)) n h (omega (arith, length-drop n (x ∷ l))))
      ∙ take-append-drop n (x ∷ l)

  chunks_loop-bounds :
      (fuel : ℕ) (l : List A) (n : ℕ)
      → 0 < n
      → All (λ c. (0 < length c) × (length c ≤ n)) (chunks_loop fuel l n)
  unfolding chunks_loop
  chunks_loop-bounds zero l n h = tt
  chunks_loop-bounds (suc fuel) [] n h = tt
  chunks_loop-bounds (suc fuel) (x ∷ l) zero h = elim h [ ]
  chunks_loop-bounds (suc fuel) (x ∷ l) (suc n) h = (
    (omega arith, length-take-le (suc n) (x ∷ l)),
    chunks_loop-bounds fuel (drop (suc n) (x ∷ l)) (suc n) h,
  )

  -- For a positive size the chunks of a list hold its items in order, each once, and no chunk is
  -- empty or longer than the size.
  pub chunks_lem :
      (l : List A) (n : ℕ)
      → 0 < n
      → (join (chunks l n) ≡ l) × All (λ c. (0 < length c) × (length c ≤ n)) (chunks l n)
  unfolding chunks
  chunks_lem l n h =
      (join-chunks_loop (length l) l n h (omega arith), chunks_loop-bounds (length l) l n h)
