-- ===== src/References/Roundtrip.antt =====
-- A reference leads back to its order and strategy.
use flumine.Prelude.{
  ℕ, zero, suc, ◌+◌, ◌≤◌, ◌≡◌, refl, ap, ap₂, sym, ◌∙◌, subst, true, false, some, List, [], ◌∷◌,
  ◌++◌, ◌==◌, arith, All, length, length-append, take, drop, ==_iff, if◌then◌else◌, Bool-cases, inl,
  inr, split_and,
}
use mathlib.Core.Bool.{true≢false}
use mathlib.Core.Option.{some-injective, none-ne-some}
use flumine.References.{
  Text, Strategy, strategy_name_hash_length, create_cheap_hash,
  is_valid_customer_order_ref_character, is_ref_character, set_sep, customer_order_ref,
  strategy_name_hash, ref_order_id, same_text, name_hash, insert_text, get_text, hashes_from,
  hashes,
}

same_text_refl : (t : Text) → same_text t t ≡ true
same_text_refl [] = refl
same_text_refl (c ∷ t) = ground (arith, same_text_refl t)

take_append : (n : ℕ) (xs ys : Text) → length xs ≡ n → take n (xs ++ ys) ≡ xs
take_append n [] ys h = rw (sym h) refl
take_append zero (x ∷ xs) ys h = absurd (omega (arith, h))
take_append (suc n) (x ∷ xs) ys h = ap (λ l. x ∷ l) (take_append n xs ys (omega (arith, h)))

drop_past : (n c : ℕ) (xs ys : Text) → length xs ≡ n → drop (suc n) (xs ++ c ∷ ys) ≡ ys
drop_past n c [] ys h = rw (sym h) refl
drop_past zero c (x ∷ xs) ys h = absurd (omega (arith, h))
drop_past (suc n) c (x ∷ xs) ys h = drop_past n c xs ys (omega (arith, h))

ref_order_id-customer_order_ref :
    (h : Text) (c : ℕ) (id : Text)
    → length h ≡ 13
    → ref_order_id (customer_order_ref h (c ∷ []) id) ≡ id
unfolding customer_order_ref ref_order_id
ref_order_id-customer_order_ref h c id size = drop_past 13 c h id size

strategy_name_hash-customer_order_ref :
    (h sep id : Text) → length h ≡ 13 → strategy_name_hash (customer_order_ref h sep id) ≡ h
unfolding customer_order_ref strategy_name_hash
strategy_name_hash-customer_order_ref h sep id size = take_append 13 h (sep ++ id) size

length-customer_order_ref :
    (h : Text) (c : ℕ) (id : Text)
    → length h ≡ 13
    → length (customer_order_ref h (c ∷ []) id) ≡ 14 + length id
unfolding customer_order_ref
length-customer_order_ref h c id size = omega (arith, length-append h (c ∷ id), size)

length-take : (n : ℕ) (xs : Text) → n ≤ length xs → length (take n xs) ≡ n
length-take zero xs h = refl
length-take (suc n) [] h = absurd (omega (arith, h))
length-take (suc n) (x ∷ xs) h = ap suc (length-take n xs (omega (arith, h)))

-- A separator that the setter takes is one character.
set_sep-one : (new_sep sep : Text) → set_sep new_sep ≡ some sep → (c : ℕ) × (sep ≡ c ∷ [])
unfolding set_sep is_valid_customer_order_ref_character
set_sep-one [] sep e = absurd (none-ne-some sep e)
set_sep-one (c ∷ []) sep e = elim (Bool-cases (is_ref_character c)) [
  | inl valid ↦ (c, sym (some-injective (c ∷ []) sep (rw valid at e)))
  | inr invalid ↦ absurd (none-ne-some sep (rw invalid at e))
]
set_sep-one (c ∷ d ∷ t) sep e = absurd (none-ne-some sep e)

same_text-eq : (a b : Text) → same_text a b ≡ true → a ≡ b
same_text-eq [] [] h = refl
same_text-eq [] (d ∷ b) h = absurd (true≢false (sym h))
same_text-eq (c ∷ a) [] h = absurd (true≢false (sym h))
same_text-eq (c ∷ a) (d ∷ b) h =
    let (first, rest) = split_and (c == d) (same_text a b) h in
    ap₂ (λ x xs. x ∷ xs) ((==_iff c d).0 first) (same_text-eq a b rest)

get_text-insert :
    (key new : Text) (s : Strategy) (dict : List (Text × Strategy))
    → get_text key (insert_text new s dict)
      ≡ (if same_text key new then some s else get_text key dict)
get_text-insert key new s [] = refl
get_text-insert key new s (item ∷ dict) = elim (Bool-cases (same_text new item.0)) [
  | inl same ↦ rw same (
      rw (same_text-eq new item.0 same)
        (elim (Bool-cases (same_text key item.0)) [ inl e ↦ rw e refl | inr e ↦ rw e refl ]))
  | inr other ↦ rw other (elim (Bool-cases (same_text key item.0)) [
    | inl here ↦
        (let e = same_text-eq key item.0 here in
          let apart : same_text key new ≡ false = (elim (Bool-cases (same_text key new)) [
            | inl same ↦ absurd (
                true≢false (
                  sym (subst (λ t. same_text t item.0 ≡ true) (same_text-eq key new same) here)
                  ∙ other))
            | inr apart ↦ apart
          ]) in
          rw (here, apart) refl)
    | inr there ↦ rw there (get_text-insert key new s dict)
  ])
]

module _ (hexdigest : Text → Text) (s : Strategy) where
  -- Strategies of other hashes leave the entry alone.
  hashes_from-other :
      (dict : List (Text × Strategy)) (after : List Strategy)
      → All (λ t. same_text (name_hash hexdigest s) (name_hash hexdigest t) ≡ false) after
      → get_text (name_hash hexdigest s) (hashes_from hexdigest dict after)
        ≡ get_text (name_hash hexdigest s) dict
  unfolding hashes_from
  hashes_from-other dict [] others = refl
  hashes_from-other dict (t ∷ after) others =
      hashes_from-other (insert_text (name_hash hexdigest t) t dict) after others.1
      ∙ get_text-insert (name_hash hexdigest s) (name_hash hexdigest t) t dict
      ∙ rw others.0 refl

  hashes_from-has :
      (dict : List (Text × Strategy)) (before after : List Strategy)
      → All (λ t. same_text (name_hash hexdigest s) (name_hash hexdigest t) ≡ false) after
      → get_text (name_hash hexdigest s) (hashes_from hexdigest dict (before ++ s ∷ after)) ≡ some s
  unfolding hashes_from
  hashes_from-has dict [] after others =
      hashes_from-other (insert_text (name_hash hexdigest s) s dict) after others
      ∙ get_text-insert (name_hash hexdigest s) (name_hash hexdigest s) s dict
      ∙ rw (same_text_refl (name_hash hexdigest s)) refl
  hashes_from-has dict (t ∷ before) after others =
      hashes_from-has (insert_text (name_hash hexdigest t) t dict) before after others

-- What the exchange sends back of an order: its id, and the way to its strategy.
pub record IsReadBack (hexdigest : Text → Text) (strategies : List Strategy) (s : Strategy)
    (id ref : Text) : Type 0 where
  pub order_id : ref_order_id ref ≡ id
  pub strategy : get_text (strategy_name_hash ref) (hashes hexdigest strategies) ≡ some s
  pub size : length ref ≡ 14 + length id

-- Where digests have at least 13 characters, the reference of an order with a separator that the
-- setter took is read back whatever the order's id is: its characters from the 15th on are the id, and
-- its first 13 lead to the order's strategy, if no strategy added later has the same name hash.
pub customer_order_ref-IsReadBack :
    (hexdigest : Text → Text) (before after : List Strategy) (s : Strategy) (new_sep sep id : Text)
    → ((t : Text) → strategy_name_hash_length ≤ length (hexdigest t))
    → All (λ t. same_text (name_hash hexdigest s) (name_hash hexdigest t) ≡ false) after
    → set_sep new_sep ≡ some sep
    → IsReadBack hexdigest
        (before ++ s ∷ after)
        s
        id
        (customer_order_ref (name_hash hexdigest s) sep id)
unfolding hashes name_hash create_cheap_hash
customer_order_ref-IsReadBack hexdigest before after s new_sep sep id long others e =
    let h = name_hash hexdigest s in
    let (c, one) = set_sep-one new_sep sep e in
    let size = length-take 13 (hexdigest s.name) (long s.name) in
    record {
      order_id =
          subst (λ t. ref_order_id (customer_order_ref h t id) ≡ id) (sym one)
            (ref_order_id-customer_order_ref h c id size);
      strategy =
          ap (λ k. get_text k (hashes hexdigest (before ++ s ∷ after)))
            (strategy_name_hash-customer_order_ref h sep id size)
          ∙ hashes_from-has hexdigest s [] before after others;
      size =
          subst (λ t. length (customer_order_ref h t id) ≡ 14 + length id) (sym one)
            (length-customer_order_ref h c id size);
    }
