-- ===== src/BetfairExecution/Lookups.antt =====
-- The lookup of a package's orders by their bet ids: what it holds, and what is popped from it.
use flumine.Prelude.{
  ℕ, ◌≡◌, refl, ap, subst, sym, ◌∙◌, Bool, true, false, not, ◌&&◌, ◌||◌, Option, none, some, List,
  [], ◌∷◌, ◌==◌, arith, All, contains, split_and, eq_false_of_not, or_assoc, or_turn, stays_or,
  Bool-cases, Option-cases, inl, inr,
}
use mathlib.Core.Option.{some-injective, none-ne-some}
use mathlib.Core.Bool.{true≢false}
use flumine.Order.{Order, BetId}
use flumine.BetfairExecution.{Lookup, same_key_bet, store_order, order_lookup, pop_order}

-- The orders of a lookup.
abbrev pub found : Lookup → List ℕ
found [] = []
found (item ∷ l) = item.1 ∷ found l

pub pop_order-found :
    (p o : ℕ) (b : BetId) (l l' : Lookup)
    → pop_order b l ≡ some (o, l')
    → contains p (found l) ≡ true
    → (p == o || contains p (found l')) ≡ true
unfolding pop_order
pop_order-found p o b [] l' e h = absurd (true≢false (sym h))
pop_order-found p o b (item ∷ l) l' e h = elim (Bool-cases (same_key_bet (some b) item.0)) [
  | inl hit ↦ moved (item.1, l) (rw (pop_order, hit) refl) h
  | inr miss ↦ elim (Option-cases (pop_order b l)) [
    | inl missing ↦ absurd (none-ne-some (o, l') (sym (gone miss missing) ∙ e))
    | inr (q, popped) ↦
        moved (q.0, item ∷ q.1) (rw (pop_order, miss, popped) refl)
          (stays_or (p == q.0) (p == item.1) (contains p (found q.1)) (contains p (found l))
            (pop_order-found p q.0 b l q.1 popped) h)
  ]
]
  where
    moved :
        (q : ℕ × Lookup)
        → pop_order b (item ∷ l) ≡ some q
        → (p == q.0 || contains p (found q.1)) ≡ true
        → (p == o || contains p (found l')) ≡ true
    moved q eq held =
        subst (λ v. (p == v.0 || contains p (found v.1)) ≡ true)
          (some-injective q (o, l') (sym eq ∙ e)) held

    gone :
        same_key_bet (some b) item.0 ≡ false → pop_order b l ≡ none → pop_order b (item ∷ l) ≡ none
    gone miss missing = rw (pop_order, miss, missing) refl

-- The bet ids of the orders differ.
abbrev pub DistinctBets : (ℕ → Order) → List ℕ → Type 0
DistinctBets orders [] = Unit
DistinctBets orders (o ∷ os) =
    All (λ p. same_key_bet (orders p).bet_id (orders o).bet_id ≡ false) os × DistinctBets orders os

abbrev is_absent : Option BetId → Lookup → Bool
is_absent key [] = true
is_absent key (item ∷ l) = not (same_key_bet key item.0) && is_absent key l

store_order-absent :
    (key key' : Option BetId) (o : ℕ) (l : Lookup)
    → same_key_bet key' key ≡ false
    → is_absent key' l ≡ true
    → is_absent key' (store_order key o l) ≡ true
unfolding store_order
store_order-absent key key' o [] h k = rw h refl
store_order-absent key key' o (item ∷ l) h k = elim (Bool-cases (same_key_bet key item.0)) [
  | inl hit ↦ rw hit k
  | inr miss ↦
      (let (first, rest) = split_and (not (same_key_bet key' item.0)) (is_absent key' l) k in
        rw (miss, first) (store_order-absent key key' o l h rest))
]

store_order-found :
    (key : Option BetId) (o p : ℕ) (l : Lookup)
    → is_absent key l ≡ true
    → contains p (found (store_order key o l)) ≡ (contains p (found l) || p == o)
unfolding store_order
store_order-found key o p [] h = ground arith
store_order-found key o p (item ∷ l) h =
    let (first, rest) = split_and (not (same_key_bet key item.0)) (is_absent key l) h in
    rw (eq_false_of_not (same_key_bet key item.0) first) (
      ap (λ b. p == item.1 || b) (store_order-found key o p l rest)
      ∙ or_assoc (p == item.1) (contains p (found l)) (p == o))

All-absent :
    (orders : ℕ → Order) (key : Option BetId) (o : ℕ) (os : List ℕ) (l : Lookup)
    → All (λ p. same_key_bet (orders p).bet_id key ≡ false) os
    → All (λ p. is_absent (orders p).bet_id l ≡ true) os
    → All (λ p. is_absent (orders p).bet_id (store_order key o l) ≡ true) os
All-absent orders key o [] l h k = tt
All-absent orders key o (p ∷ os) l h k =
    (store_order-absent key (orders p).bet_id o l h.0 k.0, All-absent orders key o os l h.1 k.1)

pub order_lookup-found :
    (orders : ℕ → Order) (p : ℕ) (os : List ℕ) (l : Lookup)
    → DistinctBets orders os
    → All (λ q. is_absent (orders q).bet_id l ≡ true) os
    → (contains p os || contains p (found l)) ≡ true
    → contains p (found (order_lookup orders os l)) ≡ true
unfolding order_lookup
order_lookup-found orders p [] l d a h = h
order_lookup-found orders p (o ∷ os) l d a h =
    order_lookup-found orders p os (store_order (orders o).bet_id o l) d.1
      (All-absent orders (orders o).bet_id o os l d.0 a.1)
      (rw (store_order-found (orders o).bet_id o p l a.0)
        (or_turn (p == o) (contains p os) (contains p (found l)) h))

pub All-absent_nil :
    (orders : ℕ → Order) (os : List ℕ) → All (λ q. is_absent (orders q).bet_id [] ≡ true) os
All-absent_nil orders [] = tt
All-absent_nil orders (o ∷ os) = (refl, All-absent_nil orders os)
