-- ===== src/Simulated/Queue.antt =====
-- Fills are at prices that the order accepts, and wait for the volume queued ahead.
use flumine.Prelude.{
  ℕ, ◌≡◌, ap, ◌∙◌, inl, inr, true, false, List, [], ◌∷◌, arith, All, All-append, Bool-cases,
  if◌then◌else◌,
}
use flumine.Prelude.Int.{
  pos, ◌+ℤ◌, ◌-ℤ◌, ◌≤ℤ◌, ◌==ℤ◌, ltb_ℤ, max_ℤ, -ℤ_parts, -ℤ_zero, -ℤ_assoc, int_laws,
}
use flumine.Prelude.Decimal.{Price, Amount}
use flumine.Book.{PriceSize}
use flumine.Wap.{Fill}
use flumine.Order.{Side, OrderType, Simulated}
use flumine.Simulated.{
  update_matched, crosses, process_price_matched, calculate_process_traded, process_traded, half,
}

-- Every fill is at a price that the order accepts.
abbrev pub Accepts : Side → Price → Simulated → Type 0
Accepts side price s = All (λ (fill : Fill). crosses side price fill.price ≡ true) s.matched

update_matched-Accepts :
    (side : Side) (price : Price) (fill : Fill) (s : Simulated)
    → crosses side price fill.price ≡ true
    → Accepts side price s
    → Accepts side price (update_matched fill s)
unfolding update_matched
update_matched-Accepts side price fill s meets h =
    All-append (λ (f : Fill). crosses side price f.price ≡ true) s.matched (fill ∷ []) h (meets, tt)

-- A placement takes no rung at a price worse than the order's.
process_price_matched-Accepts :
    (side : Side) (time : ℕ) (price : Price) (left : Amount) (available : List PriceSize)
    (s : Simulated)
    → Accepts side price s
    → Accepts side price (process_price_matched side time price left available s)
unfolding process_price_matched
process_price_matched-Accepts side time price left [] s h = h
process_price_matched-Accepts side time price left (avail ∷ available) s h =
    elim (Bool-cases (left ==ℤ pos 0)) [
      | inl done ↦ rw done h
      | inr more ↦ elim (Bool-cases (crosses side price avail.price)) [
        | inl meets ↦
            rw (more, meets)
              (process_price_matched-Accepts side time price (max_ℤ (left -ℤ avail.size) (pos 0))
                available _ (update_matched-Accepts side price _ s meets h))
        | inr short ↦ rw (more, short) h
      ]
    ]

-- The traded volume at prices that the order accepts, halved item by item as the code does.
abbrev pub passing : Side → Price → List PriceSize → Amount
passing side price [] = pos 0
passing side price (item ∷ traded) =
    if crosses side price item.price
    then half item.size +ℤ passing side price traded
    else passing side price traded

half_nonneg : (a : Amount) → pos 0 ≤ℤ a → pos 0 ≤ℤ half a
unfolding half
half_nonneg a h = ground arith

passing_nonneg :
    (side : Side) (price : Price) (traded : List PriceSize)
    → All (λ (item : PriceSize). pos 0 ≤ℤ item.size) traded
    → pos 0 ≤ℤ passing side price traded
passing_nonneg side price [] h = omega arith
passing_nonneg side price (item ∷ traded) h = elim (Bool-cases (crosses side price item.price)) [
  | inl meets ↦
      rw meets (omega (int_laws, half_nonneg item.size h.0, passing_nonneg side price traded h.1))
  | inr short ↦ rw short (passing_nonneg side price traded h.1)
]

calculate_process_traded_waits :
    (time : ℕ) (order_type : OrderType) (price : Price) (size : Amount) (s : Simulated)
    → half size ≤ℤ s.piq
    → calculate_process_traded time order_type price size s ≡ record s { piq = s.piq -ℤ half size }
unfolding calculate_process_traded
calculate_process_traded_waits time order_type price size s waits =
    rw (not_through s.piq (half size) waits)
  where
    not_through : (a b : Amount) → b ≤ℤ a → ltb_ℤ (a -ℤ b) (pos 0) ≡ false
    not_through a b h = ground (arith, -ℤ_parts a b)

-- As long as the volume traded at acceptable prices does not exceed the queue ahead, nothing is
-- matched, and the queue shrinks by exactly that volume.
pub process_traded_waits :
    (side : Side) (time : ℕ) (order_type : OrderType) (price : Price) (traded : List PriceSize)
    (s : Simulated)
    → All (λ (item : PriceSize). pos 0 ≤ℤ item.size) traded
    → passing side price traded ≤ℤ s.piq
    → process_traded side time order_type price traded s
      ≡ record s { piq = s.piq -ℤ passing side price traded }
unfolding process_traded
process_traded_waits side time order_type price [] s h waits =
    ap (λ q. record s { piq = q }) (-ℤ_zero s.piq)
process_traded_waits side time order_type price (item ∷ traded) s h waits =
    elim (Bool-cases (crosses side price item.price)) [
      | inr short ↦
          rw short
            (process_traded_waits side time order_type price traded s h.1 (rw short at waits))
      | inl meets ↦
          let rest = passing side price traded in
          let waits' : half item.size +ℤ rest ≤ℤ s.piq = rw meets at waits in
          let rest_nonneg = passing_nonneg side price traded h.1 in
          rw
            (
              meets,
              calculate_process_traded_waits time order_type price item.size s (omega int_laws),
            )
            (process_traded_waits side time order_type price traded
                (record s { piq = s.piq -ℤ half item.size }) h.1 (omega int_laws)
              ∙ ap (λ q. record s { piq = q }) (-ℤ_assoc s.piq (half item.size) rest))
    ]
