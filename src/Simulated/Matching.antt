-- ===== src/Simulated/Matching.antt =====
-- Matching against the rungs of a book and against traded volume keeps the account.
use flumine.Prelude.{
  ℕ, ◌<◌, ◌≡◌, ap, inl, inr, true, List, [], ◌∷◌, arith, All, Bool-cases, if◌then◌else◌,
}
use flumine.Prelude.Int.{
  pos, pos_part, neg_part, ◌-ℤ◌, ◌≤ℤ◌, ◌==ℤ◌, ltb_ℤ, min_ℤ, max_ℤ, -ℤ_parts, int_laws,
}
use flumine.Prelude.Decimal.{
  Price, Amount, IsRound, round2, round2_self, round2_le, round2_nonneg, round2-IsRound, -ℤ-IsRound,
}
use flumine.Book.{PriceSize}
use flumine.Wap.{Fill}
use flumine.Wap.Size.{IsFill}
use flumine.Order.{Side, Persistence, OrderType, limit, Simulated, size_remaining}
use flumine.Simulated.{
  update_matched, crosses, process_price_matched, calculate_process_traded, process_traded, half,
}
use flumine.Simulated.Sound.{
  IsSound, room, room_nonneg, room-IsRound, size_remaining-eq-room, idle-IsSound,
  update_matched-IsSound, room-update_matched,
}

-- A rung at a positive price, of a size that is not negative and has two decimal places.
pub record IsRung (rung : PriceSize) : Type 0 where
  pub price_pos : 0 < rung.price
  pub size_nonneg : pos 0 ≤ℤ rung.size
  pub size_round : IsRound rung.size

-- What one rung leaves of an order, and what it gives.
abbrev left_after : Amount → Amount → Amount
left_after left avail = max_ℤ (left -ℤ avail) (pos 0)

abbrev taken : Amount → Amount → Amount
taken left avail = if left_after left avail ==ℤ pos 0 then left else avail

module _ (left avail : Amount) (l : pos 0 ≤ℤ left) (a : pos 0 ≤ℤ avail) where
  taken_bounds : (pos 0 ≤ℤ taken left avail) × (taken left avail ≤ℤ left)
  unfolding max_ℤ
  taken_bounds = ground (arith, -ℤ_parts left avail)

  left_after_lem : left_after left avail ≡ left -ℤ taken left avail
  unfolding max_ℤ
  left_after_lem = grind int_laws

  fits_after : (r : Amount) → left ≤ℤ r → left_after left avail ≤ℤ r -ℤ taken left avail
  fits_after r h =
      omega (int_laws, ap pos_part left_after_lem, ap neg_part left_after_lem, taken_bounds)

taken-IsRound : (left avail : Amount) → IsRound left → IsRound avail → IsRound (taken left avail)
taken-IsRound left avail l a = ground arith

module _ (side : Side) (time : ℕ) (price : Price) (size : Amount) where
  -- The fills of a placement fit into what is left of the order.
  pub process_price_matched-IsSound :
      (left : Amount) (available : List PriceSize) (s : Simulated)
      → All IsRung available
      → pos 0 ≤ℤ left
      → IsRound left
      → left ≤ℤ room size s
      → IsSound size s
      → IsSound size (process_price_matched side time price left available s)
  unfolding process_price_matched
  process_price_matched-IsSound left [] s rungs nonneg rounded fits sound = sound
  process_price_matched-IsSound left (avail ∷ available) s rungs nonneg rounded fits sound =
      let rung = rungs.0 in
      let bounds = taken_bounds left avail.size nonneg rung.size_nonneg in
      let even = taken-IsRound left avail.size rounded rung.size_round in
      let left_eq = left_after_lem left avail.size nonneg rung.size_nonneg in
      let fill : Fill = record { time = time; price = avail.price; size = taken left avail.size } in
      let good : IsFill fill = record {
        price_pos = rung.price_pos;
        size_nonneg = bounds.0;
        size_round = even;
      } in
      let fewer = room-update_matched size s fill sound good in
      rw (round2_self (taken left avail.size) even) (elim (Bool-cases (left ==ℤ pos 0)) [
        | inl done ↦ rw done sound
        | inr more ↦ elim (Bool-cases (crosses side price avail.price)) [
          | inl meets ↦
              rw (more, meets)
                (process_price_matched-IsSound (left_after left avail.size) available
                  (update_matched fill s) rungs.1 (rw left_eq (omega int_laws))
                  (rw left_eq (-ℤ-IsRound _ _ rounded even))
                  (rw fewer (fits_after left avail.size nonneg rung.size_nonneg (room size s) fits))
                  (update_matched-IsSound size s fill sound good (omega int_laws)))
          | inr short ↦ rw (more, short) sound
        ]
      ])

module _ (time : ℕ) (size : Amount) (order_price : Price) (persistence_type : Persistence)
    (price : Price) (positive : 0 < price) where
  abbrev order_type : OrderType
  order_type = limit order_price size persistence_type

  -- The fill that `calculate_process_traded` makes once the queue ahead is gone.
  traded_fill : Amount → Simulated → Fill
  traded_fill traded_size s = record {
    time = time;
    price = price;
    size = round2 (min_ℤ (size_remaining order_type s) (half traded_size -ℤ s.piq));
  }

  module _ (traded_size : Amount) (s : Simulated) (sound : IsSound size s)
      (through : ltb_ℤ (s.piq -ℤ half traded_size) (pos 0) ≡ true) where
    traded_fill_bounds :
        let x = min_ℤ (size_remaining order_type s) (half traded_size -ℤ s.piq) in
        (pos 0 ≤ℤ x) × (x ≤ℤ room size s)
    unfolding min_ℤ
    traded_fill_bounds = rw (size_remaining-eq-room sound order_price persistence_type) (
        ground (
          arith,
          room_nonneg sound,
          -ℤ_parts s.piq (half traded_size),
          -ℤ_parts (half traded_size) s.piq,
        ))

    traded_fill-IsFill : IsFill (traded_fill traded_size s)
    unfolding traded_fill
    traded_fill-IsFill = record {
      price_pos = positive;
      size_nonneg = round2_nonneg _ traded_fill_bounds.0;
      size_round = round2-IsRound _;
    }

    traded_fill_fits : (traded_fill traded_size s).size ≤ℤ room size s
    unfolding traded_fill
    traded_fill_fits = round2_le _ _ (room-IsRound sound) traded_fill_bounds.1

  calculate_process_traded-IsSound :
      (traded_size : Amount) (s : Simulated)
      → IsSound size s
      → IsSound size (calculate_process_traded time order_type price traded_size s)
  unfolding calculate_process_traded traded_fill
  calculate_process_traded-IsSound traded_size s sound =
      elim (Bool-cases (ltb_ℤ (s.piq -ℤ half traded_size) (pos 0))) [
        | inr queued ↦ rw queued (idle-IsSound s sound _ _ _)
        | inl through ↦
            let fill = traded_fill traded_size s in
            elim (Bool-cases (fill.size ==ℤ pos 0)) [
              | inl nothing ↦ rw (through, nothing) (idle-IsSound s sound _ _ _)
              | inr some_size ↦
                  rw (through, some_size)
                    (idle-IsSound _
                      (update_matched-IsSound size s fill sound
                        (traded_fill-IsFill traded_size s sound through)
                        (traded_fill_fits traded_size s sound through))
                      _ _ _)
            ]
      ]

  pub process_traded-IsSound :
      (side : Side) (traded : List PriceSize) (s : Simulated)
      → IsSound size s
      → IsSound size (process_traded side time order_type price traded s)
  unfolding process_traded
  process_traded-IsSound side [] s sound = sound
  process_traded-IsSound side (item ∷ traded) s sound =
      elim (Bool-cases (crosses side price item.price)) [
        | inl meets ↦ rw meets (
            process_traded-IsSound side traded _
              (calculate_process_traded-IsSound item.size s sound))
        | inr short ↦ rw short (process_traded-IsSound side traded s sound)
      ]
