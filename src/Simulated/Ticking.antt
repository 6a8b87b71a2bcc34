-- ===== src/Simulated/Ticking.antt =====
-- A market update and the cancellation keep the account of a simulated limit order.
use flumine.Prelude.{
  ℕ, ◌<◌, ◌≡◌, refl, sym, subst, ◌∙◌, ap, ◌⊎◌, inl, inr, Bool, true, false, not, ◌&&◌, some, List,
  arith, Bool-cases, Option-cases, ◌==◌,
}
use flumine.Prelude.Int.{pos, ◌+ℤ◌, ◌-ℤ◌, ◌≤ℤ◌, ◌==ℤ◌, min_ℤ, int_laws}
use flumine.Prelude.Decimal.{Price, Amount, IsRound, +ℤ-IsRound, min_ℤ-IsRound}
use flumine.Book.{PriceSize, RunnerBook, MarketBook, is_open, is_suspended, get_runner}
use flumine.Order.{Side, back, Persistence, OrderType, limit, Simulated, Order, take_sp}
use flumine.Simulated.{CancelResponse, remaining, or_else, cancel, cancel_open}
use flumine.Simulated.Tick.{
  TickResult, raised, ticked, finished, version_changed, is_lapse, tick_limit, tick, process_sp,
  reconcile, fill_at_sp, of_sp, tick_matching,
}
use flumine.Simulated.Sound.{
  IsSound, room, room_nonneg, room-IsRound, lapse-IsSound, idle-IsSound, update_matched-IsSound,
}
use flumine.Simulated.Matching.{process_traded-IsSound}
use flumine.Simulated.Placing.{IsLimit, remaining-eq-room}

-- The account after an update: an exception leaves none.
abbrev pub Keeps : Amount → TickResult → Type 0
Keeps size (raised s) = ⊥
Keeps size (ticked s) = IsSound size s
Keeps size (finished s) = IsSound size s

module _ {price : Price} {size : Amount} {k : Persistence} (positive : 0 < price) where
  tick_limit-IsSound :
      (book : MarketBook) (traded : List PriceSize) (order : Order)
      → IsLimit price size k order
      → IsSound size (tick_limit book traded price k order)
  unfolding tick_limit
  tick_limit-IsSound book traded order l =
      let s = order.simulated in
      let seen = idle-IsSound s l.sound s.piq (some book.version) s.bsp_reconciled in
      rw (remaining-eq-room order l, l.type_eq)
        (elim (Bool-cases (version_changed s.market_version book.version)) [
          | inr same ↦ rw same (
              process_traded-IsSound book.publish_time size price k price positive order.side traded
                s l.sound)
          | inl changed ↦ elim (Bool-cases (is_suspended book.status && is_lapse k)) [
            | inl lapses ↦ rw (changed, lapses) (lapse-IsSound _ seen)
            | inr stays ↦
                rw (changed, stays)
                  (process_traded-IsSound book.publish_time size price k price positive order.side
                    traded _ seen)
          ]
        ])

  sp_back-IsSound :
      (liability : Amount) (time : ℕ) (sp : Price) (order : Order)
      → 0 < sp
      → IsLimit price size k order
      → order.side ≡ back
      → Keeps size (of_sp order.simulated (reconcile liability time sp (limit price size k) order))
  unfolding reconcile fill_at_sp
  sp_back-IsSound liability time sp order sp_pos l backs =
      rw (backs, remaining-eq-room order l)
        (update_matched-IsSound size _ _ (idle-IsSound order.simulated l.sound _ _ true)
          (record {
            price_pos = sp_pos;
            size_nonneg = room_nonneg l.sound;
            size_round = room-IsRound l.sound;
          })
          (omega arith))

  process_sp-IsSound :
      (liability : Amount) (time : ℕ) (runner : RunnerBook) (order : Order)
      → IsLimit price size k order
      → order.side ≡ back
      → Keeps size (of_sp order.simulated (process_sp liability time runner order))
  unfolding process_sp
  process_sp-IsSound liability time runner order l backs = elim (Option-cases runner.actual_sp) [
    | inl unknown ↦ rw (unknown, process_sp) l.sound
    | inr (sp, known) ↦ elim (Bool-cases (sp == 0)) [
      | inl no_price ↦ rw (known, no_price) l.sound
      | inr priced ↦
          rw (known, priced)
            (simp l.type_eq (sp_back-IsSound liability time sp order (ground arith) l backs))
    ]
  ]

  pub tick_matching-IsSound :
      (book : MarketBook) (traded : List PriceSize) (order : Order)
      → IsLimit price size k order
      → Keeps size (tick_matching book traded order.order_type order)
  tick_matching-IsSound book traded order l =
      subst (λ t. Keeps size (tick_matching book traded t order)) (sym l.type_eq)
        (elim (Bool-cases (remaining order ==ℤ pos 0)) [
          | inl nothing ↦ rw nothing l.sound
          | inr something ↦ rw something (tick_limit-IsSound book traded order l)
        ])

-- An order that takes the starting price, where only a back may, is a back.
is_back :
    (order_type : OrderType) (a b : Bool) {side : Side}
    → (side ≡ back) ⊎ (take_sp order_type ≡ false)
    → (a && b && take_sp order_type) ≡ true
    → side ≡ back
is_back order_type a b kind h = ground arith

-- A market update keeps the account of a limit order at a positive price, whose runner the book
-- has: nothing is raised, and what was matched, cancelled, lapsed and voided comes to no more than
-- the size. The order is a back, or one that does not take the starting price.
pub tick-IsSound :
    {price : Price} {size : Amount} {k : Persistence} (liability : Amount) (book : MarketBook)
    (traded : List PriceSize) (order : Order) (runner : RunnerBook)
    → 0 < price
    → get_runner order.selection_id order.handicap book.runners ≡ some runner
    → IsLimit price size k order
    → (order.side ≡ back) ⊎ (take_sp order.order_type ≡ false)
    → Keeps size (tick liability book traded order)
unfolding tick
tick-IsSound {price} {size} {k} liability book traded order runner positive found l kind =
    elim (Bool-cases
      (not order.simulated.bsp_reconciled && book.bsp_reconciled && take_sp order.order_type)) [
        | inr matching ↦ rw matching (tick_matching-IsSound positive book traded order l)
        | inl reconciles ↦
            rw (reconciles, found, tick)
              (process_sp-IsSound positive liability book.publish_time runner order l (
                is_back order.order_type (not order.simulated.bsp_reconciled) book.bsp_reconciled
                  kind reconciles))
      ]

-- What a cancellation that takes `size` does.
pub record IsCancelled (price : Price) (size : Amount) (k : Persistence) (order : Order)
    (taken : Amount) (result : CancelResponse × Order) : Type 0 where
  pub reported : result.0.size_cancelled ≡ some taken
  pub left : remaining result.1 ≡ remaining order -ℤ taken
  pub kept : IsLimit price size k result.1

cancel_size-IsSound :
    {size : Amount} (s : Simulated) (x : Amount)
    → IsSound size s
    → IsRound x
    → pos 0 ≤ℤ x
    → x ≤ℤ room size s
    → IsSound size (record s { size_cancelled = s.size_cancelled +ℤ x })
cancel_size-IsSound s x sound rounded nonneg fits = record {
  fills = sound.fills;
  matched_eq = sound.matched_eq;
  matched_nonneg = sound.matched_nonneg;
  cancelled_nonneg = (let a = sound.cancelled_nonneg in omega int_laws);
  lapsed_nonneg = sound.lapsed_nonneg;
  voided_nonneg = sound.voided_nonneg;
  size_round = sound.size_round;
  matched_round = sound.matched_round;
  cancelled_round = +ℤ-IsRound _ _ sound.cancelled_round rounded;
  lapsed_round = sound.lapsed_round;
  voided_round = sound.voided_round;
  within = (let a = sound.within in omega int_laws);
}

min_ℤ_between : (a b : Amount) → pos 0 ≤ℤ a → pos 0 ≤ℤ b → (pos 0 ≤ℤ min_ℤ a b) × (min_ℤ a b ≤ℤ b)
unfolding min_ℤ
min_ℤ_between a b h k = ground arith

room_cancel :
    (size x : Amount) (s : Simulated)
    → room size (record s { size_cancelled = s.size_cancelled +ℤ x }) ≡ room size s -ℤ x
room_cancel size x s = omega int_laws

-- On an open market a cancellation of a limit order takes min(reduction, remaining), where a
-- missing or zero reduction asks for all that remains; it reports that size, exactly that much less
-- remains, and the account is kept. The reduction is not negative and has two decimal places.
pub cancel_lem :
    {price : Price} {size : Amount} {k : Persistence} (book : MarketBook) (order : Order)
    → is_open book.status ≡ true
    → IsLimit price size k order
    → IsRound (or_else order.size_reduction (remaining order))
    → pos 0 ≤ℤ or_else order.size_reduction (remaining order)
    → IsCancelled price size k order
        (min_ℤ (or_else order.size_reduction (remaining order)) (remaining order))
        (cancel book order)
unfolding cancel
cancel_lem {price} {size} {k} book order opened l rounded nonneg = rw opened (
    subst (λ t. IsCancelled price size k order x (cancel_open t order)) (sym l.type_eq)
      (record { reported = refl; left = fewer; kept = kept }))
  where
    x : Amount
    x = min_ℤ (or_else order.size_reduction (remaining order)) (remaining order)

    bounds : (pos 0 ≤ℤ x) × (x ≤ℤ room size order.simulated)
    bounds =
        rw (← remaining-eq-room order l)
          (min_ℤ_between _ _ nonneg (rw (remaining-eq-room order l) (room_nonneg l.sound)))

    s : Simulated
    s = order.simulated

    kept :
        IsLimit price size k
          (record order { simulated = record s { size_cancelled = s.size_cancelled +ℤ x } })
    kept = record {
      type_eq = l.type_eq;
      sound =
          cancel_size-IsSound s x l.sound
            (min_ℤ-IsRound _ _ rounded (rw (remaining-eq-room order l) (room-IsRound l.sound)))
            bounds.0 bounds.1;
    }

    fewer :
        remaining (record order { simulated = record s { size_cancelled = s.size_cancelled +ℤ x } })
        ≡ remaining order -ℤ x
    fewer =
        remaining-eq-room _ kept
        ∙ room_cancel size x s
        ∙ sym (ap (λ r. r -ℤ x) (remaining-eq-room order l))
