-- ===== src/Simulated/Sound.antt =====
-- The account of a simulated limit order: what was matched, cancelled, lapsed and voided never comes
-- to more than its size.
use flumine.Prelude.{
  ℕ, ◌≡◌, refl, sym, ◌∙◌, ap, Bool, Option, [], ◌∷◌, ◌++◌, arith, All, All-append,
}
use flumine.Prelude.Int.{pos, ◌+ℤ◌, ◌-ℤ◌, ◌≤ℤ◌, int_laws}
use flumine.Prelude.Decimal.{Price, Amount, IsRound, round2_self, +ℤ-IsRound, -ℤ-IsRound}
use flumine.Wap.{Fill}
use flumine.Wap.Size.{IsFill, total, total_snoc, wap_size}
use flumine.Order.{Persistence, limit, Simulated, fresh_simulated, size_remaining}
use flumine.Simulated.{update_matched}

-- The account of an order of the given size.
pub record IsSound (size : Amount) (s : Simulated) : Type 0 where
  pub fills : All IsFill s.matched
  pub matched_eq : s.size_matched ≡ total s.matched
  pub matched_nonneg : pos 0 ≤ℤ s.size_matched
  pub cancelled_nonneg : pos 0 ≤ℤ s.size_cancelled
  pub lapsed_nonneg : pos 0 ≤ℤ s.size_lapsed
  pub voided_nonneg : pos 0 ≤ℤ s.size_voided
  pub size_round : IsRound size
  pub matched_round : IsRound s.size_matched
  pub cancelled_round : IsRound s.size_cancelled
  pub lapsed_round : IsRound s.size_lapsed
  pub voided_round : IsRound s.size_voided
  pub within : s.size_matched +ℤ s.size_cancelled +ℤ s.size_lapsed +ℤ s.size_voided ≤ℤ size

-- What is left of the size, before rounding.
abbrev pub room : Amount → Simulated → Amount
room size s = size -ℤ s.size_matched -ℤ s.size_cancelled -ℤ s.size_lapsed -ℤ s.size_voided

module _ {size : Amount} {s : Simulated} (sound : IsSound size s) where
  pub room-IsRound : IsRound (room size s)
  room-IsRound =
      -ℤ-IsRound _ _
        (-ℤ-IsRound _ _
          (-ℤ-IsRound _ _ (-ℤ-IsRound _ _ sound.size_round sound.matched_round)
            sound.cancelled_round)
          sound.lapsed_round)
        sound.voided_round

  pub room_nonneg : pos 0 ≤ℤ room size s
  room_nonneg = let within = sound.within in omega int_laws

  -- On a sound account the rounding changes nothing.
  pub size_remaining-eq-room :
      (price : Price) (persistence_type : Persistence)
      → size_remaining (limit price size persistence_type) s ≡ room size s
  unfolding size_remaining
  size_remaining-eq-room price persistence_type = round2_self (room size s) room-IsRound

-- A new order's account.
pub fresh-IsSound : (size : Amount) → pos 0 ≤ℤ size → IsRound size → IsSound size fresh_simulated
fresh-IsSound size nonneg rounded = record {
  fills = tt;
  matched_eq = refl;
  matched_nonneg = omega arith;
  cancelled_nonneg = omega arith;
  lapsed_nonneg = omega arith;
  voided_nonneg = omega arith;
  size_round = rounded;
  matched_round = omega arith;
  cancelled_round = omega arith;
  lapsed_round = omega arith;
  voided_round = omega arith;
  within = omega int_laws;
}

module _ (size : Amount) (s : Simulated) (fill : Fill) (sound : IsSound size s)
    (good : IsFill fill) where
  pub size_matched-update_matched :
      (update_matched fill s).size_matched ≡ s.size_matched +ℤ fill.size
  unfolding update_matched
  size_matched-update_matched =
      wap_size (s.matched ++ fill ∷ [])
        (All-append IsFill s.matched (fill ∷ []) sound.fills (good, tt))
      ∙ total_snoc s.matched fill
      ∙ ap (λ m. m +ℤ fill.size) (sym sound.matched_eq)

  -- A fill that fits into what is left keeps the account.
  pub update_matched-IsSound : fill.size ≤ℤ room size s → IsSound size (update_matched fill s)
  unfolding update_matched
  update_matched-IsSound fits =
      let e = size_matched-update_matched in
      record {
        fills = All-append IsFill s.matched (fill ∷ []) sound.fills (good, tt);
        matched_eq =
            wap_size (s.matched ++ fill ∷ [])
              (All-append IsFill s.matched (fill ∷ []) sound.fills (good, tt));
        matched_nonneg =
            rw e (let a = sound.matched_nonneg in let b = good.size_nonneg in omega int_laws);
        cancelled_nonneg = sound.cancelled_nonneg;
        lapsed_nonneg = sound.lapsed_nonneg;
        voided_nonneg = sound.voided_nonneg;
        size_round = sound.size_round;
        matched_round = rw e (+ℤ-IsRound _ _ sound.matched_round good.size_round);
        cancelled_round = sound.cancelled_round;
        lapsed_round = sound.lapsed_round;
        voided_round = sound.voided_round;
        within = rw e (omega int_laws);
      }

  -- And leaves that much less.
  pub room-update_matched : room size (update_matched fill s) ≡ room size s -ℤ fill.size
  unfolding update_matched
  room-update_matched = rw size_matched-update_matched (omega int_laws)

module _ {size : Amount} (s : Simulated) (sound : IsSound size s) where
  pub void-IsSound : IsSound size (record s { size_voided = s.size_voided +ℤ room size s })
  void-IsSound = record {
    fills = sound.fills;
    matched_eq = sound.matched_eq;
    matched_nonneg = sound.matched_nonneg;
    cancelled_nonneg = sound.cancelled_nonneg;
    lapsed_nonneg = sound.lapsed_nonneg;
    voided_nonneg = (let a = room_nonneg sound in let b = sound.voided_nonneg in omega int_laws);
    size_round = sound.size_round;
    matched_round = sound.matched_round;
    cancelled_round = sound.cancelled_round;
    lapsed_round = sound.lapsed_round;
    voided_round = +ℤ-IsRound _ _ sound.voided_round (room-IsRound sound);
    within = (let a = sound.within in omega int_laws);
  }

  pub lapse-IsSound : IsSound size (record s { size_lapsed = s.size_lapsed +ℤ room size s })
  lapse-IsSound = record {
    fills = sound.fills;
    matched_eq = sound.matched_eq;
    matched_nonneg = sound.matched_nonneg;
    cancelled_nonneg = sound.cancelled_nonneg;
    lapsed_nonneg = (let a = room_nonneg sound in let b = sound.lapsed_nonneg in omega int_laws);
    voided_nonneg = sound.voided_nonneg;
    size_round = sound.size_round;
    matched_round = sound.matched_round;
    cancelled_round = sound.cancelled_round;
    lapsed_round = +ℤ-IsRound _ _ sound.lapsed_round (room-IsRound sound);
    voided_round = sound.voided_round;
    within = (let a = sound.within in omega int_laws);
  }

  pub room_void : room size (record s { size_voided = s.size_voided +ℤ room size s }) ≡ pos 0
  room_void = omega int_laws

  pub room_lapse : room size (record s { size_lapsed = s.size_lapsed +ℤ room size s }) ≡ pos 0
  room_lapse = omega int_laws

  -- The queue, the market version and the reconciliation are no part of the account.
  pub idle-IsSound :
      (piq : Amount) (version : Option ℕ) (reconciled : Bool)
      → IsSound size (record s { market_version = version; piq = piq; bsp_reconciled = reconciled })
  idle-IsSound piq version reconciled = record {
    fills = sound.fills;
    matched_eq = sound.matched_eq;
    matched_nonneg = sound.matched_nonneg;
    cancelled_nonneg = sound.cancelled_nonneg;
    lapsed_nonneg = sound.lapsed_nonneg;
    voided_nonneg = sound.voided_nonneg;
    size_round = sound.size_round;
    matched_round = sound.matched_round;
    cancelled_round = sound.cancelled_round;
    lapsed_round = sound.lapsed_round;
    voided_round = sound.voided_round;
    within = sound.within;
  }
