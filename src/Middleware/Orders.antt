-- ===== src/Middleware/Orders.antt =====
-- The middleware keeps the account of every simulated limit order.
use flumine.Prelude.{
  ℕ, ◌<◌, ◌≡◌, refl, sym, ◌∙◌, ap, Bool, true, false, not, ◌&&◌, List, [], ◌∷◌, arith, ◌==◌, All,
  leb, if◌then◌else◌,
}
use flumine.Prelude.Int.{◌+ℤ◌}
use flumine.Prelude.Decimal.{Price, Amount}
use flumine.Wap.{Fill}
use flumine.Wap.Size.{IsFill, total}
use flumine.Order.{Order, Persistence, Simulated}
use flumine.Simulated.{remaining}
use flumine.Simulated.Sound.{IsSound}
use flumine.Simulated.Placing.{IsLimit, remaining-eq-room}
use flumine.Middleware.{
  Removal, calculate_reduction_factor, reduce_fills, reduce_order, remove_from,
}

least_price : (price factor : ℕ) → 0 < calculate_reduction_factor price factor
unfolding calculate_reduction_factor
least_price price factor = ground arith

reduce_fills-IsFill :
    (factor : ℕ) (fills : List Fill) → All IsFill fills → All IsFill (reduce_fills factor fills)
unfolding reduce_fills
reduce_fills-IsFill factor [] h = tt
reduce_fills-IsFill factor (fill ∷ fills) h = (
  record {
    price_pos = least_price fill.price factor;
    size_nonneg = h.0.size_nonneg;
    size_round = h.0.size_round;
  },
  reduce_fills-IsFill factor fills h.1,
)

total-reduce_fills :
    (factor : ℕ) (fills : List Fill) → total (reduce_fills factor fills) ≡ total fills
unfolding reduce_fills
total-reduce_fills factor [] = refl
total-reduce_fills factor (fill ∷ fills) =
    ap (λ r. fill.size +ℤ r) (total-reduce_fills factor fills)

reduce_order-IsSound :
    {size : Amount} (factor : ℕ) (s : Simulated)
    → IsSound size s
    → IsSound size (reduce_order factor s)
unfolding reduce_order
reduce_order-IsSound factor s sound = record {
  fills = reduce_fills-IsFill factor s.matched sound.fills;
  matched_eq = sound.matched_eq ∙ sym (total-reduce_fills factor s.matched);
  matched_nonneg = sound.matched_nonneg;
  cancelled_nonneg = sound.cancelled_nonneg;
  lapsed_nonneg = sound.lapsed_nonneg;
  voided_nonneg = sound.voided_nonneg;
  size_round = sound.size_round;
  matched_round = sound.matched_round;
  cancelled_round = sound.cancelled_round;
  lapsed_round = sound.lapsed_round;
  voided_round = sound.voided_round;
  within = sound.within;
}

-- The removed runner is the order's.
abbrev pub is_hit : ℕ → Removal → Order → Bool
is_hit market_id r order =
    order.market_id == market_id
    && order.selection_id == r.selection_id
    && order.handicap == r.handicap

pub pick_kept {ℓ ℓ'} :
    {A : Type ℓ} (P : A → Type ℓ') (live hit reduces : Bool) (x y z : A)
    → hit ≡ false
    → P x
    → P z
    → P (if not live then x else if hit then y else if reduces then z else x)
pick_kept P false hit reduces x y z h p q = p
pick_kept P true hit true x y z h p q = rw h q
pick_kept P true hit false x y z h p q = rw h p

-- The account of a limit order is kept, and as much of it remains as of the order before.
abbrev pub KeepsRest : Price → Amount → Persistence → Order → Order → Type 0
KeepsRest price size k before after =
    IsLimit price size k after × (remaining after ≡ remaining before)

module _ {price : Price} {size : Amount} {k : Persistence} where
  pub reduced-KeepsRest :
      (factor : ℕ) (order : Order)
      → IsLimit price size k order
      → KeepsRest price size k order
          (record order { simulated = reduce_order factor order.simulated })
  unfolding reduce_order
  reduced-KeepsRest factor order l =
      (kept, remaining-eq-room _ kept ∙ sym (remaining-eq-room order l))
    where
      kept : IsLimit price size k (record order { simulated = reduce_order factor order.simulated })
      kept = record {
        type_eq = l.type_eq;
        sound = reduce_order-IsSound factor order.simulated l.sound;
      }

  -- The removal of another runner keeps the account of a limit order and what remains of it.
  pub remove_from-IsLimit :
      (market_id : ℕ) (r : Removal) (order : Order)
      → is_hit market_id r order ≡ false
      → IsLimit price size k order
      → IsLimit price size k (remove_from market_id r order)
        × (remaining (remove_from market_id r order) ≡ remaining order)
  unfolding remove_from
  remove_from-IsLimit market_id r order other l =
      pick_kept (KeepsRest price size k order) order.is_simulated (is_hit market_id r order)
        (leb 250 r.adjustment_factor) _ _ _ other (l, refl)
        (reduced-KeepsRest r.adjustment_factor order l)
