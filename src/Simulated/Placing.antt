-- ===== src/Simulated/Placing.antt =====
-- `Simulated.place` on a new limit order: it answers, keeps the account, and a refusal leaves
-- nothing of the order.
use flumine.Prelude.{ℕ, ◌≡◌, refl, ◌∙◌, ◌⊎◌, inl, inr, not, ◌&&◌, none, some, List, All, Bool-cases}
use flumine.Prelude.Int.{pos, ◌+ℤ◌, ◌≤ℤ◌}
use flumine.Prelude.Decimal.{Price, Amount}
use flumine.Book.{PriceSize, RunnerBook, MarketBook, is_open, get_runner}
use flumine.Order.{Side, back, lay, Persistence, limit, Order}
use flumine.Simulated.{
  ErrorCode, error_in_order, version_differs, is_removed, PlaceTerms, PlaceResponse, success,
  remaining, refuse_void, refuse_lapse, place_response, place_limit, place_on_runner, place,
  crosses, improves,
}
use flumine.Simulated.Sound.{
  IsSound, room, size_remaining-eq-room, void-IsSound, lapse-IsSound, room_void, room_lapse,
  idle-IsSound,
}
use flumine.Simulated.Matching.{IsRung, process_price_matched-IsSound}

-- An order of the given size whose account is kept.
pub record IsLimit (price : Price) (size : Amount) (k : Persistence) (order : Order) : Type 0 where
  pub type_eq : order.order_type ≡ limit price size k
  pub sound : IsSound size order.simulated

-- What a placement may do: keep the account; a failure leaves nothing to match.
pub record IsAnswer (price : Price) (size : Amount) (k : Persistence)
    (answer : PlaceResponse × Order) : Type 0 where
  pub kept : IsLimit price size k answer.1
  pub refused : (answer.0.status ≡ success) ⊎ (remaining answer.1 ≡ pos 0)

module _ {price : Price} {size : Amount} {k : Persistence} where
  pub remaining-eq-room :
      (order : Order) → IsLimit price size k order → remaining order ≡ room size order.simulated
  remaining-eq-room order l = rw l.type_eq (size_remaining-eq-room l.sound price k)

  refuse_void-IsAnswer :
      (code : ErrorCode) (order : Order)
      → IsLimit price size k order
      → IsAnswer price size k (refuse_void code order)
  unfolding refuse_void place_response
  refuse_void-IsAnswer code order l =
      let s = order.simulated in
      let kept : IsLimit price size k
          (record order { simulated = record s { size_voided = s.size_voided +ℤ room size s } }) =
        record { type_eq = l.type_eq; sound = void-IsSound s l.sound } in
      rw (remaining-eq-room order l)
        (record { kept = kept; refused = inr (remaining-eq-room _ kept ∙ room_void s l.sound) })

  refuse_lapse-IsAnswer :
      (code : ErrorCode) (order : Order)
      → IsLimit price size k order
      → IsAnswer price size k (refuse_lapse code order)
  unfolding refuse_lapse place_response
  refuse_lapse-IsAnswer code order l =
      let s = order.simulated in
      let kept : IsLimit price size k
          (record order { simulated = record s { size_lapsed = s.size_lapsed +ℤ room size s } }) =
        record { type_eq = l.type_eq; sound = lapse-IsSound s l.sound } in
      rw (remaining-eq-room order l)
        (record { kept = kept; refused = inr (remaining-eq-room _ kept ∙ room_lapse s l.sound) })

  accept-IsAnswer :
      (bet_id : ℕ) (order : Order)
      → IsLimit price size k order
      → IsAnswer price size k (place_response (some bet_id) success none order)
  unfolding place_response
  accept-IsAnswer bet_id order l = record { kept = l; refused = inl refl }

  place_limit-IsAnswer :
      (terms : PlaceTerms) (time bet_id : ℕ) (best : Price) (against behind : List PriceSize)
      (order : Order)
      → IsLimit price size k order
      → pos 0 ≤ℤ size
      → size ≤ℤ room size order.simulated
      → All IsRung against
      → IsAnswer price size k (place_limit terms time bet_id price size best against behind order)
  unfolding place_limit
  place_limit-IsAnswer terms time bet_id best against behind order l nonneg unused rungs =
      elim (Bool-cases (not terms.best_price_execution && improves order.side price best)) [
        | inl too_good ↦
            rw too_good (refuse_lapse-IsAnswer ErrorCode.price_improvement_too_large order l)
        | inr fine ↦ elim (Bool-cases (crosses order.side price best)) [
          | inl meets ↦
              rw (fine, meets)
                (accept-IsAnswer bet_id _ (record {
                  type_eq = l.type_eq;
                  sound =
                      process_price_matched-IsSound order.side time price size size against
                        order.simulated rungs nonneg l.sound.size_round unused l.sound;
                }))
          | inr queues ↦
              rw (fine, queues)
                (accept-IsAnswer bet_id _ (record {
                  type_eq = l.type_eq;
                  sound = idle-IsSound order.simulated l.sound _ _ _;
                }))
        ]
      ]

  place_on_runner-IsAnswer :
      (terms : PlaceTerms) (book : MarketBook) (bet_id : ℕ) (side : Side) (runner : RunnerBook)
      (order : Order)
      → IsLimit price size k order
      → pos 0 ≤ℤ size
      → size ≤ℤ room size order.simulated
      → All IsRung runner.available_to_back
      → All IsRung runner.available_to_lay
      → IsAnswer price size k
          (place_on_runner terms book bet_id (limit price size k) side runner order)
  place_on_runner-IsAnswer terms book bet_id back runner order l nonneg unused backs lays =
      place_limit-IsAnswer terms _ bet_id _ _ _ order l nonneg unused backs
  place_on_runner-IsAnswer terms book bet_id lay runner order l nonneg unused backs lays =
      place_limit-IsAnswer terms _ bet_id _ _ _ order l nonneg unused lays

-- Placing a limit order of which nothing is used yet, on a runner that the book has and whose rungs
-- are at positive prices and of sizes that are not negative and have two decimal places, raises
-- nothing: it answers, what was matched, cancelled, lapsed and voided comes to no more than the
-- order's size, and a failure leaves nothing of the order to be matched.
pub place-IsAnswer :
    {price : Price} {size : Amount} {k : Persistence} (terms : PlaceTerms) (book : MarketBook)
    (bet_id : ℕ) (order : Order) (runner : RunnerBook)
    → get_runner order.selection_id order.handicap book.runners ≡ some runner
    → IsLimit price size k order
    → pos 0 ≤ℤ size
    → size ≤ℤ room size order.simulated
    → All IsRung runner.available_to_back
    → All IsRung runner.available_to_lay
    → (answer : PlaceResponse × Order) × (place terms book bet_id order ≡ some answer)
      × IsAnswer price size k answer
unfolding place
place-IsAnswer {price} {size} {k} terms book bet_id order runner found l nonneg unused backs lays =
    let s = order.simulated in
    let order' = record order { simulated = record s { market_version = some book.version } } in
    let l' : IsLimit price size k order' = record {
      type_eq = l.type_eq;
      sound = idle-IsSound s l.sound _ _ _;
    } in
    elim (Bool-cases (is_open book.status)) [
      | inr shut ↦ (_, rw shut, refuse_void-IsAnswer error_in_order order l)
      | inl opened ↦ elim (Bool-cases (version_differs terms.market_version book.version)) [
        | inl differs ↦ (_, rw (opened, differs), refuse_void-IsAnswer error_in_order order' l')
        | inr same ↦ elim (Bool-cases (is_removed runner)) [
          | inl gone ↦ (
            _,
            rw (opened, same, found, gone),
            refuse_void-IsAnswer ErrorCode.runner_removed order' l',
          )
          | inr active ↦ (
            _,
            rw (opened, same, found, active, l.type_eq),
            place_on_runner-IsAnswer terms book bet_id order.side runner order' l' nonneg unused
                backs lays,
          )
        ]
      ]
    ]
