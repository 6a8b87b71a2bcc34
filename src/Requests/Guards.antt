-- ===== src/Requests/Guards.antt =====
-- Which requests are accepted, and what an accepted one does.
use flumine.Prelude.{
  ℕ, ◌≡◌, refl, sym, subst, ◌∙◌, true, false, ◌⊎◌, inl, inr, Option, none, some, arith, ◌==◌,
  contains, Bool-cases,
}
use flumine.Prelude.Int.{pos, ◌≤ℤ◌, -ℤ_parts, eq_of_parts}
use flumine.Prelude.Decimal.{Price, Amount}
use flumine.Order.{
  OrderStatus, OrderType, limit, limit_on_close, market_on_close, Persistence, status_complete,
  set_status, order_size_remaining,
}
use flumine.Trade.{World, set_order, modify_order, cancelling}
use flumine.Trade.Completion.{order_update_status-keeps}
use flumine.Requests.{
  Request, accepted, refused, is_executable, has_bet_id, too_large, cancel_typed, cancel_request,
  same_persistence, update_typed, update_request, replace_typed, replace_priced, replace_request,
}

-- No world comes of the request.
abbrev pub IsRefused : Request → Type 0
IsRefused (refused _) = Unit
IsRefused (accepted _) = ⊥

module _ (o : ℕ) (w : World) (status : Option OrderStatus) (e : (w.orders o).status ≡ status)
    (closed : is_executable status ≡ false) where
  cancel_typed-IsRefused :
      (order_type : OrderType) (x : Option Amount) → IsRefused (cancel_typed order_type x o w)
  cancel_typed-IsRefused (limit price size k) x =
      elim (Bool-cases (too_large x (order_size_remaining (w.orders o)))) [
        | inl large ↦ rw large tt
        | inr fits ↦ rw (fits, e, closed) tt
      ]
  cancel_typed-IsRefused (limit_on_close l p) x = tt
  cancel_typed-IsRefused (market_on_close l) x = tt

  update_typed-IsRefused :
      (order_type : OrderType) (k : Persistence) → IsRefused (update_typed order_type k o w)
  update_typed-IsRefused (limit price size k') k = elim (Bool-cases (same_persistence k' k)) [
    | inl same ↦ rw same tt
    | inr differs ↦ rw (differs, e, closed) tt
  ]
  update_typed-IsRefused (limit_on_close l p) k = tt
  update_typed-IsRefused (market_on_close l) k = tt

  replace_priced-IsRefused :
      (price new_price : Price) → IsRefused (replace_priced price new_price o w)
  replace_priced-IsRefused price new_price = elim (Bool-cases (price == new_price)) [
    | inl same ↦ rw same tt
    | inr differs ↦ rw (differs, e, closed) tt
  ]

  replace_typed-IsRefused :
      (order_type : OrderType) (new_price : Price)
      → IsRefused (replace_typed order_type new_price o w)
  replace_typed-IsRefused (limit price size k) new_price = replace_priced-IsRefused price new_price
  replace_typed-IsRefused (limit_on_close l p) new_price = replace_priced-IsRefused p new_price
  replace_typed-IsRefused (market_on_close l) new_price = tt

-- An order whose status is not EXECUTABLE, none included, can be neither cancelled nor updated nor
-- replaced: each request raises an error, and no change is made.
requests-IsRefused :
    (x : Option Amount) (k : Persistence) (new_price : Price) (o : ℕ) (w : World)
    → is_executable (w.orders o).status ≡ false
    → IsRefused (cancel_request x o w)
      × IsRefused (update_request k o w)
      × IsRefused (replace_request new_price o w)
unfolding cancel_request update_request replace_request
requests-IsRefused x k new_price o w closed = elim (Bool-cases (has_bet_id (w.orders o).bet_id)) [
  | inr missing ↦ rw missing (tt, tt, tt)
  | inl placed ↦ rw placed (
    cancel_typed-IsRefused o w (w.orders o).status refl closed (w.orders o).order_type x,
    update_typed-IsRefused o w (w.orders o).status refl closed (w.orders o).order_type k,
    replace_typed-IsRefused o w (w.orders o).status refl closed (w.orders o).order_type new_price,
  )
]

-- A reduction is none, 0 or no more than what remains.
abbrev pub Fits : Option Amount → Amount → Type 0
Fits none remaining = Unit
Fits (some y) remaining = (y ≤ℤ remaining) ⊎ (y ≡ pos 0)

-- What an accepted cancellation does to the order and to its trade.
pub record IsCancelling (x : Option Amount) (o : ℕ) (w w' : World) : Type 0 where
  pub was_executable : is_executable (w.orders o).status ≡ true
  pub status_eq : (w'.orders o).status ≡ some OrderStatus.cancelling
  pub asked : (w'.orders o).size_reduction ≡ x
  pub fits : Fits x (order_size_remaining (w.orders o))
  pub trades_eq : w'.trades ≡ w.trades
  pub contexts_eq : w'.contexts ≡ w.contexts

abbrev with_reduction : Option Amount → ℕ → World → World
with_reduction x o w = modify_order o (λ order. record order { size_reduction = x }) w

cancel_typed-ends :
    (order_type : OrderType) (x : Option Amount) (o : ℕ) (w w' : World)
    → cancel_typed order_type x o w ≡ accepted w'
    → (too_large x (order_size_remaining (w.orders o)) ≡ false)
      × (is_executable (w.orders o).status ≡ true)
      × (w' ≡ cancelling o (with_reduction x o w))
cancel_typed-ends (limit price size k) x o w w' ends = ground arith
cancel_typed-ends (limit_on_close l p) x o w w' ends = cc
cancel_typed-ends (market_on_close l) x o w w' ends = cc

cancelling-eq :
    (x : Option Amount) (o : ℕ) (w : World)
    → contains o (w.trades (w.orders o).trade).orders ≡ true
    → cancelling o (with_reduction x o w)
      ≡ set_order o
          (set_status OrderStatus.cancelling ((with_reduction x o w).orders o))
          (with_reduction x o w)
unfolding cancelling
cancelling-eq x o w member =
    order_update_status-keeps o (with_reduction x o w) OrderStatus.cancelling
      (unfold status_complete in refl) (unfold set_order in ground arith)

reduction-Fits :
    (x : Option Amount) (remaining : Amount) → too_large x remaining ≡ false → Fits x remaining
reduction-Fits none remaining h = tt
reduction-Fits (some y) remaining h = ground (arith, -ℤ_parts remaining y, eq_of_parts y (pos 0))

-- A cancellation that is accepted, of an order that its trade lists: the order was EXECUTABLE, it is
-- CANCELLING with the reduction that was asked for, which is none, 0 or no more than what remained, and no trade
-- and no runner context has changed.
cancel_request-IsCancelling :
    (x : Option Amount) (o : ℕ) (w w' : World)
    → contains o (w.trades (w.orders o).trade).orders ≡ true
    → cancel_request x o w ≡ accepted w'
    → IsCancelling x o w w'
unfolding cancel_request
cancel_request-IsCancelling x o w w' member ends =
    let placed : has_bet_id (w.orders o).bet_id ≡ true = ground arith in
    let (fits, executable, w'_eq) =
      cancel_typed-ends (w.orders o).order_type x o w w' (rw placed at ends) in
    subst (IsCancelling x o w) (sym (w'_eq ∙ cancelling-eq x o w member)) (record {
      was_executable = executable;
      status_eq = unfold set_order set_status in ground arith;
      asked = unfold set_order set_status in ground arith;
      fits = reduction-Fits x (order_size_remaining (w.orders o)) fits;
      trades_eq = unfold set_order in refl;
      contexts_eq = unfold set_order in refl;
    })
