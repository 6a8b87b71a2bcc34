-- ===== src/Simulated.antt =====
-- The simulated matching of backtest/simulated.py. A method takes the order that holds it and gives
-- the order back; none is an exception (a runner that the book lacks, a division by zero).
pub mod Tick
pub mod Sound
pub mod Matching
pub mod Placing
pub mod Ticking
pub mod Queue
use flumine.Prelude.{
  ℕ, ◌-◌, ◌/◌, Bool, true, false, not, ◌&&◌, ◌||◌, Option, none, some, List, [], ◌∷◌, ◌++◌, ◌==◌,
  ltb, leb, if◌then◌else◌,
}
use flumine.Prelude.Int.{
  ℤ, pos, sub_ℕ, pos_part, neg_part, ◌+ℤ◌, ◌-ℤ◌, ◌==ℤ◌, ltb_ℤ, leb_ℤ, min_ℤ, max_ℤ, scale,
}
use flumine.Prelude.Decimal.{Price, Amount, round2}
use flumine.Book.{
  removed, PriceSize, RunnerBook, MarketBook, is_open, is_suspended, get_runner, best_price_or,
}
use flumine.Wap.{Fill, wap, round_quotient}
use flumine.Order.{
  Side, back, lay, Persistence, lapse, OrderType, limit, limit_on_close, market_on_close, BetId,
  bet, none_text, Simulated, Order, size_remaining, take_sp,
}

pub data ResponseStatus : Type 0 where
  success failure : ResponseStatus

pub data ErrorCode : Type 0 where
  error_in_order runner_removed price_improvement_too_large : ErrorCode
  market_not_open_for_bsp_betting bet_action_error invalid_persistence_type : ErrorCode

-- backtest/utils.py
pub record PlaceResponse : Type 0 where
  pub status : ResponseStatus
  pub order_complete : Bool
  pub bet_id : BetId
  pub average_price_matched : ℤ
  pub size_matched : Amount
  pub error_code : Option ErrorCode

pub record CancelResponse : Type 0 where
  pub status : ResponseStatus
  pub size_cancelled : Option Amount
  pub error_code : Option ErrorCode

pub record UpdateResponse : Type 0 where
  pub status : ResponseStatus
  pub error_code : Option ErrorCode

-- What `place` reads of the order package: the version that the market must still have, and the
-- client's setting.
pub record PlaceTerms : Type 0 where
  pub market_version : Option ℕ
  pub best_price_execution : Bool

abbrev pub remaining : Order → Amount
remaining order = size_remaining order.order_type order.simulated

-- `_update_matched`
unfoldable pub update_matched : Fill → Simulated → Simulated
update_matched fill s =
    let matched = s.matched ++ fill ∷ [] in
    record s {
      matched = matched;
      size_matched = (wap matched).0;
      average_price_matched = (wap matched).1;
    }

-- Does a price that is available or traded satisfy the order's? A backer wants at least the price.
unfoldable pub crosses : Side → Price → Price → Bool
crosses back price other = leb price other
crosses lay price other = leb other price

-- `_process_price_matched`, the loop over the rungs
unfoldable pub process_price_matched :
    Side → ℕ → Price → Amount → List PriceSize → Simulated → Simulated
process_price_matched side time price left [] s = s
process_price_matched side time price left (avail ∷ available) s =
    let left' = max_ℤ (left -ℤ avail.size) (pos 0) in
    let size = if left' ==ℤ pos 0 then left else avail.size in
    let fill : Fill = record { time = time; price = avail.price; size = round2 size } in
    let rest = process_price_matched side time price left' available (update_matched fill s) in
    if left ==ℤ pos 0 then s else if crosses side price avail.price then rest else s

-- `x / 2`, exact for an even number of ten-thousandths
unfoldable pub half : Amount → Amount
half a = sub_ℕ (pos_part a / 2) (neg_part a / 2)

-- `_calculate_process_traded`
unfoldable pub calculate_process_traded : ℕ → OrderType → Price → Amount → Simulated → Simulated
calculate_process_traded time order_type price traded_size s =
    let traded = half traded_size in
    let size = round2 (min_ℤ (size_remaining order_type s) (traded -ℤ s.piq)) in
    let fill : Fill = record { time = time; price = price; size = size } in
    if ltb_ℤ (s.piq -ℤ traded) (pos 0)
    then (let s' = if size ==ℤ pos 0 then s else update_matched fill s in record s' { piq = pos 0 })
    else record s { piq = s.piq -ℤ traded }

-- `_process_traded`, over the items of `traded`
unfoldable pub process_traded :
    Side → ℕ → OrderType → Price → List PriceSize → Simulated → Simulated
process_traded side time order_type price [] s = s
process_traded side time order_type price (item ∷ traded) s =
    process_traded side time order_type price traded (
      if crosses side price item.price
      then calculate_process_traded time order_type price item.size s
      else s)

-- `if avail["price"] == price: self._piq = avail["size"]; break`
unfoldable pub queue_ahead : Price → List PriceSize → Amount → Amount
queue_ahead price [] piq = piq
queue_ahead price (avail ∷ available) piq =
    if avail.price == price then avail.size else queue_ahead price available piq

abbrev pub str_bet : Option ℕ → BetId
str_bet none = none_text
str_bet (some n) = bet n

-- `_create_place_response`
unfoldable pub place_response :
    Option ℕ → ResponseStatus → Option ErrorCode → Order → PlaceResponse × Order
place_response bet_id status error_code order = (
  record {
    status = status;
    order_complete = remaining order ==ℤ pos 0;
    bet_id = str_bet bet_id;
    average_price_matched = order.simulated.average_price_matched;
    size_matched = order.simulated.size_matched;
    error_code = error_code;
  },
  order,
)

-- The refusals of `place` void or lapse what remains.
unfoldable pub refuse_void : ErrorCode → Order → PlaceResponse × Order
refuse_void code order =
    let s = order.simulated in
    place_response none failure (some code)
      (record order { simulated = record s { size_voided = s.size_voided +ℤ remaining order } })

unfoldable pub refuse_lapse : ErrorCode → Order → PlaceResponse × Order
refuse_lapse code order =
    let s = order.simulated in
    place_response none failure (some code)
      (record order { simulated = record s { size_lapsed = s.size_lapsed +ℤ remaining order } })

-- The book's best price on the side that the order matches against lies beyond the order's.
unfoldable pub improves : Side → Price → Price → Bool
improves back price best = ltb price best
improves lay price best = ltb best price

-- The part of `place` for a limit order on a runner: the best price for the order, the rungs to
-- match against, and the rungs that it queues behind.
unfoldable pub place_limit :
    PlaceTerms
    → ℕ
    → ℕ
    → Price
    → Amount
    → Price
    → List PriceSize
    → List PriceSize
    → Order
    → PlaceResponse × Order
place_limit terms time bet_id price size best against behind order =
    let s = order.simulated in
    if not terms.best_price_execution && improves order.side price best
    then refuse_lapse ErrorCode.price_improvement_too_large order
    else if crosses order.side price best
    then place_response (some bet_id) success none
        (record order { simulated = process_price_matched order.side time price size against s })
    else place_response (some bet_id) success none
        (record order { simulated = record s { piq = queue_ahead price behind s.piq } })

abbrev pub place_on_runner :
    PlaceTerms → MarketBook → ℕ → OrderType → Side → RunnerBook → Order → PlaceResponse × Order
place_on_runner terms book bet_id (limit price size persistence_type) back runner order =
    place_limit terms book.publish_time bet_id price size
      (best_price_or 101 runner.available_to_back) runner.available_to_back runner.available_to_lay
      order
place_on_runner terms book bet_id (limit price size persistence_type) lay runner order =
    place_limit terms book.publish_time bet_id price size
      (best_price_or 100000 runner.available_to_lay) runner.available_to_lay
      runner.available_to_back order
place_on_runner terms book bet_id _ side runner order =
    if not book.bsp_market || book.bsp_reconciled || book.inplay
    then refuse_void market_not_open_for_bsp_betting order
    else place_response (some bet_id) success none order

abbrev pub is_removed : RunnerBook → Bool
is_removed runner = elim runner.status [ removed ↦ true | _ ↦ false ]

-- `order_package.market_version and order_package.market_version["version"] != self.market_version`
abbrev pub version_differs : Option ℕ → ℕ → Bool
version_differs none version = false
version_differs (some wanted) version = not (wanted == version)

-- `place`
unfoldable pub place : PlaceTerms → MarketBook → ℕ → Order → Option (PlaceResponse × Order)
place terms book bet_id order =
    if not (is_open book.status)
    then some (refuse_void error_in_order order)
    else (let s = order.simulated in
        let order' = record order { simulated = record s { market_version = some book.version } } in
        if version_differs terms.market_version book.version
        then some (refuse_void error_in_order order')
        else elim (get_runner order.selection_id order.handicap book.runners) [
          | none ↦ none
          | some runner ↦
              if is_removed runner
              then some (refuse_void ErrorCode.runner_removed order')
              else some
                  (place_on_runner terms book bet_id order.order_type order.side runner order')
        ])

-- `x or y` of an optional amount, where 0 is false
abbrev pub or_else : Option Amount → Amount → Amount
or_else none y = y
or_else (some x) y = if x ==ℤ pos 0 then y else x

abbrev pub cancel_refused : ErrorCode → CancelResponse
cancel_refused code = record { status = failure; size_cancelled = none; error_code = some code }

-- `cancel` on an open market
abbrev pub cancel_open : OrderType → Order → CancelResponse × Order
cancel_open (limit price size' persistence_type) order =
    let s = order.simulated in
    let size = min_ℤ (or_else order.size_reduction (remaining order)) (remaining order) in
    (
      record { status = success; size_cancelled = some size; error_code = none },
      record order { simulated = record s { size_cancelled = s.size_cancelled +ℤ size } },
    )
cancel_open _ order = (cancel_refused bet_action_error, order)

-- `cancel`
unfoldable pub cancel : MarketBook → Order → CancelResponse × Order
cancel book order =
    if not (is_open book.status)
    then (cancel_refused error_in_order, order)
    else cancel_open order.order_type order

abbrev pub update_refused : ErrorCode → UpdateResponse
update_refused code = record { status = failure; error_code = some code }

-- `update` on an open market that takes persistence
abbrev pub update_open : OrderType → Persistence → Order → UpdateResponse × Order
update_open (limit price size persistence_type) new_persistence_type order =
    if ltb_ℤ (pos 0) (remaining order)
    then (
      record { status = success; error_code = none },
      record order { order_type = limit price size new_persistence_type },
    )
    else (update_refused bet_action_error, order)
update_open _ new_persistence_type order = (update_refused bet_action_error, order)

-- `update`, given the instruction's `newPersistenceType`
unfoldable pub update : MarketBook → Persistence → Order → UpdateResponse × Order
update book new_persistence_type order =
    if not (is_open book.status)
    then (update_refused error_in_order, order)
    else if not book.persistence_enabled
    then (update_refused invalid_persistence_type, order)
    else update_open order.order_type new_persistence_type order
