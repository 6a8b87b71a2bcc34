-- ===== src/Simulated/Tick.antt =====
-- What a market update does to a simulated order: `Simulated.__call__`, `_process_sp` and `profit`.
use flumine.Prelude.{
  ℕ, Bool, true, false, not, ◌&&◌, Option, none, some, List, ◌==◌, ltb, if◌then◌else◌,
}
use flumine.Prelude.Int.{ℤ, pos, sub_ℕ, ◌+ℤ◌, ◌-ℤ◌, ◌==ℤ◌, leb_ℤ, scale}
use flumine.Prelude.Decimal.{Price, Amount, round2, winnings}
use flumine.Book.{PriceSize, RunnerBook, MarketBook, is_suspended, get_runner}
use flumine.Wap.{round_quotient}
use flumine.Order.{
  back, lay, lapse, Persistence, OrderType, limit, limit_on_close, market_on_close, Simulated,
  Order, take_sp,
}
use flumine.Simulated.{remaining, update_matched, process_traded}

-- How `_process_sp` ends: with or without a call of `order.execution_complete()`, or with an
-- exception, which leaves the record as it is then.
pub data SpResult : Type 0 where
  unchanged : SpResult
  completed : Simulated → SpResult
  zero_division : Simulated → SpResult

-- `round(x / (actual_sp - 1), 2)` for x in millionths; none is a division by zero
unfoldable pub size_at_sp : ℤ → Price → Option Amount
size_at_sp x actual_sp =
    if actual_sp == 100
    then none
    else some (scale 100 (round_quotient x (scale 100 (sub_ℕ actual_sp 100))))

-- The fill that closes `_process_sp`.
unfoldable pub fill_at_sp : ℕ → Price → Option Amount → Simulated → SpResult
fill_at_sp time sp none s = zero_division s
fill_at_sp time sp (some size) s =
    completed (update_matched (record { time = time; price = sp; size = size }) s)

-- The limit order of a layer: what it risks at its own price is laid at the starting price.
unfoldable pub sp_limit_lay : Amount → ℕ → Price → Price → Order → SpResult
sp_limit_lay min_bsp_liability time price sp order =
    let s : Simulated = record order.simulated { bsp_reconciled = true } in
    let risk = winnings price (remaining order) in
    if leb_ℤ (scale 100 min_bsp_liability) risk
    then elim (size_at_sp risk sp) [
      | none ↦ zero_division s
      | some size ↦
          fill_at_sp time sp (some size)
            (record s { size_cancelled = s.size_cancelled +ℤ round2 (remaining order -ℤ size) })
    ]
    else completed (record s { size_lapsed = s.size_lapsed +ℤ remaining order })

-- `_process_sp` once the runner has a starting price
unfoldable pub reconcile : Amount → ℕ → Price → OrderType → Order → SpResult
reconcile min_bsp_liability time sp (limit price size persistence_type) order =
    let s : Simulated = record order.simulated { bsp_reconciled = true } in
    elim order.side [
      | back ↦ fill_at_sp time sp (some (remaining order)) s
      | lay ↦ sp_limit_lay min_bsp_liability time price sp order
    ]
reconcile min_bsp_liability time sp (limit_on_close liability price) order =
    let s : Simulated = record order.simulated { bsp_reconciled = true } in
    elim order.side [
      | back ↦ if ltb sp price then completed s else fill_at_sp time sp (some liability) s
      | lay ↦
          if ltb price sp
          then completed s
          else fill_at_sp time sp (size_at_sp (scale 100 liability) sp) s
    ]
reconcile min_bsp_liability time sp (market_on_close liability) order =
    let s : Simulated = record order.simulated { bsp_reconciled = true } in
    elim order.side [
      | back ↦ fill_at_sp time sp (some liability) s
      | lay ↦ fill_at_sp time sp (size_at_sp (scale 100 liability) sp) s
    ]

-- `_process_sp`: no starting price yet, or a price of 0, leaves the order alone.
unfoldable pub process_sp : Amount → ℕ → RunnerBook → Order → SpResult
process_sp min_bsp_liability time runner order = elim runner.actual_sp [
  | none ↦ unchanged
  | some sp ↦
      if sp == 0 then unchanged else reconcile min_bsp_liability time sp order.order_type order
]

abbrev pub version_changed : Option ℕ → ℕ → Bool
version_changed none version = true
version_changed (some seen) version = not (seen == version)

abbrev pub is_lapse : Persistence → Bool
is_lapse lapse = true
is_lapse _ = false

-- The branch of `__call__` for a limit order with something remaining.
unfoldable pub tick_limit : MarketBook → List PriceSize → Price → Persistence → Order → Simulated
tick_limit book traded price persistence_type order =
    let changed = version_changed order.simulated.market_version book.version in
    let s : Simulated =
      (if changed
        then record order.simulated { market_version = some book.version }
        else order.simulated) in
    if changed && is_suspended book.status && is_lapse persistence_type
    then record s { size_lapsed = s.size_lapsed +ℤ remaining order }
    else process_traded order.side book.publish_time order.order_type price traded s

-- What a call of the object does: an exception, with the record it leaves, a new record, or a new
-- record and the end of the order.
pub data TickResult : Type 0 where
  raised : Simulated → TickResult
  ticked : Simulated → TickResult
  finished : Simulated → TickResult

abbrev pub of_sp : Simulated → SpResult → TickResult
of_sp s unchanged = ticked s
of_sp s (completed s') = finished s'
of_sp s (zero_division s') = raised s'

abbrev pub tick_matching : MarketBook → List PriceSize → OrderType → Order → TickResult
tick_matching book traded (limit price size persistence_type) order =
    if remaining order ==ℤ pos 0
    then ticked order.simulated
    else ticked (tick_limit book traded price persistence_type order)
tick_matching book traded _ order = ticked order.simulated

-- `__call__`
unfoldable pub tick : Amount → MarketBook → List PriceSize → Order → TickResult
tick min_bsp_liability book traded order =
    if not order.simulated.bsp_reconciled && book.bsp_reconciled && take_sp order.order_type
    then elim (get_runner order.selection_id order.handicap book.runners) [
      | none ↦ raised order.simulated
      | some runner ↦
          of_sp order.simulated (process_sp min_bsp_liability book.publish_time runner order)
    ]
    else tick_matching book traded order.order_type order
