-- ===== src/Middleware.antt =====
-- The simulated middleware of markets/middleware.py: what a market traded since the last update, the
-- removal of runners, and the matching of the live orders.

pub mod Orders
pub mod Tracking
pub mod Updating
use flumine.Prelude.{
  ℕ, ◌+◌, ◌-◌, ◌*◌, Bool, true, false, not, ◌&&◌, ◌||◌, Option, none, some, List, [], ◌∷◌, ◌++◌,
  ◌==◌, ltb, leb, contains, map, if◌then◌else◌,
}
use flumine.Prelude.Int.{ℤ, pos, ◌-ℤ◌, ◌==ℤ◌, ltb_ℤ}
use flumine.Prelude.Decimal.{Price, Amount, round2, round_ℕ}
use flumine.Prelude.Dict.{Dict, lookup, insert, drop_key}
use flumine.Book.{PriceSize, RunnerBook, RunnerStatus, active, removed, MarketBook}
use flumine.Wap.{Fill, wap}
use flumine.Order.{Order, OrderStatus, OrderType, limit, limit_on_close, market_on_close, Simulated}
use flumine.Trade.{World, set_order, modify_order, execution_complete}
use flumine.Simulated.Tick.{TickResult, raised, ticked, finished, tick}
use flumine.Blotter.{Blotter, iter}
use flumine.Analytics.{
  Analytics, RunnerAnalytics, analyse, calculate_matched, calculate_middle, calculate_traded,
  find_analytics, new_analytics, or_amount, price_or, process_runner, same_runner, same_volume,
  traded_at, traded_since, volume_dict, volume_onto,
}

-- What came with a book: an image, a market definition, or the runners that changed.
pub record StreamingUpdate : Type 0 where
  pub img : Bool
  pub market_definition : Bool
  pub rc : List ℕ

abbrev pub selection_ids : List RunnerBook → List ℕ
selection_ids [] = []
selection_ids (runner ∷ runners) = runner.selection_id ∷ selection_ids runners

-- `_process_streaming_update`
unfoldable pub process_streaming_update : StreamingUpdate → List RunnerBook → List ℕ
process_streaming_update update runners =
    if update.img || update.market_definition then selection_ids runners else update.rc

pub record Removal : Type 0 where
  pub selection_id : ℕ
  pub handicap : ℕ
  pub adjustment_factor : ℕ

abbrev pub removal_of : RunnerBook → Removal
removal_of runner = record {
  selection_id = runner.selection_id;
  handicap = runner.handicap;
  adjustment_factor = runner.adjustment_factor;
}

abbrev pub same_removal : Removal → Removal → Bool
same_removal a b =
    a.selection_id == b.selection_id
    && a.handicap == b.handicap
    && a.adjustment_factor == b.adjustment_factor

unfoldable pub knows_removal : Removal → List Removal → Bool
knows_removal r [] = false
knows_removal r (s ∷ rs) = same_removal r s || knows_removal r rs

-- `SimulatedMiddleware`: the analytics of each market, and the removals that have been seen
pub record Middleware : Type 0 where
  pub markets : Dict Analytics
  pub runner_removals : List Removal

-- The loop over the runners: the analytics, the removals seen, and the new ones
unfoldable pub process_runners :
    List ℕ → List RunnerBook → Analytics → List Removal → Analytics × List Removal × List Removal
process_runners updates [] analytics seen = (analytics, seen, [])
process_runners updates (runner ∷ runners) analytics seen = elim runner.status [
  | active ↦
      process_runners updates runners
        (process_runner runner (contains runner.selection_id updates) analytics) seen
  | removed ↦
      (let r = removal_of runner in
        let (analytics', seen', new) =
          process_runners updates runners analytics
            (if knows_removal r seen then seen else seen ++ r ∷ []) in
        (analytics', seen', if knows_removal r seen then new else r ∷ new))
  | _ ↦ process_runners updates runners analytics seen
]

-- `_calculate_reduction_factor`: factors count hundredths of a per cent, the least price is 1.01
unfoldable pub calculate_reduction_factor : Price → ℕ → Price
calculate_reduction_factor price adjustment_factor =
    let adjusted = round_ℕ (price * (10_000 - adjustment_factor)) 10_000 in
    if ltb adjusted 101 then 101 else adjusted

abbrev pub reduce_fill : ℕ → Fill → Fill
reduce_fill factor fill = record fill { price = calculate_reduction_factor fill.price factor }

unfoldable pub reduce_fills : ℕ → List Fill → List Fill
reduce_fills factor [] = []
reduce_fills factor (fill ∷ fills) = reduce_fill factor fill ∷ reduce_fills factor fills

-- The prices of an order on another runner
unfoldable pub reduce_order : ℕ → Simulated → Simulated
reduce_order factor s =
    let matched = reduce_fills factor s.matched in
    record s { matched = matched; average_price_matched = (wap matched).1 }

-- What an order asks for: its size, or its liability
abbrev pub asked_size : OrderType → Amount
asked_size (limit price size persistence_type) = size
asked_size (limit_on_close liability price) = liability
asked_size (market_on_close liability) = liability

-- An order on the removed runner
unfoldable pub void_order : OrderType → Simulated → Simulated
void_order order_type s = record s {
  size_matched = pos 0;
  average_price_matched = pos 0;
  matched = [];
  size_voided = asked_size order_type;
}

-- `WIN_MINIMUM_ADJUSTMENT_FACTOR`, 2.5 per cent
abbrev pub win_minimum : ℕ
win_minimum = 250

-- The loop's body of `_process_runner_removal`
unfoldable pub remove_from : ℕ → Removal → Order → Order
remove_from market_id r order =
    if not order.is_simulated
    then order
    else if order.market_id == market_id
        && order.selection_id == r.selection_id
        && order.handicap == r.handicap
    then record order { simulated = void_order order.order_type order.simulated }
    else if leb win_minimum r.adjustment_factor
    then record order { simulated = reduce_order r.adjustment_factor order.simulated }
    else order

-- `_process_runner_removal`, over the market's orders
unfoldable pub process_runner_removal : ℕ → Removal → List ℕ → World → World
process_runner_removal market_id r [] w = w
process_runner_removal market_id r (o ∷ os) w =
    process_runner_removal market_id r os (modify_order o (remove_from market_id r) w)

unfoldable pub process_removals : ℕ → List Removal → List ℕ → World → World
process_removals market_id [] os w = w
process_removals market_id (r ∷ rs) os w =
    process_removals market_id rs os (process_runner_removal market_id r os w)

abbrev pub set_simulated : ℕ → Simulated → World → World
set_simulated o s w = modify_order o (λ order. record order { simulated = s }) w

-- What a call of a simulated order leaves, and whether it raises nothing
abbrev pub after_tick : ℕ → TickResult → World → Bool × World
after_tick o (raised s) w = (false, set_simulated o s w)
after_tick o (ticked s) w = (true, set_simulated o s w)
after_tick o (finished s) w = (true, execution_complete o (set_simulated o s w))

abbrev pub is_executable : Option OrderStatus → Bool
is_executable (some OrderStatus.executable) = true
is_executable _ = false

-- One order of `_process_simulated_orders`; an order on a runner without analytics raises
unfoldable pub process_simulated : Amount → MarketBook → Analytics → ℕ → World → Bool × World
process_simulated liability book analytics o w =
    let order = w.orders o in
    if order.is_simulated && is_executable order.status
    then (elim (find_analytics (order.selection_id, order.handicap) analytics) [
      | none ↦ (false, w)
      | some a ↦ after_tick o (tick liability book a.traded order) w
    ])
    else (true, w)

-- `_process_simulated_orders`. An exception ends the loop, and the caller only logs it: the orders
-- stay as they have become.
unfoldable pub process_simulated_orders : Amount → MarketBook → Analytics → List ℕ → World → World
process_simulated_orders liability book analytics [] w = w
process_simulated_orders liability book analytics (o ∷ os) w =
    let (passes, w') = process_simulated liability book analytics o w in
    let rest = process_simulated_orders liability book analytics os w' in
    if passes then rest else w'

-- `market_analytics = self.markets[market_id]`, a dict by default
abbrev pub market_analytics : ℕ → Middleware → Analytics
market_analytics market_id m = elim (lookup market_id m.markets) [ none ↦ [] | some a ↦ a ]

-- `remove_market`; a market without analytics is passed over
unfoldable pub remove_analytics : ℕ → Middleware → Middleware
remove_analytics market_id m = record m { markets = drop_key market_id m.markets }

-- `SimulatedMiddleware.__call__`; `liability` is the client's least liability at the starting price
unfoldable pub run_middleware :
    Amount → StreamingUpdate → MarketBook → Blotter → Middleware → World → Middleware × World
run_middleware liability update book b m w =
    let updates = process_streaming_update update book.runners in
    let (analytics, seen, new) =
      process_runners updates book.runners (market_analytics book.market_id m) m.runner_removals in
    (
      record { markets = insert book.market_id analytics m.markets; runner_removals = seen },
      process_simulated_orders liability book analytics b.live_orders
          (process_removals book.market_id new (iter b) w),
    )
