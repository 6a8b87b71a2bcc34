-- ===== src/Analytics.antt =====
-- What a market traded since its last update: `RunnerAnalytics` of markets/middleware.py, and the
-- analytics of a market.
pub mod Volume
use flumine.Prelude.{
  ℕ, ◌+◌, ◌-◌, ◌*◌, Bool, true, false, not, ◌&&◌, ◌||◌, Option, none, some, List, [], ◌∷◌, ◌++◌,
  ◌==◌, ltb, leb, contains, map, if◌then◌else◌,
}
use flumine.Prelude.Int.{ℤ, pos, ◌-ℤ◌, ◌==ℤ◌, ltb_ℤ}
use flumine.Prelude.Decimal.{Price, Amount, round2, round_ℕ}
use flumine.Prelude.Dict.{Dict, lookup, insert, drop_key}
use flumine.Book.{PriceSize, RunnerBook, RunnerStatus, active, removed, MarketBook}
use flumine.Wap.{Fill, wap}
use flumine.Order.{Order, OrderStatus, OrderType, limit, limit_on_close, market_on_close, Simulated}
use flumine.Trade.{World, set_order, modify_order, execution_complete}
use flumine.Simulated.Tick.{TickResult, raised, ticked, finished, tick}
use flumine.Blotter.{Blotter, iter}

-- `{i["price"]: i["size"] for i in traded_volume}`, onto a dict
unfoldable pub volume_onto : Dict Amount → List PriceSize → Dict Amount
volume_onto d [] = d
volume_onto d (item ∷ items) = volume_onto (insert item.price item.size d) items

abbrev pub volume_dict : List PriceSize → Dict Amount
volume_dict items = volume_onto [] items

-- `RunnerAnalytics`; `middle` is twice the middle of the odds
pub record RunnerAnalytics : Type 0 where
  pub runner : RunnerBook
  pub traded : List PriceSize
  pub middle : Option ℕ
  pub matched : Amount
  pub traded_volume : List PriceSize
  pub p_v : Dict Amount

-- `RunnerAnalytics.__init__`
abbrev pub new_analytics : RunnerBook → RunnerAnalytics
new_analytics runner = record {
  runner = runner;
  traded = [];
  middle = none;
  matched = pos 0;
  traded_volume = runner.traded_volume;
  p_v = volume_dict runner.traded_volume;
}

-- The volume of one price: nothing where it has not grown
unfoldable pub traded_at : Dict Amount → Price → Amount → List PriceSize
traded_at p_v price size = elim (lookup price p_v) [
  | none ↦ record { price = price; size = size } ∷ []
  | some old ↦
      if ltb_ℤ (pos 0) (size -ℤ old)
      then record { price = price; size = round2 (size -ℤ old) } ∷ []
      else []
]

-- The loop of `_calculate_traded` over the new volumes
unfoldable pub traded_since : Dict Amount → Dict Amount → List PriceSize
traded_since p_v [] = []
traded_since p_v (item ∷ items) = traded_at p_v item.0 item.1 ++ traded_since p_v items

-- `_calculate_traded`
unfoldable pub calculate_traded : List PriceSize → RunnerAnalytics → List PriceSize × Dict Amount
calculate_traded traded_volume a =
    let c_v = volume_dict traded_volume in (traded_since a.p_v c_v, c_v)

abbrev pub price_or : Price → List PriceSize → Price
price_or default [] = default
price_or default (rung ∷ rungs) = rung.price

-- `_calculate_middle`, doubled
unfoldable pub calculate_middle : RunnerBook → ℕ
calculate_middle runner =
    price_or 0 runner.available_to_back + price_or 100_100 runner.available_to_lay

-- `a or b` of amounts
abbrev pub or_amount : Amount → Amount → Amount
or_amount a b = if a ==ℤ pos 0 then b else a

-- `_calculate_matched`
unfoldable pub calculate_matched : RunnerBook → RunnerAnalytics → Amount
calculate_matched runner a =
    let prev = a.runner.total_matched in
    let total = or_amount runner.total_matched prev in
    if total ==ℤ prev then pos 0 else round2 (total -ℤ prev)

abbrev pub same_volume : List PriceSize → List PriceSize → Bool
same_volume [] [] = true
same_volume (a ∷ as') (b ∷ bs) = a.price == b.price && a.size ==ℤ b.size && same_volume as' bs
same_volume _ _ = false

-- `RunnerAnalytics.__call__`
unfoldable pub analyse : RunnerBook → Bool → RunnerAnalytics → RunnerAnalytics
analyse runner update a =
    if update
    then (let (traded, p_v) =
          (if same_volume a.traded_volume runner.traded_volume
            then ([], a.p_v)
            else calculate_traded runner.traded_volume a) in
        record {
          runner = runner;
          traded = traded;
          middle = some (calculate_middle a.runner);
          matched = calculate_matched runner a;
          traded_volume = runner.traded_volume;
          p_v = p_v;
        })
    else record a { matched = pos 0; traded = [] }

-- A market's analytics, by selection and handicap
abbrev pub Analytics : Type 0
Analytics = List ((ℕ × ℕ) × RunnerAnalytics)

abbrev pub same_runner : ℕ × ℕ → ℕ × ℕ → Bool
same_runner k j = k.0 == j.0 && k.1 == j.1

unfoldable pub find_analytics : ℕ × ℕ → Analytics → Option RunnerAnalytics
find_analytics key [] = none
find_analytics key (item ∷ items) =
    if same_runner key item.0 then some item.1 else find_analytics key items

-- `_process_runner`
unfoldable pub process_runner : RunnerBook → Bool → Analytics → Analytics
process_runner runner update [] =
    ((runner.selection_id, runner.handicap), analyse runner update (new_analytics runner)) ∷ []
process_runner runner update (item ∷ items) =
    if same_runner (runner.selection_id, runner.handicap) item.0
    then (item.0, analyse runner update item.1) ∷ items
    else item ∷ process_runner runner update items
