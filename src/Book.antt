-- ===== src/Book.antt =====
-- What the streams deliver: market books and their runners, resources of the betting library, as the
-- fields that the framework reads. Identifiers are compared and never computed with, so they are
-- numbers; a publish time is an epoch.
use flumine.Prelude.{ℕ, Bool, false, ◌&&◌, Option, none, some, List, [], ◌∷◌, ◌==◌, if◌then◌else◌}
use flumine.Prelude.Decimal.{Price, Amount}

pub data MarketStatus : Type 0 where
  open_ suspended closed inactive : MarketStatus

pub data RunnerStatus : Type 0 where
  active removed winner loser : RunnerStatus

-- One rung of `available_to_back`, `available_to_lay` or `traded_volume`.
pub record PriceSize : Type 0 where
  pub price : Price
  pub size : Amount

-- `actual_sp` is none until the starting price is known, `adjustment_factor` counts hundredths of a
-- per cent.
pub record RunnerBook : Type 0 where
  pub selection_id : ℕ
  pub handicap : ℕ
  pub status : RunnerStatus
  pub available_to_back : List PriceSize
  pub available_to_lay : List PriceSize
  pub traded_volume : List PriceSize
  pub total_matched : Amount
  pub actual_sp : Option Price
  pub adjustment_factor : ℕ

pub record MarketBook : Type 0 where
  pub market_id : ℕ
  pub publish_time : ℕ
  pub status : MarketStatus
  pub version : ℕ
  pub bet_delay : ℕ
  pub inplay : Bool
  pub bsp_reconciled : Bool
  pub bsp_market : Bool
  pub persistence_enabled : Bool
  pub number_of_winners : ℕ
  pub runners : List RunnerBook

abbrev pub is_open : MarketStatus → Bool
is_open open_ = Bool.true
is_open _ = false

abbrev pub is_suspended : MarketStatus → Bool
is_suspended suspended = Bool.true
is_suspended _ = false

-- `Simulated._get_runner`: a dict by (selection_id, handicap), so the last of equal keys is found.
unfoldable pub get_runner : ℕ → ℕ → List RunnerBook → Option RunnerBook
get_runner selection_id handicap [] = none
get_runner selection_id handicap (runner ∷ runners) =
    elim (get_runner selection_id handicap runners) [
      | some later ↦ some later
      | none ↦
          if runner.selection_id == selection_id && runner.handicap == handicap
          then some runner
          else none
    ]

-- `utils.get_price(data, 0) or default`
abbrev pub best_price_or : Price → List PriceSize → Price
best_price_or default [] = default
best_price_or default (best ∷ _) = if best.price == 0 then default else best.price
