-- ===== src/Strategy.antt =====
-- The runner context of strategy/runnercontext.py, and `validate_order` and `get_runner_context` of
-- strategy/strategy.py. Times count microseconds, and so do the seconds of a trade's settings.
pub mod Context
use flumine.Prelude.{
  ℕ, ◌-◌, Bool, true, false, not, ◌&&◌, Option, none, some, List, [], ◌∷◌, ◌++◌, ◌==◌, ltb, leb,
  length, contains, remove, if◌then◌else◌,
}

pub record RunnerContext : Type 0 where
  pub selection_id : ℕ
  pub invested : Bool
  pub datetime_last_placed : Option ℕ
  pub datetime_last_reset : Option ℕ
  pub trades : List ℕ
  pub live_trades : List ℕ

-- `RunnerContext.__init__`
abbrev pub new_context : ℕ → RunnerContext
new_context selection_id = record {
  selection_id = selection_id;
  invested = false;
  datetime_last_placed = none;
  datetime_last_reset = none;
  trades = [];
  live_trades = [];
}

-- `if x not in xs: xs.append(x)`
abbrev pub append_new : ℕ → List ℕ → List ℕ
append_new x xs = if contains x xs then xs else xs ++ x ∷ []

-- `RunnerContext.place`, at a time
unfoldable pub context_place : ℕ → ℕ → RunnerContext → RunnerContext
context_place now trade_id context = record context {
  invested = true;
  datetime_last_placed = some now;
  trades = append_new trade_id context.trades;
  live_trades = append_new trade_id context.live_trades;
}

-- `RunnerContext.reset`: a trade that is not live is only logged.
unfoldable pub context_reset : ℕ → ℕ → RunnerContext → RunnerContext
context_reset now trade_id context = record context {
  datetime_last_reset = some now;
  live_trades = remove trade_id context.live_trades;
}

-- `placed_elapsed_seconds`, `reset_elapsed_seconds`
abbrev pub elapsed : ℕ → Option ℕ → Option ℕ
elapsed now none = none
elapsed now (some time) = some (now - time)

-- `elapsed and elapsed < wait`: no time, and a time of 0, do not hold an order back.
abbrev pub too_soon : Option ℕ → ℕ → Bool
too_soon none wait = false
too_soon (some seconds) wait = not (seconds == 0) && ltb seconds wait

pub record Limits : Type 0 where
  pub max_trade_count : ℕ
  pub max_live_trade_count : ℕ
  pub multi_order_trades : Bool

-- `BaseStrategy.validate_order`, for an order of the given trade with its two waits
unfoldable pub validate_order : Limits → ℕ → RunnerContext → ℕ → ℕ → ℕ → Bool
validate_order limits now context trade place_reset_seconds reset_seconds =
    if limits.multi_order_trades && contains trade context.live_trades
    then true
    else if leb limits.max_trade_count (length context.trades)
    then false
    else if leb limits.max_live_trade_count (length context.live_trades)
    then false
    else if too_soon (elapsed now context.datetime_last_placed) place_reset_seconds
    then false
    else if too_soon (elapsed now context.datetime_last_reset) reset_seconds
    then false
    else true
