-- ===== src/Callbacks.antt =====
-- The calls of the user's code, `call_strategy_error_handling`, `call_middleware_error_handling` and
-- `call_process_orders_error_handling` of utils.py, and the loops of baseflumine.py that make them. A
-- callback may change any state before it returns or raises.
pub mod Isolation
use flumine.Prelude.{ℕ, Bool, true, false, Option, none, some, List, [], ◌∷◌, ◌++◌, if◌then◌else◌}

-- How a call ends: an answer, as `if` reads it, a FlumineException, or another exception.
pub data Outcome : Type 0 where
  returned : Bool → Outcome
  flumine_exception unknown_exception : Outcome

abbrev pub Callback {ℓ} : Type ℓ → Type ℓ
Callback S = S → Outcome × S

module _ {ℓ} {S : Type ℓ} where
  -- The two `except` clauses; none is the exception raised again.
  unfoldable pub call_error_handling : Bool → Outcome × S → Option (Bool × S)
  call_error_handling raise_errors (returned answer, s) = some (answer, s)
  call_error_handling raise_errors (flumine_exception, s) = some (false, s)
  call_error_handling true (unknown_exception, s) = none
  call_error_handling false (unknown_exception, s) = some (false, s)

  -- A call whose answer is not read, then the rest of the loop
  unfoldable pub call_then : Bool → Callback S → (S → Option S) → S → Option S
  call_then raise_errors func rest s = elim (call_error_handling raise_errors (func s)) [
    | none ↦ none
    | some (answer, s') ↦ rest s'
  ]

  -- `for middleware in self._market_middleware`
  unfoldable pub call_each : Bool → List (Callback S) → (S → Option S) → S → Option S
  call_each raise_errors [] rest s = rest s
  call_each raise_errors (func ∷ funcs) rest s =
      call_then raise_errors func (call_each raise_errors funcs rest) s

-- The methods of a strategy that the loops call, on one market and its book
pub record StrategyCalls {ℓ} (S : Type ℓ) : Type ℓ where
  pub check_market : Callback S
  pub process_market_book : Callback S

module _ {ℓ} {S : Type ℓ} where
  -- `for strategy in self.strategies`, of `_process_market_books`
  unfoldable pub call_strategies : Bool → List (StrategyCalls S) → S → Option S
  call_strategies raise_errors [] s = some s
  call_strategies raise_errors (strategy ∷ strategies) s =
      elim (call_error_handling raise_errors (strategy.check_market s)) [
        | none ↦ none
        | some (answer, s') ↦
            if answer
            then call_then raise_errors strategy.process_market_book
                (call_strategies raise_errors strategies) s'
            else call_strategies raise_errors strategies s'
      ]

  -- The middleware and the strategies, on a market's book
  unfoldable pub process_market : Bool → List (Callback S) → List (StrategyCalls S) → S → Option S
  process_market raise_errors middleware strategies s =
      call_each raise_errors middleware (call_strategies raise_errors strategies) s
