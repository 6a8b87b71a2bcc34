-- ===== src/Callbacks/Isolation.antt =====
-- An exception of one callback keeps no other from being called.
use flumine.Prelude.{
  ◌≡◌, refl, ap, ◌∙◌, or_assoc, Bool, true, false, ◌&&◌, ◌||◌, Option, none, some, List, [], ◌∷◌,
  if◌then◌else◌,
}
use flumine.Callbacks.{
  Outcome, returned, flumine_exception, unknown_exception, Callback, call_error_handling, call_then,
  call_each, StrategyCalls, call_strategies, process_market,
}

abbrev pub is_unknown : Outcome → Bool
is_unknown unknown_exception = true
is_unknown _ = false

-- The answer, false where the call raised
abbrev pub says_yes : Outcome → Bool
says_yes (returned answer) = answer
says_yes _ = false

module _ {ℓ} {S : Type ℓ} where
  -- Each callback called in turn, whatever the others do: the state that is left, and whether an
  -- exception was not a FlumineException.
  abbrev pub all_called : List (Callback S) → S → S
  all_called [] s = s
  all_called (func ∷ funcs) s = all_called funcs (func s).1

  abbrev pub any_unknown : List (Callback S) → S → Bool
  any_unknown [] s = false
  any_unknown (func ∷ funcs) s = is_unknown (func s).0 || any_unknown funcs (func s).1

  -- The same of the strategies, of which those that say yes to the market process its book.
  abbrev pub all_asked : List (StrategyCalls S) → S → S
  all_asked [] s = s
  all_asked (strategy ∷ strategies) s =
      let checked = strategy.check_market s in
      all_asked strategies
        (if says_yes checked.0 then (strategy.process_market_book checked.1).1 else checked.1)

  abbrev pub asks_unknown : List (StrategyCalls S) → S → Bool
  asks_unknown [] s = false
  asks_unknown (strategy ∷ strategies) s =
      let checked = strategy.check_market s in
      let processed = strategy.process_market_book checked.1 in
      is_unknown checked.0
      || (says_yes checked.0 && is_unknown processed.0)
      || asks_unknown strategies (if says_yes checked.0 then processed.1 else checked.1)

  -- What the calls give, from what is left and whether there was an unknown exception.
  abbrev pub unless : Bool → S → Option S
  unless raised s = if raised then none else some s

  call_then-unless :
      (raise_errors : Bool) (func : Callback S) (rest : S → Option S) (unknown : S → Bool)
      (left : S → S) (s : S)
      → ((s : S) → rest s ≡ unless (raise_errors && unknown s) (left s))
      → call_then raise_errors func rest s
        ≡ unless (raise_errors && (is_unknown (func s).0 || unknown (func s).1)) (left (func s).1)
  unfolding call_then call_error_handling
  call_then-unless raise_errors func rest unknown left s h = go raise_errors (func s) h
    where
      go :
          (b : Bool) (result : Outcome × S)
          → ((s : S) → rest s ≡ unless (b && unknown s) (left s))
          → (elim (call_error_handling b result) [ none ↦ none | some (answer, s') ↦ rest s' ])
            ≡ unless (b && (is_unknown result.0 || unknown result.1)) (left result.1)
      go b (returned answer, s') h = h s'
      go b (flumine_exception, s') h = h s'
      go true (unknown_exception, s') h = refl
      go false (unknown_exception, s') h = h s'

  call_each-unless :
      (raise_errors : Bool) (funcs : List (Callback S)) (rest : S → Option S) (unknown : S → Bool)
      (left : S → S) (s : S)
      → ((s : S) → rest s ≡ unless (raise_errors && unknown s) (left s))
      → call_each raise_errors funcs rest s
        ≡ unless
            (raise_errors && (any_unknown funcs s || unknown (all_called funcs s)))
            (left (all_called funcs s))
  unfolding call_each
  call_each-unless raise_errors [] rest unknown left s h = h s
  call_each-unless raise_errors (func ∷ funcs) rest unknown left s h =
      call_then-unless raise_errors func (call_each raise_errors funcs rest)
        (λ s'. any_unknown funcs s' || unknown (all_called funcs s'))
        (λ s'. left (all_called funcs s')) s
        (λ s'. call_each-unless raise_errors funcs rest unknown left s' h)
      ∙ ap (λ b. unless (raise_errors && b) (left (all_called funcs (func s).1)))
          (or_assoc (is_unknown (func s).0) (any_unknown funcs (func s).1)
            (unknown (all_called funcs (func s).1)))

  -- One strategy, and then the rest.
  asked-unless :
      (raise_errors : Bool) (checked : Outcome × S) (process : Callback S) (rest : S → Option S)
      (unknown : S → Bool) (left : S → S)
      → ((s : S) → rest s ≡ unless (raise_errors && unknown s) (left s))
      → (elim (call_error_handling raise_errors checked) [
        | none ↦ none
        | some (answer, s') ↦ if answer then call_then raise_errors process rest s' else rest s'
      ])
        ≡ unless
            (raise_errors
              && (is_unknown checked.0
                  || (says_yes checked.0 && is_unknown (process checked.1).0)
                  || unknown (if says_yes checked.0 then (process checked.1).1 else checked.1)))
            (left (if says_yes checked.0 then (process checked.1).1 else checked.1))
  unfolding call_error_handling
  asked-unless raise_errors (returned true, s) process rest unknown left h =
      call_then-unless raise_errors process rest unknown left s h
  asked-unless raise_errors (returned false, s) process rest unknown left h = h s
  asked-unless raise_errors (flumine_exception, s) process rest unknown left h = h s
  asked-unless true (unknown_exception, s) process rest unknown left h = refl
  asked-unless false (unknown_exception, s) process rest unknown left h = h s

  call_strategies-unless :
      (raise_errors : Bool) (strategies : List (StrategyCalls S)) (s : S)
      → call_strategies raise_errors strategies s
        ≡ unless (raise_errors && asks_unknown strategies s) (all_asked strategies s)
  unfolding call_strategies
  call_strategies-unless true [] s = refl
  call_strategies-unless false [] s = refl
  call_strategies-unless raise_errors (strategy ∷ strategies) s =
      asked-unless raise_errors (strategy.check_market s) strategy.process_market_book
        (call_strategies raise_errors strategies) (asks_unknown strategies) (all_asked strategies)
        (call_strategies-unless raise_errors strategies)

  -- The processing of a market's book calls each middleware and then each strategy, of which those
  -- whose `check_market` returns true process the book, whatever the calls before raised; only where
  -- `raise_errors` is set and a call raises other than a FlumineException does it raise.
  pub process_market-isolates :
      (raise_errors : Bool) (middleware : List (Callback S)) (strategies : List (StrategyCalls S))
      (s : S)
      → process_market raise_errors middleware strategies s
        ≡ unless
            (raise_errors
              && (any_unknown middleware s || asks_unknown strategies (all_called middleware s)))
            (all_asked strategies (all_called middleware s))
  unfolding process_market
  process_market-isolates raise_errors middleware strategies s =
      call_each-unless raise_errors middleware (call_strategies raise_errors strategies)
        (asks_unknown strategies) (all_asked strategies) s
        (call_strategies-unless raise_errors strategies)
