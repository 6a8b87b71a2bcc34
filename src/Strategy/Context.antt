-- ===== src/Strategy/Context.antt =====
-- What the runner context keeps, and what an order that a strategy lets through does to its counts.
use flumine.Prelude.{
  ℕ, ◌+◌, ◌≤◌, ◌≡◌, refl, true, false, ◌&&◌, not, ◌||◌, List, [], ◌∷◌, arith, ◌==◌, length,
  contains, Distinct, contains-remove_self, contains-remove_ne, contains-append, remove-Distinct,
  append-Distinct, contains-remove_of_absent, length-append, Bool-cases, inl, inr,
}
use flumine.Strategy.{
  RunnerContext, append_new, context_place, context_reset, Limits, validate_order,
}

-- No trade is listed twice, and every live trade is a trade.
pub record IsConsistent (context : RunnerContext) : Type 0 where
  pub trades_distinct : Distinct context.trades
  pub live_distinct : Distinct context.live_trades
  pub live_listed :
      (t : ℕ) → contains t context.live_trades ≡ true → contains t context.trades ≡ true

append_new-Distinct : (x : ℕ) (xs : List ℕ) → Distinct xs → Distinct (append_new x xs)
append_new-Distinct x xs d = ground (arith, append-Distinct x xs d)

pub contains-append_new :
    (t x : ℕ) (xs : List ℕ) → contains t (append_new x xs) ≡ (t == x || contains t xs)
contains-append_new t x xs = ground (arith, contains-append t xs (x ∷ []))

-- Placing a trade keeps the context consistent, and the trade is live and listed afterwards.
pub context_place-IsConsistent :
    (now trade : ℕ) (context : RunnerContext)
    → IsConsistent context
    → IsConsistent (context_place now trade context)
      × (contains trade (context_place now trade context).live_trades ≡ true)
unfolding context_place
context_place-IsConsistent now trade context c = (
  record {
    trades_distinct = append_new-Distinct trade context.trades c.trades_distinct;
    live_distinct = append_new-Distinct trade context.live_trades c.live_distinct;
    live_listed = λ t live. ground (
      arith,
      contains-append_new t trade context.trades,
      contains-append_new t trade context.live_trades,
      c.live_listed t,
    );
  },
  ground (arith, contains-append_new trade trade context.live_trades),
)

-- A reset keeps the context consistent; after it a trade is live when it was live and is not the one
-- that the reset is for, and no trade is forgotten.
context_reset-IsConsistent :
    (now trade t : ℕ) (context : RunnerContext)
    → IsConsistent context
    → IsConsistent (context_reset now trade context)
      × (contains t (context_reset now trade context).live_trades
          ≡ (contains t context.live_trades && not (t == trade)))
      × ((context_reset now trade context).trades ≡ context.trades)
unfolding context_reset
context_reset-IsConsistent now trade t context c = (
  record {
    trades_distinct = c.trades_distinct;
    live_distinct = remove-Distinct trade context.live_trades c.live_distinct;
    live_listed = λ t live.
        ground (arith, contains-remove_of_absent t trade context.live_trades, c.live_listed t);
  },
  elim (Bool-cases (t == trade)) [
    | inl same ↦ ground (arith, contains-remove_self trade context.live_trades c.live_distinct)
    | inr other ↦ ground (arith, contains-remove_ne t trade context.live_trades other)
  ],
  refl,
)

length-append_new : (x : ℕ) (xs : List ℕ) → length (append_new x xs) ≤ length xs + 1
length-append_new x xs = ground (arith, length-append xs (x ∷ []))

-- An order that `validate_order` lets through leaves, once its trade is placed in the context, no
-- more trades and no more live trades than the strategy's limits, where no trade may have several
-- orders.
validate_order-limits :
    (limits : Limits) (now : ℕ) (context : RunnerContext) (trade place_wait reset_wait : ℕ)
    → limits.multi_order_trades ≡ false
    → validate_order limits now context trade place_wait reset_wait ≡ true
    → (length (context_place now trade context).trades ≤ limits.max_trade_count)
      × (length (context_place now trade context).live_trades ≤ limits.max_live_trade_count)
unfolding validate_order context_place
validate_order-limits limits now context trade place_wait reset_wait single valid =
    ground
      (arith, length-append_new trade context.trades, length-append_new trade context.live_trades)
