-- ===== src/Clients/Account.antt =====
-- What the account of a client means for its orders and its counts.
use flumine.Prelude.{
  ℕ, ◌≡◌, ◌∙◌, sym, Bool, refl, true, Option, none, some, List, [], ◌∷◌, inl, inr, ◌⊎◌,
}
use mathlib.Core.Bool.{true≢false}
use flumine.Prelude.Int.{◌≤ℤ◌, scale}
use flumine.Prelude.Decimal.{Price, Amount}
use flumine.Order.{Side, limit, Persistence}
use flumine.Controls.{order_validation}
use flumine.Controls.Hourly.{TransactionCount, add_transaction}
use flumine.Controls.Limits.{order_validation-IsValidLimit}
use flumine.Clients.{
  Client, CurrencyParameters, currency_of, minimums, add_transactions, first_count,
}

-- A limit order that passes the validation for a client whose bets are validated reaches the least
-- size, or the least payout, of the account's currency, or of the default where that is not known.
limit-reaches :
    (currency_parameters : ℕ → Option CurrencyParameters) (client : Client) (side : Side)
    (price : Price) (size : Amount) (k : Persistence)
    → client.min_bet_validation ≡ true
    → order_validation (minimums currency_parameters client) side (limit price size k) ≡ none
    → ((currency_of currency_parameters client).min_bet_size ≤ℤ size)
      ⊎ (scale 100 (currency_of currency_parameters client).min_bet_payout ≤ℤ scale price size)
unfolding minimums
limit-reaches currency_parameters client side price size k validates passes =
    let v =
      order_validation-IsValidLimit (minimums currency_parameters client) side price size k
        passes in
    elim v.large_enough [
      | inl off ↦ absurd (true≢false (sym validates ∙ off))
      | inr enough ↦ enough
    ]

-- What is added to the transactions is added to the count that the client reports.
first_count-add_transactions :
    (count : ℕ) (failed : Bool) (controls : List (Option TransactionCount))
    → first_count (add_transactions count failed controls) ≡ (elim (first_count controls) [
      | none ↦ none
      | some control ↦ some (add_transaction count failed control)
    ])
unfolding first_count add_transactions
first_count-add_transactions count failed [] = refl
first_count-add_transactions count failed (none ∷ controls) =
    first_count-add_transactions count failed controls
first_count-add_transactions count failed (some control ∷ controls) = refl
