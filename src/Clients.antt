-- ===== src/Clients.antt =====
-- The clients of clients/baseclient.py, clients/betfairclient.py and clients/backtestclient.py: the
-- account's state and the minimums that the controls read. What the account calls answer, none for an
-- error, and betfairlightweight's `currency_parameters` are arguments.
pub mod Account
use flumine.Prelude.{ℕ, Bool, true, false, ◌||◌, Option, none, some, List, [], ◌∷◌, if◌then◌else◌}
use flumine.Prelude.Int.{pos}
use flumine.Prelude.Decimal.{Amount}
use flumine.Controls.{Minimums}
use flumine.Controls.Hourly.{TransactionCount, add_transaction}

-- `ExchangeType`
pub data ExchangeType : Type 0 where
  betfair simulated : ExchangeType

-- `account_details` by its currency code, and the controls, of which those that count transactions
-- have a count.
pub record Client : Type 0 where
  pub exchange : ExchangeType
  pub paper_trade : Bool
  pub min_bet_validation : Bool
  pub account_details : Option ℕ
  pub account_funds : Option ℕ
  pub trading_controls : List (Option TransactionCount)

-- The entry of a currency
pub record CurrencyParameters : Type 0 where
  pub min_bet_size : Amount
  pub min_bet_payout : Amount
  pub min_bsp_liability : Amount

abbrev pub answer_or : Option ℕ → Option ℕ → Option ℕ
answer_or none old = old
answer_or (some new) old = some new

-- `BetfairClient.update_account_details`
unfoldable pub update_account_details : Option ℕ → Option ℕ → Client → Client
update_account_details details funds client = record client {
  account_details = answer_or details client.account_details;
  account_funds = answer_or funds client.account_funds;
}

-- `MIN_BET_SIZE`, `MIN_BET_PAYOUT` and `MIN_BSP_LIABILITY`
abbrev pub default_parameters : CurrencyParameters
default_parameters = record {
  min_bet_size = pos 20_000;
  min_bet_payout = pos 100_000;
  min_bsp_liability = pos 100_000;
}

-- The lookup that the three properties of `BetfairClient` share, with their defaults
unfoldable pub currency_of : (ℕ → Option CurrencyParameters) → Client → CurrencyParameters
currency_of currency_parameters client = elim client.account_details [
  | none ↦ default_parameters
  | some currency_code ↦ elim (currency_parameters currency_code) [
    | none ↦ default_parameters
    | some parameters ↦ parameters
  ]
]

-- `min_bet_size`, `min_bet_payout` and `min_bsp_liability`, as the controls read them
unfoldable pub minimums : (ℕ → Option CurrencyParameters) → Client → Minimums
minimums currency_parameters client =
    let parameters = currency_of currency_parameters client in
    record {
      min_bet_validation = client.min_bet_validation;
      min_bet_size = parameters.min_bet_size;
      min_bet_payout = parameters.min_bet_payout;
      min_bsp_liability = parameters.min_bsp_liability;
    }

-- `add_execution`: simulated or Betfair's
unfoldable pub add_execution : Client → ExchangeType
add_execution client = if client.paper_trade then ExchangeType.simulated else client.exchange

-- `add_transaction`
unfoldable pub add_transactions :
    ℕ → Bool → List (Option TransactionCount) → List (Option TransactionCount)
add_transactions count failed [] = []
add_transactions count failed (none ∷ controls) = none ∷ add_transactions count failed controls
add_transactions count failed (some control ∷ controls) =
    some (add_transaction count failed control) ∷ add_transactions count failed controls

-- `transaction_count_total` and `current_transaction_count_total` read the first count.
unfoldable pub first_count : List (Option TransactionCount) → Option TransactionCount
first_count [] = none
first_count (none ∷ controls) = first_count controls
first_count (some control ∷ controls) = some control
