-- ===== src/Package.antt =====
-- Order packages: order/orderpackage.py, `chunks` of utils.py and `_create_order_package` of
-- execution/transaction.py. Times count microseconds; the limits on the orders of one request are
-- the exchange's, an argument.
pub mod Chunks
pub mod Groups
use flumine.Prelude.{
  same_option, ℕ, zero, suc, ◌+◌, Bool, true, false, not, ◌&&◌, Option, none, some, List, [], ◌∷◌,
  ◌++◌, ◌==◌, ltb, keep, length, take, drop, if◌then◌else◌,
}
use flumine.Order.{Order, OrderStatus}
use flumine.Controls.{PackageType, place, cancel, update, replace}

-- The latencies of config.py.
pub record Latencies : Type 0 where
  pub place_latency : ℕ
  pub cancel_latency : ℕ
  pub update_latency : ℕ
  pub replace_latency : ℕ

abbrev pub latencies : Latencies
latencies = record {
  place_latency = 120_000;
  cancel_latency = 170_000;
  update_latency = 150_000;
  replace_latency = 280_000;
}

pub record Package : Type 0 where
  pub market_id : ℕ
  pub orders : List ℕ
  pub package_type : PackageType
  pub bet_delay : ℕ
  pub async_ : Bool
  pub market_version : Option ℕ
  pub retry_allowed : Bool
  pub max_retries : ℕ
  pub retry_count : ℕ

-- `BaseOrderPackage.__init__`
abbrev pub new_package : ℕ → List ℕ → PackageType → ℕ → Bool → Option ℕ → Package
new_package market_id orders package_type bet_delay async_ market_version = record {
  market_id = market_id;
  orders = orders;
  package_type = package_type;
  bet_delay = bet_delay;
  async_ = async_;
  market_version = market_version;
  retry_allowed = true;
  max_retries = 3;
  retry_count = 0;
}

-- `retry`, less the wait
unfoldable pub retry : Package → Bool × Package
retry p =
    if p.retry_allowed && ltb p.retry_count p.max_retries
    then (true, record p { retry_count = p.retry_count + 1 })
    else (false, p)

-- `calc_simulated_delay`, for a client of the simulated exchange
unfoldable pub calc_simulated_delay : Latencies → PackageType → ℕ → ℕ
calc_simulated_delay l place bet_delay = l.place_latency + bet_delay
calc_simulated_delay l cancel bet_delay = l.cancel_latency
calc_simulated_delay l update bet_delay = l.update_latency
calc_simulated_delay l replace bet_delay = l.replace_latency + bet_delay

abbrev pub in_violation : Order → Bool
in_violation order = elim order.status [
  | none ↦ false
  | some status ↦ elim status [ OrderStatus.violation ↦ true | _ ↦ false ]
]

-- The property `orders`.
unfoldable pub package_orders : (ℕ → Order) → Package → List ℕ
package_orders orders p = keep (λ o. not (in_violation (orders o))) p.orders

-- `chunks`, with fuel for its rounds
unfoldable pub chunks_loop {ℓ} : {A : Type ℓ} → ℕ → List A → ℕ → List (List A)
chunks_loop zero l n = []
chunks_loop (suc fuel) [] n = []
chunks_loop (suc fuel) (x ∷ l) n = take n (x ∷ l) ∷ chunks_loop fuel (drop n (x ∷ l)) n

-- For a positive `n` a list has at most as many chunks as it has items.
unfoldable pub chunks {ℓ} : {A : Type ℓ} → List A → ℕ → List (List A)
chunks l n = chunks_loop (length l) l n

-- A request that waits in a transaction: the order, and the market version it is for.
abbrev pub Pending : Type 0
Pending = ℕ × Option ℕ

-- `orders_grouped[o[1]].append(o[0])`
unfoldable pub add_to_group : ℕ → Option ℕ → List (Option ℕ × List ℕ) → List (Option ℕ × List ℕ)
add_to_group o v [] = (v, o ∷ []) ∷ []
add_to_group o v ((v', os) ∷ groups) =
    if same_option v v' then (v', os ++ o ∷ []) ∷ groups else (v', os) ∷ add_to_group o v groups

unfoldable pub group_orders : List Pending → List (Option ℕ × List ℕ) → List (Option ℕ × List ℕ)
group_orders [] groups = groups
group_orders ((o, v) ∷ pending) groups = group_orders pending (add_to_group o v groups)

-- The two loops that make the packages: over the chunks of a group, and over the groups.
unfoldable pub packages_of_chunks : (List ℕ → Package) → List (List ℕ) → List Package
packages_of_chunks make [] = []
packages_of_chunks make (chunk ∷ rest) = make chunk ∷ packages_of_chunks make rest

unfoldable pub packages_of_groups :
    (List ℕ → Option ℕ → Package) → ℕ → List (Option ℕ × List ℕ) → List Package
packages_of_groups make limit [] = []
packages_of_groups make limit ((v, os) ∷ groups) =
    packages_of_chunks (λ chunk. make chunk v) (chunks os limit)
    ++ packages_of_groups make limit groups

-- `_create_order_package`
unfoldable pub create_order_package :
    (List ℕ → Option ℕ → Package) → ℕ → List Pending → List Package
create_order_package make limit pending = packages_of_groups make limit (group_orders pending [])
