-- ===== src/BetfairExecution.antt =====
-- The live execution of execution/betfairexecution.py: the calls of the exchange with their retries,
-- and what the reports in a response do. The exchange is an argument: its answer to each call. What
-- other threads do between two calls is left out.
pub mod Retries
pub mod Lookups
pub mod Cancelling
use flumine.Prelude.{
  ℕ, zero, suc, ◌+◌, Bool, true, false, ◌||◌, Option, none, some, List, [], ◌∷◌, ◌==◌, length,
  if◌then◌else◌,
}
use flumine.Prelude.Int.{ℤ, pos, ◌==ℤ◌}
use flumine.Prelude.Decimal.{Price, Amount}
use flumine.Order.{Order, BetId, order_size_remaining}
use flumine.Trade.{World, set_order, enter_trade, exit_trade, executable, execution_complete}
use flumine.Creation.{create_order_replacement}
use flumine.Markets.{same_bet}
use flumine.Package.{Package, package_orders, retry}
use flumine.Execution.{Exchange, count_transactions, count_failures}
use flumine.Execution.Replacing.{add_replacement}

-- The answer to a call: `BetfairError`, another exception, or a response
pub data Answer (R : Type 0) : Type 0 where
  betfair_error unknown_error : Answer R
  responded : R → Answer R

pub data ReportStatus : Type 0 where
  success failure timeout : ReportStatus

-- What the code reads of the reports; `is_pending` is an order status of PENDING
pub record PlaceInstructionReport : Type 0 where
  pub status : ReportStatus
  pub is_pending : Bool
  pub bet_id : Option BetId
  pub average_price_matched : ℤ
  pub size_matched : Amount

pub record CancelInstructionReport : Type 0 where
  pub status : ReportStatus
  pub bet_id : BetId
  pub size_cancelled : Option Amount

-- `price` and `size` are those of the place report's instruction
pub record ReplaceInstructionReport : Type 0 where
  pub cancel_status : ReportStatus
  pub place_report : PlaceInstructionReport
  pub price : Price
  pub size : Amount

abbrev one_more : {R : Type 0} → Option (Option R × ℕ) → Option (Option R × ℕ)
one_more none = none
one_more (some (r, n)) = some (r, suc n)

-- `_execution_helper`, which a retry runs again through `handler`: the response, if there is one, and
-- the number of calls. The exchange is asked with the number of retries so far; none is too little
-- fuel.
unfoldable pub execution_helper :
    {R : Type 0} → ℕ → (ℕ → Answer R) → List ℕ → Package → Option (Option R × ℕ)
execution_helper zero ask orders p = none
execution_helper (suc fuel) ask [] p = some (none, 0)
execution_helper (suc fuel) ask (o ∷ os) p =
    let (again, p') = retry p in
    let rest = one_more (execution_helper fuel ask (o ∷ os) p') in
    elim (ask p.retry_count) [
      | betfair_error ↦ if again then rest else some (none, 1)
      | unknown_error ↦ some (none, 1)
      | responded r ↦ some (some r, 1)
    ]

-- An execution: a response is processed, and without one nothing happens.
unfoldable pub execute_with :
    {R : Type 0}
    → (R → Exchange → Option Exchange)
    → (ℕ → Answer R)
    → Package
    → Exchange
    → Option Exchange
execute_with process ask p x =
    elim (execution_helper (suc p.max_retries) ask (package_orders x.world.orders p) p) [
      | none ↦ some x
      | some (none, n) ↦ some x
      | some (some r, n) ↦ process r x
    ]

-- `with order.trade` around what is done to an order
abbrev pub in_trade : ℕ → (World → World) → World → World
in_trade o f w = let t = (w.orders o).trade in exit_trade t (f (enter_trade t w))

-- `_order_logger` of a placement; a report without a bet id leaves the order's
unfoldable pub log_report : PlaceInstructionReport → ℕ → World → World
log_report r o w =
    let order = w.orders o in
    set_order o
      (record order {
        place_response = some (record {
          average_price_matched = r.average_price_matched;
          size_matched = r.size_matched;
        });
        date_time_placed = some w.clock;
        bet_id = elim r.bet_id [ none ↦ order.bet_id | some b ↦ some b ];
      })
      w

-- `order.bet_id = instruction_report.bet_id`, of a replacement
abbrev pub set_bet : Option BetId → ℕ → World → World
set_bet b o w = set_order o (record (w.orders o) { bet_id = b }) w

unfoldable pub settle_report : PlaceInstructionReport → ℕ → World → World
settle_report r o w = elim r.status [
  | success ↦ if r.is_pending then w else executable o w
  | failure ↦ execution_complete o w
  | timeout ↦ w
]

-- `zip(order_package, response.place_instruction_reports)`
unfoldable pub place_reports : List ℕ → List PlaceInstructionReport → World → World
place_reports [] rs w = w
place_reports (o ∷ os) [] w = w
place_reports (o ∷ os) (r ∷ rs) w =
    place_reports os rs (in_trade o (λ v. settle_report r o (log_report r o v)) w)

-- `execute_place`, after the call
unfoldable pub process_place : Package → List PlaceInstructionReport → Exchange → Option Exchange
process_place p rs x =
    let w = place_reports (package_orders x.world.orders p) rs x.world in
    some (count_transactions (length (package_orders w.orders p)) false (record x { world = w }))

-- `order_lookup`, a dict by bet id
abbrev pub Lookup : Type 0
Lookup = List (Option BetId × ℕ)

abbrev pub same_key_bet : Option BetId → Option BetId → Bool
same_key_bet none none = true
same_key_bet (some b) (some b') = same_bet b b'
same_key_bet _ _ = false

unfoldable pub store_order : Option BetId → ℕ → Lookup → Lookup
store_order key o [] = (key, o) ∷ []
store_order key o (item ∷ l) =
    if same_key_bet key item.0 then (item.0, o) ∷ l else item ∷ store_order key o l

unfoldable pub order_lookup : (ℕ → Order) → List ℕ → Lookup → Lookup
order_lookup orders [] l = l
order_lookup orders (o ∷ os) l = order_lookup orders os (store_order (orders o).bet_id o l)

-- `order_lookup.pop(bet_id)`; none is the KeyError
unfoldable pub pop_order : BetId → Lookup → Option (ℕ × Lookup)
pop_order b [] = none
pop_order b (item ∷ l) =
    let rest = pop_order b l in
    if same_key_bet (some b) item.0
    then some (item.1, l)
    else elim rest [ none ↦ none | some (o, l') ↦ some (o, item ∷ l') ]

abbrev pub cancels_all : Option Amount → Amount → Bool
cancels_all none remaining = remaining ==ℤ pos 0
cancels_all (some size) remaining = size ==ℤ remaining || remaining ==ℤ pos 0

unfoldable pub settle_cancel_report : CancelInstructionReport → ℕ → World → World
settle_cancel_report r o w = elim r.status [
  | success ↦
      if cancels_all r.size_cancelled (order_size_remaining (w.orders o))
      then execution_complete o w
      else executable o w
  | _ ↦ executable o w
]

abbrev pub failed : ReportStatus → ℕ
failed failure = 1
failed _ = 0

-- The loop over the reports, with the orders that are left and the number of failures
unfoldable pub cancel_reports :
    List CancelInstructionReport → Lookup → World → Option (World × Lookup × ℕ)
cancel_reports [] l w = some (w, l, 0)
cancel_reports (r ∷ rs) l w = elim (pop_order r.bet_id l) [
  | none ↦ none
  | some (o, l') ↦ elim (cancel_reports rs l' (in_trade o (settle_cancel_report r o) w)) [
    | none ↦ none
    | some (w', left, n) ↦ some (w', left, failed r.status + n)
  ]
]

-- `for order in order_lookup.values()`
unfoldable pub reset_left : Lookup → World → World
reset_left [] w = w
reset_left (item ∷ l) w = reset_left l (in_trade item.1 (executable item.1) w)

-- `execute_cancel`, after the call
unfoldable pub process_cancel : Package → List CancelInstructionReport → Exchange → Option Exchange
process_cancel p rs x =
    let orders = x.world.orders in
    elim (cancel_reports rs (order_lookup orders (package_orders orders p) []) x.world) [
      | none ↦ none
      | some (w, left, n) ↦ some (count_failures n (record x { world = reset_left left w }))
    ]

-- `execute_update`: every report leaves its order EXECUTABLE
unfoldable pub update_reports : List ℕ → List ReportStatus → World → World × ℕ
update_reports [] rs w = (w, 0)
update_reports (o ∷ os) [] w = (w, 0)
update_reports (o ∷ os) (r ∷ rs) w =
    let (w', n) = update_reports os rs (in_trade o (executable o) w) in (w', failed r + n)

unfoldable pub process_update : Package → List ReportStatus → Exchange → Option Exchange
process_update p rs x =
    let (w, n) = update_reports (package_orders x.world.orders p) rs x.world in
    some (count_failures n (record x { world = w }))

-- "process cancel response"
unfoldable pub settle_replaced_report : ReportStatus → ℕ → World → World
settle_replaced_report success o w = execution_complete o w
settle_replaced_report _ o w = executable o w

-- "process place response": a new order where the exchange has placed one; none is an exception
unfoldable pub place_replacement : ReplaceInstructionReport → ℕ → Exchange → Option Exchange
place_replacement r o x = elim r.place_report.status [
  | success ↦
      (let id = x.next_id in
        elim (create_order_replacement false id (x.world.orders o).trade (x.world.orders o) r.price
          r.size x.world) [
            | none ↦ none
            | some w ↦
                add_replacement id
                  (set_bet r.place_report.bet_id id (log_report r.place_report id w))
                  (record x { next_id = suc id })
          ])
  | _ ↦ some x
]

-- One order of `execute_replace`, in the context of its trade
unfoldable pub replace_report : ReplaceInstructionReport → ℕ → Exchange → Option Exchange
replace_report r o x =
    let t = (x.world.orders o).trade in
    let w = settle_replaced_report r.cancel_status o (enter_trade t x.world) in
    elim (place_replacement r o (record x { world = w })) [
      | none ↦ none
      | some x' ↦ some (record x' { world = exit_trade t x'.world })
    ]

unfoldable pub replace_reports :
    List ℕ → List ReplaceInstructionReport → Exchange → Option (Exchange × ℕ)
replace_reports [] rs x = some (x, 0)
replace_reports (o ∷ os) [] x = some (x, 0)
replace_reports (o ∷ os) (r ∷ rs) x = elim (replace_report r o x) [
  | none ↦ none
  | some x' ↦ elim (replace_reports os rs x') [
    | none ↦ none
    | some (x'', n) ↦ some (x'', failed r.cancel_status + n)
  ]
]

-- `execute_replace`, after the call
unfoldable pub process_replace :
    Package → List ReplaceInstructionReport → Exchange → Option Exchange
process_replace p rs x = elim (replace_reports (package_orders x.world.orders p) rs x) [
  | none ↦ none
  | some (x', n) ↦
      some
        (count_failures n (count_transactions (length (package_orders x'.world.orders p)) false x'))
]
