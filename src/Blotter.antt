-- ===== src/Blotter.antt =====
-- The blotter of markets/blotter.py: a market's orders and the caches over them. An order is its
-- reference, its `id`, under which it is also stored.
pub mod Caches
use flumine.Prelude.{
  ℕ, Bool, true, false, not, ◌&&◌, Option, none, some, List, [], ◌∷◌, ◌++◌, ◌==◌, keep, contains,
  remove, length, ltb, if◌then◌else◌,
}
use flumine.Prelude.Dict.{Dict, lookup, has_key, insert, values}
use flumine.Book.{RunnerBook, RunnerStatus, winner, MarketBook}
use flumine.Order.{Order}
use flumine.Trade.{World, modify_order}

-- `(strategy, selection_id, handicap)`
pub record SelectionKey : Type 0 where
  pub strategy : ℕ
  pub selection_id : ℕ
  pub handicap : ℕ

abbrev pub selection_key : Order → SelectionKey
selection_key order = record {
  strategy = order.strategy;
  selection_id = order.selection_id;
  handicap = order.handicap;
}

abbrev pub same_selection : SelectionKey → SelectionKey → Bool
same_selection k j =
    k.strategy == j.strategy && k.selection_id == j.selection_id && k.handicap == j.handicap

-- The two dicts by strategy are read only through a default of no orders.
pub record Blotter : Type 0 where
  pub orders : Dict ℕ
  pub trades : Dict (List ℕ)
  pub live_orders : List ℕ
  pub strategy_orders : ℕ → List ℕ
  pub strategy_selection_orders : SelectionKey → List ℕ

-- `Blotter.__init__`
abbrev pub new_blotter : Blotter
new_blotter = record {
  orders = [];
  trades = [];
  live_orders = [];
  strategy_orders = λ s. [];
  strategy_selection_orders = λ k. [];
}

-- `defaultdict(list)[k]`
abbrev pub lookup_list : ℕ → Dict (List ℕ) → List ℕ
lookup_list k d = elim (lookup k d) [ none ↦ [] | some os ↦ os ]

-- `__setitem__`
unfoldable pub set_item : ℕ → Order → Blotter → Blotter
set_item ref order b = record b {
  orders = insert ref ref b.orders;
  live_orders = b.live_orders ++ ref ∷ [];
  trades = insert order.trade (lookup_list order.trade b.trades ++ ref ∷ []) b.trades;
  strategy_orders =
      λ s. if order.strategy == s then b.strategy_orders s ++ ref ∷ [] else b.strategy_orders s;
  strategy_selection_orders = λ k.
      if same_selection (selection_key order) k
      then b.strategy_selection_orders k ++ ref ∷ []
      else b.strategy_selection_orders k;
}

-- `has_order`, `has_trade`
abbrev pub has_order : ℕ → Blotter → Bool
has_order ref b = has_key ref b.orders

abbrev pub has_trade : ℕ → Blotter → Bool
has_trade trade b = has_key trade b.trades

-- `complete_order`; none is the ValueError of an order that is not live
unfoldable pub complete_order : ℕ → Blotter → Option Blotter
complete_order ref b =
    if contains ref b.live_orders
    then some (record b { live_orders = remove ref b.live_orders })
    else none

-- `__iter__`
abbrev pub iter : Blotter → List ℕ
iter b = values b.orders

abbrev pub is_winner : RunnerBook → Bool
is_winner runner = elim runner.status [ winner ↦ true | _ ↦ false ]

-- The assignments of `process_closed_market` for one runner.
abbrev pub close_on : ℕ → ℕ → RunnerBook → Order → Order
close_on winners expected runner order =
    if order.selection_id == runner.selection_id && order.handicap == runner.handicap
    then record order {
      runner_status = some runner.status;
      number_of_dead_heat_winners =
          if ltb expected winners then some winners else order.number_of_dead_heat_winners;
    }
    else order

unfoldable pub close_order : ℕ → ℕ → List RunnerBook → Order → Order
close_order winners expected [] order = order
close_order winners expected (runner ∷ runners) order =
    close_order winners expected runners (close_on winners expected runner order)

unfoldable pub close_orders : ℕ → ℕ → List RunnerBook → List ℕ → World → World
close_orders winners expected runners [] w = w
close_orders winners expected runners (o ∷ os) w =
    close_orders winners expected runners os
      (modify_order o (close_order winners expected runners) w)

-- `process_closed_market`
unfoldable pub process_closed_market : MarketBook → Blotter → World → World
process_closed_market book b w =
    close_orders (length (keep is_winner book.runners)) book.number_of_winners book.runners (iter b)
      w
