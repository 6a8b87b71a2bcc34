-- ===== src/Tests/Frameworks.antt =====
-- The framework's loop on an example.
use flumine.Prelude.{
  ℕ, ◌+◌, ◌≡◌, ◌++◌, refl, true, false, none, some, List, [], ◌∷◌, arith, length, take, drop, ltb,
}
use flumine.Book.{MarketBook, MarketStatus}
use flumine.Markets.{add_market, take_book, new_market}
use flumine.Framework.{
  Event, ClearedOrder, cleared_orders, market_books, Framework, Hooks, process_event, process_books,
  process_book, get_or_add, change_market,
}
use flumine.Framework.Steps.{Run, arrives, handles, stop, go}
use flumine.Framework.Books.{Holds, process_books-Holds}
use flumine.Framework.Registry.{KeepsListed}
use flumine.Callbacks.{
  Outcome, returned, flumine_exception, unknown_exception, Callback, StrategyCalls, process_market,
}
use flumine.Callbacks.Isolation.{process_market-isolates}
use flumine.Worker.{Exchange, get_cleared_orders, poll_market_catalogue, poll_market_closure}
use flumine.Worker.Clearing.{handle_all, get_cleared_orders-settles}
use flumine.Worker.Closure.{Settles, AreSettled, poll_market_closure-AreSettled}
use flumine.Worker.Catalogues.{IsServed, poll_market_catalogue-IsServed}
use flumine.Tests.{some_book, some_world}

-- Strategies that do nothing.
abbrev idle_hooks : Hooks
idle_hooks = record {
  settings = record { hashes = λ h. none; is_simulated = false; async_place_orders = false };
  process_market_book = λ book f. f;
  process_raw_data = λ datum f. f;
  process_orders = λ f. f;
  process_closed_market = λ id f. f;
  remove_market = λ id f. f;
}

idle-KeepsListed : KeepsListed idle_hooks
idle-KeepsListed = record {
  books = λ book f l. l;
  data_ = λ datum f l. l;
  orders = λ f l. l;
  closed = λ id f l. l;
  removal = λ id f l. l;
}

abbrev first_state : Framework
first_state = record {
  floor = record { world = some_world; markets = []; next_trade = 2 };
  handler_queue = [];
}

-- The queue with the first book of market 10, and the state after it.
abbrev waiting_state : Framework
waiting_state = record first_state { handler_queue = market_books (some_book ∷ []) ∷ [] }

abbrev listed_state : Framework
listed_state = record first_state {
  floor = record {
    world = some_world;
    markets = (10, new_market 10 (some some_book)) ∷ [];
    next_trade = 2;
  };
}

book_run : process_event idle_hooks (market_books (some_book ∷ [])) first_state ≡ some listed_state
unfolding process_event process_books process_book get_or_add change_market add_market take_book
book_run = refl

-- A later book of market 10, and one in which another market is closed.
abbrev later_books : List MarketBook
later_books =
    some_book
    ∷ record some_book { version = some_book.version + 1 }
    ∷ record some_book { market_id = 11; status = MarketStatus.closed }
    ∷ []

process_books-Holds_example :
    Holds 10
      (record some_book { version = some_book.version + 1 })
      (process_books idle_hooks later_books first_state).floor
process_books-Holds_example =
    process_books-Holds idle_hooks (λ id book now f h. h) 10
      (record some_book { version = some_book.version + 1 }) later_books first_state refl

two_steps : Run idle_hooks first_state listed_state
two_steps =
    go first_state waiting_state listed_state (arrives (market_books (some_book ∷ [])) first_state)
      (go waiting_state listed_state listed_state
        (handles (market_books (some_book ∷ [])) [] waiting_state listed_state refl book_run)
        (stop listed_state))

-- Three settled orders, served two by two.
abbrev three_cleared : List ClearedOrder
three_cleared =
    record { order_id = 1; resource = 51 }
    ∷ record { order_id = 2; resource = 52 }
    ∷ record { order_id = 3; resource = 53 }
    ∷ []

abbrev two_by_two : Exchange
two_by_two = record {
  paper_trade = false;
  list_market_catalogue = λ ids. some ids;
  list_cleared_orders = λ market_id from_record. some (record {
    orders = take 2 (drop from_record three_cleared);
    more_available = ltb 2 (length (drop from_record three_cleared));
  });
  list_cleared_markets = λ market_id. some (market_id ∷ []);
}

get_cleared_orders-settles_example :
    (events : List Event) × (get_cleared_orders 4 two_by_two 10 0
      ≡ some (record { done = true; events = events }))
    × ((hooks : Hooks) (s : Framework)
        → handle_all hooks events s ≡ process_event hooks (cleared_orders 10 three_cleared) s)
get_cleared_orders-settles_example =
    get_cleared_orders-settles 4 two_by_two 10 three_cleared 2 (λ n. refl) (omega arith)
      (omega arith)

poll_market_catalogue-IsServed_example :
    (events : List Event) × ((poll_market_catalogue two_by_two listed_state).handler_queue
      ≡ [] ++ events)
    × IsServed 10 (new_market 10 (some some_book)) (handle_all idle_hooks events listed_state)
poll_market_catalogue-IsServed_example =
    poll_market_catalogue-IsServed two_by_two idle_hooks 10 (new_market 10 (some some_book))
      listed_state (λ ids. (ids, refl, λ m. refl)) refl refl

-- Calls that note their number and end in some way.
abbrev noting : ℕ → Outcome → Callback (List ℕ)
noting n ends calls = (ends, calls ++ n ∷ [])

abbrev two_strategies : List (StrategyCalls (List ℕ))
two_strategies =
    record {
      check_market = noting 2 unknown_exception;
      process_market_book = noting 3 (returned true);
    }
    ∷ record {
      check_market = noting 4 (returned true);
      process_market_book = noting 5 flumine_exception;
    }
    ∷ []

process_market-isolates_example :
    process_market false (noting 1 unknown_exception ∷ []) two_strategies []
    ≡ some (1 ∷ 2 ∷ 4 ∷ 5 ∷ [])
process_market-isolates_example =
    process_market-isolates false (noting 1 unknown_exception ∷ []) two_strategies []

-- Market 10 closed, before the poll.
abbrev closed_state : Framework
closed_state = record first_state {
  floor = record {
    world = some_world;
    markets = (10, record (new_market 10 none) { closed = true }) ∷ [];
    next_trade = 2;
  };
}

two_by_two-Settles : Settles two_by_two 2 4
two_by_two-Settles = record {
  orders = λ m. three_cleared;
  serves = λ m n. refl;
  positive = omega arith;
  enough = λ m. omega arith;
  market = λ m. (m, [], refl);
}

poll_market_closure-AreSettled_example :
    (state' : Framework) × (events : List Event) × (poll_market_closure 4 two_by_two closed_state
      ≡ some state')
    × AreSettled closed_state.floor.markets state'.floor.markets
    × (state'.floor.world ≡ some_world)
    × (state'.handler_queue ≡ [] ++ events)
poll_market_closure-AreSettled_example =
    poll_market_closure-AreSettled two_by_two 2 4 two_by_two-Settles closed_state refl
