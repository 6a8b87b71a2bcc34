-- ===== src/Tests/Feeds.antt =====
-- Streams, subscriptions, recorded files, sessions and references on examples.
use flumine.Prelude.{
  ℕ, ◌≡◌, ◌+◌, ◌≤◌, refl, true, false, none, some, Option, List, [], ◌∷◌, arith, ◌==◌, length,
  if◌then◌else◌,
}
use flumine.Prelude.Int.{pos}
use flumine.Order.{Order, fresh_simulated}
use flumine.Blotter.{new_blotter, set_item}
use flumine.Markets.{Market, new_market, live_orders}
use flumine.Process.{Floor}
use flumine.PaperTrading.{poll_orders}
use flumine.PaperTrading.Reports.{IsSynced}
use flumine.PaperTrading.Syncing.{poll_orders-IsSynced}
use flumine.Outputs.{Round, new_output, order_rounds}
use flumine.Outputs.Recency.{IsWatched, order_rounds-IsWatched}
use flumine.Tests.{live_order, some_world}
use flumine.Streams.{
  Streams, Subscriber, ListenerKwargs, Recording, new_streams, no_kwargs, add_stream,
  add_order_stream, add_historical_stream,
}
use flumine.Streams.Numbers.{start, orders}
use flumine.Streams.Sharing.{add_historical_stream-keeps_first}
use flumine.Subscriptions.{MarketFilter, Subscriptions, skips, subscribe_backtest}
use flumine.Subscriptions.Covering.{IsHeard, subscribe_backtest-IsHeard}
use flumine.HttpPool.{
  HttpSession, HttpPool, new_pool, create_new_session, pop_session, get_http_session,
  return_http_session,
}
use flumine.HttpPool.Lending
use flumine.HttpPool.Lending.{IsPooled, Reached-IsPooled}
use flumine.Historical.{MarketUpdate, Caching, read_loop}
use flumine.Historical.Filtering.{Reads, read_loop-Reads}
use flumine.References.{
  Text, Strategy, create_cheap_hash, is_ref_character, is_valid_customer_order_ref_character,
  set_sep, name_hash, customer_order_ref,
}
use flumine.References.Roundtrip.{IsReadBack, customer_order_ref-IsReadBack}

abbrev some_subscriber : Subscriber
some_subscriber = record {
  stream_class = 1;
  market_filter = some 3;
  market_data_filter = some 4;
  streaming_timeout = none;
  conflate_ms = none;
}

-- Recorded markets of the types 5 and 6.
abbrev some_recording : Recording
some_recording = record {
  market_type = λ m. some (if m == 20 then 5 else 6);
  event_id = λ m. some 9;
  historical_class = 2;
}

-- A market stream, that of a recorded market, an order stream, and the market stream again.
abbrev shared_streams : Streams
shared_streams =
    (add_stream (λ a b. a == b) some_subscriber
      (add_order_stream 3
        (add_historical_stream some_recording some_subscriber 20 false no_kwargs
          (add_stream (λ a b. a == b) some_subscriber new_streams).1).1).1).1

abbrev in_play_only : ListenerKwargs
in_play_only = record { inplay = some true; seconds_to_start = none }

add_historical_stream-keeps_first_example :
    let result =
      add_historical_stream some_recording some_subscriber 20 false no_kwargs new_streams in
    (add_historical_stream some_recording some_subscriber 20 false in_play_only result.1 ≡ result)
    × (result.0.listener_kwargs ≡ no_kwargs)
add_historical_stream-keeps_first_example =
    add_historical_stream-keeps_first some_recording some_subscriber some_subscriber 20 false
      no_kwargs in_play_only new_streams refl

-- Two recorded markets, of which the filter's types let the first through.
abbrev some_filter : MarketFilter
some_filter = record {
  markets = some (20 ∷ 21 ∷ []);
  market_types = some (5 ∷ []);
  event_processing = false;
  events = none;
  listener_kwargs = no_kwargs;
}

abbrev no_subscriptions : Subscriptions
no_subscriptions = record { streams = []; historic_stream_ids = [] }

subscribe_backtest-IsHeard_example :
    (result : Subscriptions × Streams) × (subscribe_backtest some_recording some_subscriber
        some_filter no_subscriptions new_streams
      ≡ some result)
    × IsHeard 20 false result
unfolding skips
subscribe_backtest-IsHeard_example =
    subscribe_backtest-IsHeard some_recording some_subscriber some_filter (20 ∷ 21 ∷ []) 20
      no_subscriptions new_streams refl refl refl refl

-- A session is taken, given back and taken again more than 200 seconds later, when it is too old.
abbrev returned_pool : HttpPool
returned_pool =
    let (session, pool) = get_http_session (λ k. 1_000 + k) (new_pool 32) in
    return_http_session 2_000 session false pool

abbrev late_result : HttpSession × HttpPool
late_result = get_http_session (λ k. 300_000 + k) returned_pool

Reached-IsPooled_example : IsPooled 32 late_result.1 (late_result.0 ∷ [])
unfolding get_http_session pop_session create_new_session return_http_session
Reached-IsPooled_example = Reached-IsPooled 32 late_result.1 (late_result.0 ∷ []) (
    Lending.Reached.take (λ k. 300_000 + k) returned_pool []
      (Lending.Reached.give 2_000 (get_http_session (λ k. 1_000 + k) (new_pool 32)).0 false
        (get_http_session (λ k. 1_000 + k) (new_pool 32)).1 [] []
        (Lending.Reached.take (λ k. 1_000 + k) (new_pool 32) [] Lending.Reached.start)))

-- Market 20 is sent before it is in play, and when it is suspended.
abbrev some_caching : Caching
some_caching = record {
  new_cache = λ market_id publish_time. record {
    market_id = market_id;
    is_open = true;
    in_play = false;
    publish_time = publish_time;
    market_time = 90_000;
    contents = 0;
  };
  update_cache = λ market_update publish_time cache. record cache {
    is_open = market_update.body == 0;
    in_play = market_update.img;
    publish_time = publish_time;
  };
}

abbrev some_lines : List (Option (ℕ × List MarketUpdate))
some_lines =
    some (1_000, record { id = 20; img = false; body = 0 } ∷ [])
    ∷ none
    ∷ some (2_000, record { id = 20; img = true; body = 0 } ∷ [])
    ∷ some (3_000, record { id = 20; img = false; body = 1 } ∷ [])
    ∷ []

abbrev not_in_play : ListenerKwargs
not_in_play = record { inplay = some false; seconds_to_start = some 90_000 }

read_loop-Reads_example :
    Reads some_caching not_in_play [] some_lines (read_loop some_caching not_in_play some_lines [])
read_loop-Reads_example = read_loop-Reads not_in_play some_caching some_lines []

-- Two strategies of other names, and a digest of the name padded to 40 characters.
abbrev fifteen : Text
fifteen = 48 ∷ 48 ∷ 48 ∷ 48 ∷ 48 ∷ 48 ∷ 48 ∷ 48 ∷ 48 ∷ 48 ∷ 48 ∷ 48 ∷ 48 ∷ 48 ∷ 48 ∷ []

abbrev some_digest : Text → Text
some_digest [] = fifteen
some_digest (c ∷ t) = c ∷ fifteen

some_digest-long : (t : Text) → 13 ≤ length (some_digest t)
some_digest-long [] = omega arith
some_digest-long (c ∷ t) = omega arith

abbrev first_strategy : Strategy
first_strategy = record { key = 1; name = 97 ∷ [] }

abbrev second_strategy : Strategy
second_strategy = record { key = 2; name = 98 ∷ [] }

customer_order_ref-IsReadBack_example :
    IsReadBack some_digest
      (first_strategy ∷ second_strategy ∷ [])
      first_strategy
      (49 ∷ 50 ∷ [])
      (customer_order_ref (name_hash some_digest first_strategy) (45 ∷ []) (49 ∷ 50 ∷ []))
unfolding name_hash create_cheap_hash set_sep is_valid_customer_order_ref_character is_ref_character
customer_order_ref-IsReadBack_example =
    customer_order_ref-IsReadBack some_digest [] (second_strategy ∷ []) first_strategy (45 ∷ [])
      (45 ∷ []) (49 ∷ 50 ∷ []) some_digest-long (refl, tt) refl

-- An order that the simulation has matched, in an open market.
abbrev matched_order : Order
matched_order = record live_order {
  simulated = record fresh_simulated { size_matched = pos 50_000 };
}

abbrev paper_market : Market
paper_market = record (new_market 10 none) { blotter = set_item 1 matched_order new_blotter }

abbrev paper_floor : Floor
paper_floor = record {
  world = record some_world { orders = λ o. matched_order };
  markets = (10, paper_market) ∷ [];
  next_trade = 2;
}

poll_orders-IsSynced_example : IsSynced ((poll_orders (λ s. 5) 5 paper_floor).world.orders 1)
unfolding live_orders set_item
poll_orders-IsSynced_example =
    poll_orders-IsSynced (λ s. 5) 5 1 10 paper_market paper_floor refl refl refl refl refl refl

-- Books arrive, then nothing for a second, and then nothing for seven seconds.
abbrev later_rounds : List Round
later_rounds =
    record {
      arrived = none;
      live_orders = false;
      snap = 8 ∷ [];
      checked = 11_000;
      stamped = 11_001;
    }
    ∷ record {
      arrived = none;
      live_orders = false;
      snap = 9 ∷ [];
      checked = 17_000;
      stamped = 17_001;
    }
    ∷ []

abbrev first_round : Round
first_round = record {
  arrived = some (7 ∷ []);
  live_orders = false;
  snap = [];
  checked = 10_000;
  stamped = 10_000;
}

order_rounds-IsWatched_example :
    IsWatched new_output
      (first_round ∷ later_rounds)
      17_000
      (order_rounds (first_round ∷ later_rounds) new_output)
order_rounds-IsWatched_example =
    order_rounds-IsWatched first_round later_rounds new_output
      (omega arith, (omega arith, (omega arith, tt)))
