-- ===== src/Worker/Closure.antt =====
-- A poll of the closed markets settles them.
use flumine.Prelude.{
  ℕ, ◌<◌, ◌≡◌, refl, sym, ap, ◌∙◌, subst, Bool, true, false, not, ◌&&◌, ◌||◌, Option, none, some,
  List, [], ◌∷◌, ◌++◌, length, if◌then◌else◌, ap₂, of_not, neither,
}
use mathlib.Core.Bool.{true≢false}
use flumine.Markets.{Market, Markets}
use flumine.Framework.{ClearedOrder, Event, Framework, set_markets}
use flumine.Worker.{
  Exchange, Polled, get_cleared_orders, get_cleared_market, clear_orders, clear_market, poll_closed,
  both, poll_markets, poll_market_closure, put_all,
}
use flumine.Worker.Clearing.{Serves, get_cleared_orders-from}

-- The exchange has settled some orders of each market, serves them in pages, and has the market.
pub record Settles (exchange : Exchange) (limit fuel : ℕ) : Type 0 where
  pub orders : ℕ → List ClearedOrder
  pub serves : (market_id : ℕ) → Serves exchange market_id (orders market_id) limit
  pub positive : 0 < limit
  pub enough : (market_id : ℕ) → length (orders market_id) < fuel
  pub market :
      (market_id : ℕ)
      → (first : ℕ) × (others : List ℕ) × (exchange.list_cleared_markets market_id
          ≡ some (first ∷ others))

-- A market that is polled to the end: its two marks are set, and what else was read of it is as before.
pub record IsSettled (m m' : Market) : Type 0 where
  pub orders_cleared : m'.orders_cleared ≡ true
  pub market_cleared : m'.market_cleared ≡ true
  pub market_id_eq : m'.market_id ≡ m.market_id
  pub closed_eq : m'.closed ≡ m.closed
  pub blotter_eq : m'.blotter ≡ m.blotter

-- Market by market: a closed one is settled, an open one is as it was.
abbrev pub AreSettled : Markets → Markets → Type 0
AreSettled [] [] = Unit
AreSettled (item ∷ ms) (item' ∷ ms') =
    (item'.0 ≡ item.0)
    × (item.1.closed ≡ true → IsSettled item.1 item'.1)
    × (item.1.closed ≡ false → item'.1 ≡ item.1)
    × AreSettled ms ms'
AreSettled _ _ = ⊥

-- A market with both marks set, else as it was, is settled.
marked-IsSettled :
    (m m' : Market)
    → m' ≡ record m { orders_cleared = true; market_cleared = true }
    → IsSettled m m'
marked-IsSettled m m' e = subst (IsSettled m) (sym e) (record {
  orders_cleared = refl;
  market_cleared = refl;
  market_id_eq = refl;
  closed_eq = refl;
  blotter_eq = refl;
})

-- The poll of a market's orders, whether its mark was set or not.
record OrdersPolled (m : Market) (result : Option (Market × List Event)) : Type 0 where
  polled : Market
  events : List Event
  finished : result ≡ some (polled, events)
  kept : polled ≡ record m { orders_cleared = true }

live_poll :
    (state : Framework) (paper_trade : Bool) (result : Option (Markets × List Event)) (ms : Markets)
    (events : List Event)
    → paper_trade ≡ false
    → result ≡ some (ms, events)
    → (if paper_trade then some state else elim result [
      | none ↦ none
      | some (ms, events) ↦
          some (put_all events (record state { floor = set_markets ms state.floor }))
    ])
      ≡ some (put_all events (record state { floor = set_markets ms state.floor }))
live_poll state paper_trade result ms events live e = rw (live, e) refl

module _ (exchange : Exchange) (limit fuel : ℕ) (s : Settles exchange limit fuel) where
  orders_marked :
      (m : Market) (flag : Bool)
      → m.orders_cleared ≡ flag
      → OrdersPolled m (
          if flag then some (m, []) else elim (get_cleared_orders fuel exchange m.market_id 0) [
            | none ↦ none
            | some polled ↦ some (record m { orders_cleared = polled.done }, polled.events)
          ])
  orders_marked m true h = record {
    polled = m;
    events = [];
    finished = refl;
    kept = ap (λ b. record m { orders_cleared = b }) h;
  }
  orders_marked m false h =
      let c =
        get_cleared_orders-from fuel exchange m.market_id (s.orders m.market_id) limit 0
          (s.serves m.market_id) s.positive (s.enough m.market_id) in
      rw c.finished (record {
        polled = record m { orders_cleared = true };
        events = c.events;
        finished = refl;
        kept = refl;
      })

  clear_orders-OrdersPolled : (m : Market) → OrdersPolled m (clear_orders fuel exchange m)
  unfolding clear_orders
  clear_orders-OrdersPolled m = orders_marked m m.orders_cleared refl

  get_cleared_market-done : (market_id : ℕ) → (get_cleared_market exchange market_id).done ≡ true
  unfolding get_cleared_market
  get_cleared_market-done market_id =
      let (first, others, e) = s.market market_id in rw (get_cleared_market, e) refl

  market_marked :
      (m : Market) (flag : Bool) (polled : Polled)
      → m.market_cleared ≡ flag
      → polled.done ≡ true
      → (if◌then◌else◌ {A = Market × List Event} flag
          (m, [])
          (record m { market_cleared = polled.done }, polled.events)).0
        ≡ record m { market_cleared = true }
  market_marked m true polled h done = ap (λ b. record m { market_cleared = b }) h
  market_marked m false polled h done = ap (λ b. record m { market_cleared = b }) done

  clear_market-marked :
      (m : Market) → (clear_market exchange m).0 ≡ record m { market_cleared = true }
  unfolding clear_market
  clear_market-marked m =
      market_marked m m.market_cleared (get_cleared_market exchange m.market_id) refl
        (get_cleared_market-done m.market_id)

  poll_closed-IsSettled :
      (m : Market)
      → (m' : Market) × (events : List Event) × (poll_closed fuel exchange m ≡ some (m', events))
        × IsSettled m m'
  unfolding poll_closed
  poll_closed-IsSettled m =
      let c = clear_orders-OrdersPolled m in
      let after = clear_market exchange c.polled in
      (
        after.0,
        c.events ++ after.1,
        rw (poll_closed, c.finished) refl,
        marked-IsSettled m after.0 (
            clear_market-marked c.polled
            ∙ ap (λ (x : Market). record x { market_cleared = true }) c.kept),
      )

  -- A market of the loop, polled or left alone.
  record MarketPolled (m : Market) (result : Option (Market × List Event)) : Type 0 where
    polled : Market
    events : List Event
    finished : result ≡ some (polled, events)
    settled : m.closed ≡ true → IsSettled m polled
    left : m.closed ≡ false → polled ≡ m

  market_polled :
      (m : Market) (closed uncleared : Bool)
      → m.closed ≡ closed
      → (not m.orders_cleared || not m.market_cleared) ≡ uncleared
      → MarketPolled m (if closed && uncleared then poll_closed fuel exchange m else some (m, []))
  market_polled m true true c u =
      let (m', events, e, v) = poll_closed-IsSettled m in
      record {
        polled = m';
        events = events;
        finished = e;
        settled = λ h. v;
        left = λ h. absurd (true≢false (sym c ∙ h));
      }
  market_polled m true false c u =
      let (orders_cleared, market_cleared) =
        neither (not m.orders_cleared) (not m.market_cleared) u in
      record {
        polled = m;
        events = [];
        finished = refl;
        settled = λ h. record {
          orders_cleared = of_not m.orders_cleared orders_cleared;
          market_cleared = of_not m.market_cleared market_cleared;
          market_id_eq = refl;
          closed_eq = refl;
          blotter_eq = refl;
        };
        left = λ h. refl;
      }
  market_polled m false uncleared c u = record {
    polled = m;
    events = [];
    finished = refl;
    settled = λ h. absurd (true≢false (sym h ∙ c));
    left = λ h. refl;
  }

  record MarketsPolled (ms : Markets) (result : Option (Markets × List Event)) : Type 0 where
    polled : Markets
    events : List Event
    finished : result ≡ some (polled, events)
    settled : AreSettled ms polled

  poll_markets-ends : (ms : Markets) → MarketsPolled ms (poll_markets fuel exchange ms)
  unfolding poll_markets
  poll_markets-ends [] = record { polled = []; events = []; finished = refl; settled = tt }
  poll_markets-ends (item ∷ ms) =
      let one =
        market_polled item.1 item.1.closed (not item.1.orders_cleared || not item.1.market_cleared)
          refl refl in
      let rest = poll_markets-ends ms in
      record {
        polled = (item.0, one.polled) ∷ rest.polled;
        events = one.events ++ rest.events;
        finished = ap₂ (both item.0) one.finished rest.finished;
        settled = (refl, one.settled, one.left, rest.settled);
      }

  -- Where the exchange serves the settled orders of each market in pages of a positive size, with
  -- fewer orders than there is fuel, and knows each market, a poll by a client that trades live ends;
  -- it marks each closed market as cleared, in its orders and as a market, leaves each other market
  -- and the store as they were, and only adds events to the queue.
  pub poll_market_closure-AreSettled :
      (state : Framework)
      → exchange.paper_trade ≡ false
      → (state' : Framework) × (events : List Event) × (poll_market_closure fuel exchange state
          ≡ some state')
        × AreSettled state.floor.markets state'.floor.markets
        × (state'.floor.world ≡ state.floor.world)
        × (state'.handler_queue ≡ state.handler_queue ++ events)
  unfolding poll_market_closure
  poll_market_closure-AreSettled state live =
      let all = poll_markets-ends state.floor.markets in
      (
        put_all all.events (record state { floor = set_markets all.polled state.floor }),
        all.events,
        live_poll state exchange.paper_trade _ all.polled all.events live all.finished,
        all.settled,
        refl,
        refl,
      )
