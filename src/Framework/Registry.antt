-- ===== src/Framework/Registry.antt =====
-- The registry of markets stays well formed in every run of the framework.
pub mod Operations
pub mod Reports
use flumine.Prelude.{
  ℕ, ◌≡◌, refl, sym, ◌∙◌, ap, subst, Bool, true, false, Option, none, some, List, [], ◌∷◌,
  Bool-cases, Option-cases, inl, inr, if◌then◌else◌,
}
use flumine.Prelude.Dict.{lookup, insert, has_key, drop_key}
use flumine.Book.{MarketBook}
use flumine.Markets.{
  Market, Markets, new_market, add_market, remove_market, take_book, close_market,
}
use flumine.Process.{
  Report, Floor, Settings, Found, raised, missing, found, market_or_new, adopt, create_from_report,
  find_order, find_bet_order, process_report, process_reports,
}
use flumine.Framework.{
  ClearedOrder, Event, market_books, market_catalogues, current_orders, cleared_orders,
  cleared_markets, close_book, close_datum, raw_data, Framework, Hooks, get_or_add, change_market,
  process_book, process_books, process_datum, process_data, take_catalogue, process_catalogues,
  process_current, process_cleared_orders, remove_markets, process_close, process_event, with_floor,
  old_markets, is_closed,
}
use flumine.Framework.Steps.{Step, arrives, executes, stores, handles, Run, stop, go}
use flumine.Framework.Registry.Reports.{process_reports-Lists}
use flumine.Framework.Registry.Operations.{
  IsRegistry, IsListed, Lists, insert-IsRegistry, drop_key-IsRegistry, lookup-id,
  add_market-IsRegistry,
}

-- What the user's strategies do keeps the registry.
pub record KeepsListed (hooks : Hooks) : Type 0 where
  pub books :
      (book : MarketBook) (f : Floor) → IsListed f → IsListed (hooks.process_market_book book f)
  pub data_ :
      (datum : ℕ × Bool) (f : Floor) → IsListed f → IsListed (hooks.process_raw_data datum f)
  pub orders : (f : Floor) → IsListed f → IsListed (hooks.process_orders f)
  pub closed : (id : ℕ) (f : Floor) → IsListed f → IsListed (hooks.process_closed_market id f)
  pub removal : (id : ℕ) (f : Floor) → IsListed f → IsListed (hooks.remove_market id f)

pick-IsListed : (b : Bool) (x y : Floor) → IsListed x → IsListed y → IsListed (if b then x else y)
pick-IsListed true x y h l = h
pick-IsListed false x y h l = l

pick_state-IsListed :
    (b : Bool) (x y : Framework)
    → IsListed x.floor
    → IsListed y.floor
    → IsListed (if b then x else y).floor
pick_state-IsListed true x y h l = h
pick_state-IsListed false x y h l = l

get_or_add-IsListed :
    (id : ℕ) (book : Option MarketBook) (f : Floor) → IsListed f → IsListed (get_or_add id book f)
unfolding get_or_add
get_or_add-IsListed id book f l = elim (Option-cases (lookup id f.markets)) [
  | inl unknown ↦
      rw (get_or_add, unknown) (add_market-IsRegistry id (new_market id book) f.markets refl l)
  | inr (market, known) ↦
      rw (get_or_add, known)
        (pick-IsListed market.closed _ f
          (add_market-IsRegistry id market f.markets (lookup-id id market f.markets l known) l) l)
]

change_market-IsListed :
    (id : ℕ) (g : Market → Market) (f : Floor)
    → ((m : Market) → (g m).market_id ≡ m.market_id)
    → IsListed f
    → IsListed (change_market id g f)
unfolding change_market
change_market-IsListed id g f same l = elim (Option-cases (lookup id f.markets)) [
  | inl unknown ↦ rw (change_market, unknown) l
  | inr (market, known) ↦
      rw (change_market, known)
        (insert-IsRegistry id (g market) f.markets
          (same market ∙ lookup-id id market f.markets l known) l)
]

process_catalogues-IsListed :
    (ids : List ℕ) (f : Floor) → IsListed f → IsListed (process_catalogues ids f)
unfolding process_catalogues
process_catalogues-IsListed [] f l = l
process_catalogues-IsListed (id ∷ ids) f l =
    process_catalogues-IsListed ids (change_market id take_catalogue f)
      (change_market-IsListed id take_catalogue f (λ m. refl) l)

pick-id :
    (b : Bool) (market : Market) (now : ℕ)
    → (if b then market else close_market now market).market_id ≡ market.market_id
unfolding close_market
pick-id true market now = refl
pick-id false market now = refl

process_cleared-IsListed :
    (id : ℕ) (orders : List ClearedOrder) (f : Floor)
    → IsListed f
    → IsListed (process_cleared_orders id orders f)
unfolding process_cleared_orders
process_cleared-IsListed id orders f l = elim (Option-cases (lookup id f.markets)) [
  | inl unknown ↦ rw (process_cleared_orders, unknown) l
  | inr (market, known) ↦ rw (process_cleared_orders, known) l
]

module _ (hooks : Hooks) (keeps : KeepsListed hooks) where
  process_book-IsListed :
      (book : MarketBook) (s : Framework)
      → IsListed s.floor
      → IsListed (process_book hooks book s).floor
  unfolding process_book take_book
  process_book-IsListed book s l = elim (Bool-cases (is_closed book.status)) [
    | inl shut ↦ rw (process_book, shut) (get_or_add-IsListed book.market_id (some book) s.floor l)
    | inr opened ↦
        rw (process_book, opened)
          (keeps.books book _ (
            change_market-IsListed book.market_id (take_book book) _ (λ m. refl)
              (get_or_add-IsListed book.market_id (some book) s.floor l)))
  ]

  process_books-IsListed :
      (books : List MarketBook) (s : Framework)
      → IsListed s.floor
      → IsListed (process_books hooks books s).floor
  unfolding process_books
  process_books-IsListed [] s l = l
  process_books-IsListed (book ∷ books) s l =
      process_books-IsListed books (process_book hooks book s) (process_book-IsListed book s l)

  process_datum-IsListed :
      (datum : ℕ × Bool) (s : Framework)
      → IsListed s.floor
      → IsListed (process_datum hooks datum s).floor
  unfolding process_datum
  process_datum-IsListed datum s l =
      let added = get_or_add-IsListed datum.0 none s.floor l in
      keeps.data_ datum _ (pick_state-IsListed datum.1 _ _ added added)

  process_data-IsListed :
      (items : List (ℕ × Bool)) (s : Framework)
      → IsListed s.floor
      → IsListed (process_data hooks items s).floor
  unfolding process_data
  process_data-IsListed [] s l = l
  process_data-IsListed (datum ∷ items) s l =
      process_data-IsListed items (process_datum hooks datum s) (process_datum-IsListed datum s l)

  remove_markets-Lists :
      (ids : List ℕ) (f : Floor) → IsListed f → Lists (remove_markets hooks ids f)
  unfolding remove_markets remove_market
  remove_markets-Lists [] f l = l
  remove_markets-Lists (id ∷ ids) f l =
      elim (Bool-cases (has_key id (hooks.remove_market id f).markets)) [
        | inl listed ↦
            rw (remove_markets, remove_market, listed)
              (remove_markets-Lists ids _ (drop_key-IsRegistry id _ (keeps.removal id f l)))
        | inr absent ↦ rw (remove_markets, remove_market, absent) tt
      ]

  process_close-Lists :
      (id : ℕ) (book : Option MarketBook) (f : Floor)
      → IsListed f
      → Lists (process_close hooks id book f)
  unfolding process_close
  process_close-Lists id book f l = elim (Option-cases (lookup id f.markets)) [
    | inl unknown ↦ rw (process_close, unknown) l
    | inr (market, known) ↦
        rw (process_close, known)
          (remove_markets-Lists _ _ (
            keeps.closed id _ (
              insert-IsRegistry id _ f.markets
                (pick-id market.closed market f.world.clock ∙ lookup-id id market f.markets l known)
                l)))
  ]

  -- The outcome, where nothing is raised, has a well-formed registry.
  abbrev ListsState : Option Framework → Type 0
  ListsState none = Unit
  ListsState (some s) = IsListed s.floor

  with_floor-ListsState :
      (s : Framework) (outcome : Option Floor) → Lists outcome → ListsState (with_floor s outcome)
  with_floor-ListsState s none l = tt
  with_floor-ListsState s (some f) l = l

  process_current-ListsState :
      (reports : List Report) (s : Framework)
      → IsListed s.floor
      → ListsState (process_current hooks reports s)
  unfolding process_current
  process_current-ListsState reports s l =
      elim (Option-cases (process_reports hooks.settings reports s.floor)) [
        | inl raises ↦ rw (process_current, raises) tt
        | inr (f, runs) ↦
            rw (process_current, runs)
              (keeps.orders f
                (subst Lists runs (process_reports-Lists hooks.settings reports s.floor l)))
      ]

  process_event-ListsState :
      (event : Event) (s : Framework) → IsListed s.floor → ListsState (process_event hooks event s)
  unfolding process_event
  process_event-ListsState (market_books books) s l = process_books-IsListed books s l
  process_event-ListsState (market_catalogues ids) s l = process_catalogues-IsListed ids s.floor l
  process_event-ListsState (current_orders reports) s l = process_current-ListsState reports s l
  process_event-ListsState (cleared_markets id ids) s l = l
  process_event-ListsState (cleared_orders id orders) s l =
      process_cleared-IsListed id orders s.floor l
  process_event-ListsState (close_book book) s l =
      with_floor-ListsState s _ (process_close-Lists book.market_id (some book) s.floor l)
  process_event-ListsState (close_datum id) s l =
      with_floor-ListsState s _ (process_close-Lists id none s.floor l)
  process_event-ListsState (raw_data items) s l = process_data-IsListed items s l

  Step-IsListed : (s s' : Framework) → Step hooks s s' → IsListed s.floor → IsListed s'.floor
  Step-IsListed _ _ (arrives event s) l = l
  Step-IsListed _ _ (executes w s) l = l
  Step-IsListed _ _ (stores id b s) l =
      change_market-IsListed id (λ m. record m { blotter = b }) s.floor (λ m. refl) l
  Step-IsListed s s' (handles event rest _ _ next runs) l =
      subst ListsState runs (process_event-ListsState event (record s { handler_queue = rest }) l)

  runs-IsListed : (s s' : Framework) → Run hooks s s' → IsListed s.floor → IsListed s'.floor
  runs-IsListed _ _ (stop s) l = l
  runs-IsListed _ _ (go s s1 s2 step rest) l = runs-IsListed s1 s2 rest (Step-IsListed s s1 step l)

-- Where the strategies keep the registry of markets well formed, each run of the framework does,
-- whatever events other threads put into the queue and whatever they do to the store and to the
-- blotters meanwhile: each market is listed once, under its id.
Run-IsListed :
    (hooks : Hooks) (s s' : Framework)
    → KeepsListed hooks
    → Run hooks s s'
    → IsListed s.floor
    → IsListed s'.floor
Run-IsListed hooks s s' keeps steps l = runs-IsListed hooks keeps s s' steps l
