-- ===== src/Framework/Registry/Reports.antt =====
-- The reports of the order stream keep the registry of markets well formed.
use flumine.Prelude.{
  ℕ, ◌≡◌, ◌⊎◌, refl, subst, Bool, true, false, Option, none, some, List, [], ◌∷◌, Option-cases, inl,
  inr, if◌then◌else◌,
}
use flumine.Prelude.Dict.{lookup}
use flumine.Order.{OrderType}
use flumine.Markets.{Markets, new_market, get_order, get_order_from_bet_id}
use flumine.Process.{
  Report, Floor, Settings, Found, raised, missing, found, market_or_new, adopt, create_from_report,
  find_order, bet_differs, find_bet_order, process_report, process_reports,
}
use flumine.Framework.Registry.Operations.{
  IsRegistry, IsListed, Lists, insert-IsRegistry, lookup-id, add_market-IsRegistry,
}

market_or_new-IsRegistry :
    (id : ℕ) (ms : Markets)
    → IsRegistry ms
    → IsRegistry (market_or_new id ms).1 × ((market_or_new id ms).0.market_id ≡ id)
unfolding market_or_new
market_or_new-IsRegistry id ms r = elim (Option-cases (lookup id ms)) [
  | inl unknown ↦
      rw (market_or_new, unknown) (add_market-IsRegistry id (new_market id none) ms refl r, refl)
  | inr (market, known) ↦ rw (market_or_new, known) (r, lookup-id id market ms r known)
]

abbrev FoundListed : Found → Type 0
FoundListed raised = Unit
FoundListed missing = Unit
FoundListed (found o f) = IsListed f

adopt-IsListed :
    (settings : Settings) (strategy : ℕ) (order_type : OrderType) (r : Report) (f : Floor)
    → IsListed f
    → IsListed (adopt settings strategy order_type r f)
unfolding adopt
adopt-IsListed settings strategy order_type r f l =
    let (listed, id_eq) = market_or_new-IsRegistry r.market_id f.markets l in
    insert-IsRegistry r.market_id _ _ id_eq listed

find_order-FoundListed :
    (settings : Settings) (r : Report) (f : Floor)
    → IsListed f
    → FoundListed (find_order settings r f)
unfolding find_order create_from_report
find_order-FoundListed settings r f l =
    elim (Option-cases (get_order r.market_id r.order_id f.markets)) [
      | inr (o, known) ↦ rw (find_order, known) l
      | inl unknown ↦ elim (Option-cases (settings.hashes r.strategy_hash)) [
        | inl stranger ↦ rw (find_order, unknown, create_from_report, stranger) tt
        | inr (strategy, named) ↦ elim (Option-cases r.order_type) [
          | inl untyped ↦ rw (find_order, unknown, create_from_report, named, untyped) tt
          | inr (order_type, typed) ↦
              rw (find_order, unknown, create_from_report, named, typed)
                (adopt-IsListed settings strategy order_type r f l)
        ]
      ]
    ]

bet_found :
    (b : Bool) (known : Option (Option ℕ)) (o : ℕ) (f : Floor)
    → IsListed f
    → FoundListed (
        if b
        then elim known as (λ x. Found) [
          | none ↦ raised
          | some none ↦ missing
          | some (some o') ↦ found o' f
        ]
        else found o f)
bet_found false known o f l = l
bet_found true none o f l = tt
bet_found true (some none) o f l = tt
bet_found true (some (some o')) o f l = l

find_bet_order-FoundListed :
    (r : Report) (known : Found) → FoundListed known → FoundListed (find_bet_order r known)
unfolding find_bet_order
find_bet_order-FoundListed r (found o f) l =
    bet_found (bet_differs (f.world.orders o).bet_id r.current.bet_id)
      (get_order_from_bet_id f.world.orders r.market_id r.current.bet_id f.markets) o f l
find_bet_order-FoundListed r raised l = tt
find_bet_order-FoundListed r missing l = tt

found_cases :
    (known : Found)
    → (known ≡ raised) ⊎ ((known ≡ missing) ⊎ ((o : ℕ) × (g : Floor) × (known ≡ found o g)))
found_cases raised = inl refl
found_cases missing = inr (inl refl)
found_cases (found o g) = inr (inr (o, g, refl))

-- One step after another: what raises nothing goes on from a listed floor.
then-Lists :
    (outcome : Option Floor) (next : Floor → Option Floor)
    → Lists outcome
    → ((g : Floor) → IsListed g → Lists (next g))
    → Lists (elim outcome as (λ x. Option Floor) [ none ↦ none | some g ↦ next g ])
then-Lists none next h step = tt
then-Lists (some g) next h step = step g h

process_report-Lists :
    (settings : Settings) (r : Report) (f : Floor)
    → IsListed f
    → Lists (process_report settings r f)
unfolding process_report
process_report-Lists settings r f l =
    elim (found_cases (find_bet_order r (find_order settings r f))) [
      | inl raises ↦ rw (process_report, raises) tt
      | inr (inl unknown) ↦ rw (process_report, unknown) l
      | inr (inr (o, g, known)) ↦
          rw (process_report, known)
            (subst FoundListed known (
              find_bet_order-FoundListed r (find_order settings r f)
                (find_order-FoundListed settings r f l)))
    ]

pub process_reports-Lists :
    (settings : Settings) (rs : List Report) (f : Floor)
    → IsListed f
    → Lists (process_reports settings rs f)
unfolding process_reports
process_reports-Lists settings [] f l = l
process_reports-Lists settings (r ∷ rs) f l =
    then-Lists (process_report settings r f) (process_reports settings rs)
      (process_report-Lists settings r f l) (λ g h. process_reports-Lists settings rs g h)
