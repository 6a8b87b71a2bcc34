-- ===== src/Package/Groups.antt =====
-- `_create_order_package` groups the pending orders by market version and cuts the groups up.
use flumine.Prelude.{
  ℕ, ◌+◌, ◌≤◌, ◌<◌, ◌≡◌, refl, ap, Bool, Option, List, [], ◌∷◌, ◌++◌, ◌==◌, arith, All, All-append,
  length, if◌then◌else◌,
}
use flumine.Controls.{PackageType}
use flumine.Package.{
  Package, new_package, Pending, chunks, add_to_group, group_orders, packages_of_chunks,
  packages_of_groups, create_order_package,
}
use flumine.Package.Chunks.{join, chunks_lem}

-- How often an order is in a list, in a list of requests, in groups and in packages.
abbrev pub count : ℕ → List ℕ → ℕ
count o [] = 0
count o (x ∷ xs) = (if o == x then 1 else 0) + count o xs

abbrev pub count_pending : ℕ → List Pending → ℕ
count_pending o [] = 0
count_pending o ((x, v) ∷ pending) = (if o == x then 1 else 0) + count_pending o pending

abbrev count_groups : ℕ → List (Option ℕ × List ℕ) → ℕ
count_groups o [] = 0
count_groups o ((v, os) ∷ groups) = count o os + count_groups o groups

abbrev pub count_packages : ℕ → List Package → ℕ
count_packages o [] = 0
count_packages o (p ∷ packages) = count o p.orders + count_packages o packages

count-append : (o : ℕ) (xs ys : List ℕ) → count o (xs ++ ys) ≡ count o xs + count o ys
count-append o [] ys = omega arith
count-append o (x ∷ xs) ys = omega (arith, count-append o xs ys)

pub count_packages-append :
    (o : ℕ) (ps qs : List Package)
    → count_packages o (ps ++ qs) ≡ count_packages o ps + count_packages o qs
count_packages-append o [] qs = omega arith
count_packages-append o (p ∷ ps) qs = omega (arith, count_packages-append o ps qs)

count-add_to_group :
    (o x : ℕ) (v : Option ℕ) (groups : List (Option ℕ × List ℕ))
    → count_groups o (add_to_group x v groups) ≡ (if o == x then 1 else 0) + count_groups o groups
unfolding add_to_group
count-add_to_group o x v [] = omega arith
count-add_to_group o x v ((v', os) ∷ groups) =
    ground (arith, count-append o os (x ∷ []), count-add_to_group o x v groups)

count-group_orders :
    (o : ℕ) (pending : List Pending) (groups : List (Option ℕ × List ℕ))
    → count_groups o (group_orders pending groups) ≡ count_pending o pending + count_groups o groups
unfolding group_orders
count-group_orders o [] groups = omega arith
count-group_orders o ((x, v) ∷ pending) groups =
    omega (
      arith,
      count-group_orders o pending (add_to_group x v groups),
      count-add_to_group o x v groups,
    )

-- A package that holds at least one order and no more than the limit.
abbrev pub Fits : ℕ → List Package → Type 0
Fits limit = All (λ p. (0 < length p.orders) × (length p.orders ≤ limit))

module _ (make : List ℕ → Option ℕ → Package)
    (whole : (c : List ℕ) (v : Option ℕ) → (make c v).orders ≡ c) where
  count-packages_of_chunks :
      (o : ℕ) (v : Option ℕ) (cs : List (List ℕ))
      → count_packages o (packages_of_chunks (λ c. make c v) cs) ≡ count o (join cs)
  unfolding packages_of_chunks
  count-packages_of_chunks o v [] = refl
  count-packages_of_chunks o v (c ∷ cs) =
      omega (
        arith,
        ap (count o) (whole c v),
        count-append o c (join cs),
        count-packages_of_chunks o v cs,
      )

  packages_of_chunks-Fits :
      (limit : ℕ) (v : Option ℕ) (cs : List (List ℕ))
      → All (λ c. (0 < length c) × (length c ≤ limit)) cs
      → Fits limit (packages_of_chunks (λ c. make c v) cs)
  unfolding packages_of_chunks
  packages_of_chunks-Fits limit v [] h = tt
  packages_of_chunks-Fits limit v (c ∷ cs) h =
      (rw (whole c v) h.0, packages_of_chunks-Fits limit v cs h.1)

  packages_of_groups_lem :
      (limit : ℕ) (o : ℕ) (groups : List (Option ℕ × List ℕ))
      → 0 < limit
      → (count_packages o (packages_of_groups make limit groups) ≡ count_groups o groups)
        × Fits limit (packages_of_groups make limit groups)
  unfolding packages_of_groups
  packages_of_groups_lem limit o [] h = (refl, tt)
  packages_of_groups_lem limit o ((v, os) ∷ groups) h =
      let (joined, fits) = chunks_lem os limit h in
      let (counted, rest) = packages_of_groups_lem limit o groups h in
      let ps = packages_of_chunks (λ c. make c v) (chunks os limit) in
      (
        omega (
          arith,
          count_packages-append o ps (packages_of_groups make limit groups),
          count-packages_of_chunks o v (chunks os limit),
          ap (count o) joined,
          counted,
        ),
        All-append (λ p. (0 < length p.orders) × (length p.orders ≤ limit)) ps
            (packages_of_groups make limit groups)
            (packages_of_chunks-Fits limit v (chunks os limit) fits) rest,
      )

-- With a positive limit an order is in the packages as often as it is pending, and each package
-- holds at least one order and no more than the limit.
pub create_order_package_lem :
    (market_id : ℕ) (package_type : PackageType) (bet_delay : ℕ) (async_ : Bool) (limit o : ℕ)
    (pending : List Pending)
    → 0 < limit
    → let packages =
        create_order_package
          (λ chunk v. new_package market_id chunk package_type bet_delay async_ v)
          limit
          pending in
      (count_packages o packages ≡ count_pending o pending) × Fits limit packages
unfolding create_order_package
create_order_package_lem market_id package_type bet_delay async_ limit o pending h =
    let make : List ℕ → Option ℕ → Package =
      λ chunk v. new_package market_id chunk package_type bet_delay async_ v in
    let (counted, fits) =
      packages_of_groups_lem make (λ c v. refl) limit o (group_orders pending []) h in
    (omega (arith, counted, count-group_orders o pending []), fits)
