-- ===== src/Ladder.antt =====
-- The price ladder of utils.py, in hundredths: `make_prices`, `get_nearest_price` and
-- `price_ticks_away`. A row of `CUTOFFS` holds where a band ends and its increment, the source's
-- `1 / step`.
pub mod Table
pub mod Rounding
pub mod Nearest
use mathlib.Core.Option
use flumine.Prelude.{
  ℕ, zero, suc, ◌+◌, ◌-◌, ◌*◌, ◌/◌, Option, none, some, List, [], ◌∷◌, ◌++◌, ◌==◌, ltb, leb,
  get_elem?, if◌then◌else◌,
}
use flumine.Prelude.Int.{ℤ, pos, negsuc}
use flumine.Prelude.Decimal.{Price}

-- `CUTOFFS`
abbrev pub cutoffs : List (Price × Price)
cutoffs =
    (200, 1)
    ∷ (300, 2)
    ∷ (400, 5)
    ∷ (600, 10)
    ∷ (1000, 20)
    ∷ (2000, 50)
    ∷ (3000, 100)
    ∷ (5000, 200)
    ∷ (10000, 500)
    ∷ (100000, 1000)
    ∷ []

abbrev pub min_price : Price
min_price = 101

abbrev pub max_price : Price
max_price = 100000

-- The loop of `arange`, with fuel for its rounds.
unfoldable pub arange_loop : ℕ → Price → Price → Price → List Price
arange_loop zero start stop step = []
arange_loop (suc fuel) start stop step =
    let rest = arange_loop fuel (start + step) stop step in
    if ltb start stop then start ∷ rest else []

-- `arange`: a positive step takes at most `stop - start` rounds.
unfoldable pub arange : Price → Price → Price → List Price
arange start stop step = arange_loop (stop - start) start stop step

-- The loop of `make_prices` from the cursor on, with the last price.
unfoldable pub make_prices : Price → List (Price × Price) → List Price
make_prices cursor [] = max_price ∷ []
make_prices cursor ((cutoff, step) ∷ rows) = arange cursor cutoff step ++ make_prices cutoff rows

-- `PRICES`
unfoldable pub prices : List Price
prices = make_prices min_price cutoffs

-- The `for` loop of `get_nearest_price`: the increment of the first band that ends above the price,
-- or the last one.
unfoldable pub find_step : Price → Price → List (Price × Price) → Price
find_step price step [] = step
find_step price step ((cutoff, step') ∷ rows) =
    if ltb price cutoff then step' else find_step price step' rows

-- `(price * step).quantize(2, ROUND_HALF_UP) / step`
unfoldable pub round_to : Price → Price → Price
round_to step price = step * ((2 * price + step) / (2 * step))

unfoldable pub get_nearest_price : Price → Price
get_nearest_price price =
    if leb price min_price
    then min_price
    else if ltb max_price price
    then max_price
    else round_to (find_step price 1 cutoffs) price

-- `list.index`; none is the ValueError
unfoldable pub index : Price → List Price → Option ℕ
index price [] = none
index price (p ∷ ps) = if p == price then some 0 else Option.map suc (index price ps)

-- `PRICES[i]`, or the source's answer to the IndexError
abbrev pub price_at : ℕ → List Price → Price
price_at i ps = elim (get_elem? ps i) [ none ↦ max_price | some p ↦ p ]

-- The price at an index moved by a number of ticks.
unfoldable pub price_from : ℕ → ℤ → List Price → Price
price_from i (pos n) ps = price_at (i + n) ps
price_from i (negsuc n) ps = if ltb i (suc n) then 101 else price_at (i - suc n) ps

-- `price_ticks_away`; none is the ValueError of a price off the ladder, which is not caught
unfoldable pub price_ticks_away : Price → ℤ → Option Price
price_ticks_away price n_ticks = Option.map (λ i. price_from i n_ticks prices) (index price prices)
