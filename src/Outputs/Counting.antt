-- ===== src/Outputs/Counting.antt =====
-- The live market count of a data stream.
use flumine.Prelude.{
  ℕ, List, [], ◌∷◌, contains, Distinct, remove-Distinct, append-Distinct, Bool-cases, inl, inr,
}
use flumine.Outputs.{RawMarket, count_market, count_markets}

count_market-Distinct :
    (market : RawMarket) (caches : List ℕ) → Distinct caches → Distinct (count_market market caches)
unfolding count_market
count_market-Distinct market caches d = elim (Bool-cases market.closed) [
  | inl closed ↦ rw closed (remove-Distinct market.id caches d)
  | inr live ↦ rw live (elim (Bool-cases (contains market.id caches)) [
    | inl known ↦ rw known d
    | inr new ↦ rw new (append-Distinct market.id caches d new)
  ])
]

-- However markets are updated and closed, each is counted at most once.
count_markets-Distinct :
    (data_ : List RawMarket) (caches : List ℕ)
    → Distinct caches
    → Distinct (count_markets data_ caches)
unfolding count_markets
count_markets-Distinct [] caches d = d
count_markets-Distinct (market ∷ data_) caches d =
    count_markets-Distinct data_ (count_market market caches)
      (count_market-Distinct market caches d)
