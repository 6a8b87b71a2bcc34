-- ===== src/Historical.antt =====
-- The recorded streams: `FlumineMarketStream` and the loop of `FlumineHistoricalGeneratorStream`, of
-- streams/historicalstream.py. The caches of market books are betfairlightweight's: how one is made
-- and updated is an argument. Times are milliseconds.
pub mod Filtering
use flumine.Prelude.{
  ℕ, zero, suc, ◌+◌, Bool, true, false, not, ◌&&◌, ◌||◌, Option, none, some, List, [], ◌∷◌,
  contains, ltb, keep, if◌then◌else◌,
}
use flumine.Prelude.Dict.{Dict, values, lookup, insert}
use flumine.Streams.{ListenerKwargs}

-- What the code reads of a `MarketBookCache`, with its contents
pub record MarketBookCache : Type 0 where
  pub market_id : ℕ
  pub is_open : Bool
  pub in_play : Bool
  pub publish_time : ℕ
  pub market_time : ℕ
  pub contents : ℕ

-- An update of a market: its id, whether it is a full image, and the rest
pub record MarketUpdate : Type 0 where
  pub id : ℕ
  pub img : Bool
  pub body : ℕ

-- betfairlightweight's `MarketBookCache(...)` and `update_cache`, at a publish time
pub record Caching : Type 0 where
  pub new_cache : ℕ → ℕ → MarketBookCache
  pub update_cache : MarketUpdate → ℕ → MarketBookCache → MarketBookCache

abbrev pub Caches : Type 0
Caches = Dict MarketBookCache

-- One market of `_process`
unfoldable pub process_update : Caching → ℕ → MarketUpdate → Caches → Caches
process_update c publish_time market_book caches =
    let fresh = c.new_cache market_book.id publish_time in
    let cache =
      if market_book.img
      then fresh
      else elim (lookup market_book.id caches) [ none ↦ fresh | some cache ↦ cache ] in
    insert market_book.id (c.update_cache market_book publish_time cache) caches

-- `_process`
unfoldable pub process_updates : Caching → ℕ → List MarketUpdate → Caches → Caches
process_updates c publish_time [] caches = caches
process_updates c publish_time (market_book ∷ data_) caches =
    process_updates c publish_time data_ (process_update c publish_time market_book caches)

-- `seconds_to_start`, in milliseconds: whether the market starts later than that
abbrev pub starts_later : Option ℕ → MarketBookCache → Bool
starts_later none cache = false
starts_later (some zero) cache = false
starts_later (some (suc n)) cache = ltb (cache.publish_time + suc n) cache.market_time

-- Whether the listener holds the book of an open market back
unfoldable pub holds_back : ListenerKwargs → MarketBookCache → Bool
holds_back listener cache = elim listener.inplay [
  | some true ↦ not cache.in_play
  | some false ↦ starts_later listener.seconds_to_start cache || cache.in_play
  | none ↦ starts_later listener.seconds_to_start cache
]

abbrev pub not_asked : Option (List ℕ) → MarketBookCache → Bool
not_asked (some (id ∷ ids)) cache = not (contains cache.market_id (id ∷ ids))
not_asked _ cache = false

-- `snap`
unfoldable pub snap : ListenerKwargs → Option (List ℕ) → Caches → List MarketBookCache
snap listener market_ids caches =
    keep
      (λ cache.
        not (not_asked market_ids cache) && not (cache.is_open && holds_back listener cache))
      (values caches)

-- `on_data`: a line that does not parse, none, is logged
unfoldable pub on_data : Caching → Option (ℕ × List MarketUpdate) → Caches → Caches
on_data c none caches = caches
on_data c (some (publish_time, data_)) caches = process_updates c publish_time data_ caches

-- `if data: yield data`
abbrev pub batch : List MarketBookCache → List (List MarketBookCache) → List (List MarketBookCache)
batch [] rest = rest
batch (book ∷ books) rest = (book ∷ books) ∷ rest

-- `_read_loop`, over the lines of the file: what it yields
unfoldable pub read_loop :
    Caching
    → ListenerKwargs
    → List (Option (ℕ × List MarketUpdate))
    → Caches
    → List (List MarketBookCache)
read_loop c listener [] caches = []
read_loop c listener (update ∷ f) caches =
    let caches' = on_data c update caches in
    let rest = read_loop c listener f caches' in batch (snap listener none caches') rest
