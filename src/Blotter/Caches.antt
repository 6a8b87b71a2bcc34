-- ===== src/Blotter/Caches.antt =====
-- The caches of the blotter agree with its orders.
use flumine.Prelude.{
  ℕ, ◌≡◌, refl, subst, ap, ◌∙◌, Bool, true, false, some, List, [], ◌∷◌, ◌++◌, arith, ◌==◌, keep,
  contains, remove, Distinct, contains-append, append-Distinct, remove-Distinct,
  contains-remove_self, contains-remove_of_absent, if◌then◌else◌,
}
use flumine.Prelude.Dict.{Dict, has_key, insert, values, lookup-insert}
use flumine.Order.{Order}
use flumine.Blotter.{
  SelectionKey, selection_key, same_selection, Blotter, new_blotter, lookup_list, set_item,
  has_order, complete_order, iter,
}

-- With the orders that the references stand for, each cache is what a search of all orders would
-- find, in the order of insertion, and the live orders are among them.
pub record IsIndexed (orders : ℕ → Order) (b : Blotter) : Type 0 where
  pub by_trade : (t : ℕ) → lookup_list t b.trades ≡ keep (λ o. (orders o).trade == t) (iter b)
  pub by_strategy : (s : ℕ) → b.strategy_orders s ≡ keep (λ o. (orders o).strategy == s) (iter b)
  pub by_selection :
      (k : SelectionKey)
      → b.strategy_selection_orders k
        ≡ keep (λ o. same_selection (selection_key (orders o)) k) (iter b)
  pub live_listed : (o : ℕ) → contains o b.live_orders ≡ true → contains o (iter b) ≡ true
  pub live_distinct : Distinct b.live_orders
  pub keyed : (o : ℕ) → contains o (iter b) ≡ has_order o b

keep_snoc :
    (p : ℕ → Bool) (xs : List ℕ) (x : ℕ)
    → keep p (xs ++ x ∷ []) ≡ (if p x then keep p xs ++ x ∷ [] else keep p xs)
keep_snoc p [] x = refl
keep_snoc p (y ∷ xs) x = ground (arith, keep_snoc p xs x)

values-insert_new :
    (k v : ℕ) (d : Dict ℕ) → has_key k d ≡ false → values (insert k v d) ≡ values d ++ v ∷ []
values-insert_new k v [] h = refl
values-insert_new k v (e ∷ d) h = ground (arith, values-insert_new k v d)

-- An empty blotter, an order stored under a new reference, and the completion of a live order.
pub new_blotter-IsIndexed : (orders : ℕ → Order) → IsIndexed orders new_blotter
new_blotter-IsIndexed orders = record {
  by_trade = λ t. refl;
  by_strategy = λ s. refl;
  by_selection = λ k. refl;
  live_listed = λ o h. h;
  live_distinct = tt;
  keyed = λ o. refl;
}

lookup_list-insert :
    (j k : ℕ) (v : List ℕ) (d : Dict (List ℕ))
    → lookup_list j (insert k v d) ≡ (if j == k then v else lookup_list j d)
lookup_list-insert j k v d = ground (arith, lookup-insert j k v d)

at_trade :
    (f : ℕ → List ℕ) (r : List ℕ) (k t : ℕ)
    → (if t == k then f k ++ r else f t) ≡ (if k == t then f t ++ r else f t)
at_trade f r k t = ground arith

module _ (orders : ℕ → Order) (b : Blotter) (ref : ℕ) (indexed : IsIndexed orders b)
    (fresh : has_order ref b ≡ false) where
  iter-set_item : iter (set_item ref (orders ref) b) ≡ iter b ++ ref ∷ []
  unfolding set_item
  iter-set_item = values-insert_new ref ref b.orders fresh

  trade_eq :
      (t : ℕ)
      → lookup_list t (set_item ref (orders ref) b).trades
        ≡ keep (λ o. (orders o).trade == t) (iter (set_item ref (orders ref) b))
  unfolding set_item
  trade_eq t =
      rw (iter-set_item, keep_snoc)
        (lookup_list-insert t (orders ref).trade
            (lookup_list (orders ref).trade b.trades ++ ref ∷ []) b.trades
          ∙ at_trade (λ s. lookup_list s b.trades) (ref ∷ []) (orders ref).trade t
          ∙ ap (λ l. if (orders ref).trade == t then l ++ ref ∷ [] else l) (indexed.by_trade t))

  -- The caches after an order is stored are those of a search again.
  pub set_item-IsIndexed : IsIndexed orders (set_item ref (orders ref) b)
  unfolding set_item
  set_item-IsIndexed = record {
    by_trade = λ t. trade_eq t;
    by_strategy = λ s. rw (iter-set_item, keep_snoc, indexed.by_strategy s);
    by_selection = λ k. rw (iter-set_item, keep_snoc, indexed.by_selection k);
    live_listed = λ o h. rw iter-set_item (
        ground (
          arith,
          contains-append o b.live_orders (ref ∷ []),
          contains-append o (iter b) (ref ∷ []),
          indexed.live_listed o,
        ));
    live_distinct =
        append-Distinct ref b.live_orders indexed.live_distinct
          (ground (arith, indexed.live_listed ref, indexed.keyed ref));
    keyed = λ o. rw iter-set_item (
        ground (
          arith,
          contains-append o (iter b) (ref ∷ []),
          indexed.keyed o,
          lookup-insert o ref ref b.orders,
        ));
  }

-- Completing an order takes it off the live orders and keeps the caches.
pub complete_order-IsIndexed :
    (orders : ℕ → Order) (b b' : Blotter) (ref : ℕ)
    → IsIndexed orders b
    → complete_order ref b ≡ some b'
    → IsIndexed orders b' × (contains ref b'.live_orders ≡ false)
unfolding complete_order
complete_order-IsIndexed orders b b' ref indexed e =
    subst (λ c. IsIndexed orders c × (contains ref c.live_orders ≡ false)) taken_off
      (
        record {
          by_trade = indexed.by_trade;
          by_strategy = indexed.by_strategy;
          by_selection = indexed.by_selection;
          live_listed = λ o h.
              indexed.live_listed o (ground (arith, contains-remove_of_absent o ref b.live_orders));
          live_distinct = remove-Distinct ref b.live_orders indexed.live_distinct;
          keyed = indexed.keyed;
        },
        contains-remove_self ref b.live_orders indexed.live_distinct,
      )
  where
    taken_off : record b { live_orders = remove ref b.live_orders } ≡ b'
    taken_off = ground arith
