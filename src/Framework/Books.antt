-- ===== src/Framework/Books.antt =====
-- What the books of an event leave of the markets.
use flumine.Prelude.{
  ℕ, ◌≡◌, refl, sym, ◌∙◌, subst, false, not, ◌&&◌, ◌==◌, Option, none, some, List, [], ◌∷◌,
  if◌then◌else◌, arith, ==_iff, Bool-cases, Option-cases, inl, inr,
}
use mathlib.Core.Option.{some-injective, none-ne-some}
use flumine.Prelude.Dict.{lookup, insert, lookup-insert}
use flumine.Book.{MarketBook}
use flumine.Markets.{Market, new_market, add_market, open_market, take_book}
use flumine.Process.{Floor}
use flumine.Framework.{
  Framework, Hooks, get_or_add, change_market, is_closed, process_book, process_books,
}

-- The market is open and has the book.
abbrev pub HoldsIn : MarketBook → Option Market → Type 0
HoldsIn book none = ⊥
HoldsIn book (some market) = (market.market_book ≡ some book) × (market.closed ≡ false)

abbrev pub Holds : ℕ → MarketBook → Floor → Type 0
Holds market_id book f = HoldsIn book (lookup market_id f.markets)

-- The strategies and the middleware change no book of a market and close none.
abbrev pub KeepsBooks : Hooks → Type 0
KeepsBooks hooks =
    (market_id : ℕ) (book now : MarketBook) (f : Floor)
    → Holds market_id book f
    → Holds market_id book (hooks.process_market_book now f)

-- The last book of the market in which it is not closed.
abbrev pub last_open : ℕ → List MarketBook → Option MarketBook
last_open market_id [] = none
last_open market_id (book ∷ books) = elim (last_open market_id books) [
  | some later ↦ some later
  | none ↦ if (market_id == book.market_id) && not (is_closed book.status) then some book else none
]

-- The market is listed and open.
abbrev OpenIn : Option Market → Type 0
OpenIn none = ⊥
OpenIn (some market) = market.closed ≡ false

get_or_add-opens :
    (market_id : ℕ) (book : Option MarketBook) (f : Floor)
    → OpenIn (lookup market_id (get_or_add market_id book f).markets)
unfolding get_or_add add_market open_market
get_or_add-opens market_id book f = elim (Option-cases (lookup market_id f.markets)) [
  | inl unknown ↦ rw (get_or_add, unknown, add_market, unknown) (rw lookup-insert (ground arith))
  | inr (market, known) ↦ elim (Bool-cases market.closed) [
    | inl shut ↦ rw (get_or_add, known, shut, add_market, known) (rw lookup-insert (ground arith))
    | inr opened ↦ rw (get_or_add, known, opened) (rw known opened)
  ]
]

-- An insertion at another key is not seen.
insert-HoldsIn :
    (id other : ℕ) (book : MarketBook) (market : Market) (f : Floor)
    → (id == other) ≡ false
    → Holds id book f
    → HoldsIn book (lookup id (insert other market f.markets))
insert-HoldsIn id other book market f differs h = rw lookup-insert (rw differs h)

get_or_add-other :
    (id other : ℕ) (book : MarketBook) (new : Option MarketBook) (f : Floor)
    → (id == other) ≡ false
    → Holds id book f
    → Holds id book (get_or_add other new f)
unfolding get_or_add add_market
get_or_add-other id other book new f differs h = elim (Option-cases (lookup other f.markets)) [
  | inl unknown ↦
      rw (get_or_add, unknown, add_market, unknown)
        (insert-HoldsIn id other book (new_market other new) f differs h)
  | inr (market, known) ↦ elim (Bool-cases market.closed) [
    | inl shut ↦
        rw (get_or_add, known, shut, add_market, known)
          (insert-HoldsIn id other book (open_market market) f differs h)
    | inr opened ↦ rw (get_or_add, known, opened) h
  ]
]

get_or_add-same :
    (id : ℕ) (book : MarketBook) (new : Option MarketBook) (f : Floor)
    → Holds id book f
    → Holds id book (get_or_add id new f)
unfolding get_or_add
get_or_add-same id book new f h = elim (Option-cases (lookup id f.markets)) [
  | inl unknown ↦ absurd (subst (HoldsIn book) unknown h)
  | inr (market, known) ↦ rw (get_or_add, known, (subst (HoldsIn book) known h).1) h
]

get_or_add-Holds :
    (id other : ℕ) (book : MarketBook) (new : Option MarketBook) (f : Floor)
    → Holds id book f
    → Holds id book (get_or_add other new f)
get_or_add-Holds id other book new f h = elim (Bool-cases (id == other)) [
  | inl same ↦
      subst (λ n. Holds id book (get_or_add n new f)) ((==_iff id other).0 same)
        (get_or_add-same id book new f h)
  | inr differs ↦ get_or_add-other id other book new f differs h
]

take_book-Holds :
    (id : ℕ) (book : MarketBook) (f : Floor)
    → OpenIn (lookup id f.markets)
    → Holds id book (change_market id (take_book book) f)
unfolding change_market take_book
take_book-Holds id book f h = elim (Option-cases (lookup id f.markets)) [
  | inl unknown ↦ absurd (subst OpenIn unknown h)
  | inr (market, known) ↦
      rw (change_market, known)
        (subst (HoldsIn book) (sym (lookup-insert id id (take_book book market) f.markets))
          (rw ((==_iff id id).1 refl) (refl, subst OpenIn known h)))
]

change_market-Holds :
    (id other : ℕ) (book : MarketBook) (change : Market → Market) (f : Floor)
    → (id == other) ≡ false
    → Holds id book f
    → Holds id book (change_market other change f)
unfolding change_market
change_market-Holds id other book change f differs h =
    elim (Option-cases (lookup other f.markets)) [
      | inl unknown ↦ rw (change_market, unknown) h
      | inr (market, known) ↦
          rw (change_market, known) (insert-HoldsIn id other book (change market) f differs h)
    ]

module _ (hooks : Hooks) (keeps : KeepsBooks hooks) where
  -- A book of another market, or one in which the market is closed, keeps what the market holds.
  process_book-Holds :
      (id : ℕ) (book now : MarketBook) (s : Framework)
      → ((id == now.market_id) && not (is_closed now.status)) ≡ false
      → Holds id book s.floor
      → Holds id book (process_book hooks now s).floor
  unfolding process_book
  process_book-Holds id book now s passed h =
      let h' = get_or_add-Holds id now.market_id book (some now) s.floor h in
      elim (Bool-cases (is_closed now.status)) [
        | inl shut ↦ rw (process_book, shut) h'
        | inr opened ↦
            rw (process_book, opened)
              (keeps id book now _
                (change_market-Holds id now.market_id book (take_book now) _ (ground arith) h'))
      ]

  process_book-takes :
      (book : MarketBook) (s : Framework)
      → is_closed book.status ≡ false
      → Holds book.market_id book (process_book hooks book s).floor
  unfolding process_book
  process_book-takes book s opened =
      rw (process_book, opened)
        (keeps book.market_id book book _ (
          take_book-Holds book.market_id book _
            (get_or_add-opens book.market_id (some book) s.floor)))

  none_left-Holds :
      (id : ℕ) (book : MarketBook) (books : List MarketBook) (s : Framework)
      → last_open id books ≡ none
      → Holds id book s.floor
      → Holds id book (process_books hooks books s).floor
  unfolding process_books
  none_left-Holds id book [] s e h = h
  none_left-Holds id book (now ∷ books) s e h = elim (Option-cases (last_open id books)) [
    | inr (later, found) ↦ absurd (none-ne-some _ (sym (rw found at e)))
    | inl rest ↦ elim (Bool-cases ((id == now.market_id) && not (is_closed now.status))) [
      | inl takes ↦ absurd (none-ne-some _ (sym (rw (rest, takes) at e)))
      | inr passed ↦
          none_left-Holds id book books (process_book hooks now s) rest
            (process_book-Holds id book now s passed h)
    ]
  ]

  -- After the books of an event each market that some of them show not closed is open and has the
  -- last such book, where the strategies and the middleware change no book and close no market.
  pub process_books-Holds :
      (id : ℕ) (book : MarketBook) (books : List MarketBook) (s : Framework)
      → last_open id books ≡ some book
      → Holds id book (process_books hooks books s).floor
  unfolding process_books
  process_books-Holds id book [] s e = absurd (none-ne-some _ e)
  process_books-Holds id book (now ∷ books) s e = elim (Option-cases (last_open id books)) [
    | inr (later, found) ↦
        process_books-Holds id book books (process_book hooks now s)
          (found ∙ rw (last_open, found) at e)
    | inl rest ↦ elim (Bool-cases ((id == now.market_id) && not (is_closed now.status))) [
      | inr passed ↦ absurd (none-ne-some _ (rw (rest, passed) at e))
      | inl takes ↦ none_left-Holds id book books (process_book hooks now s) rest (
          subst (λ b. Holds id b (process_book hooks now s).floor)
            (some-injective _ _ (rw (rest, takes) at e))
            (subst (λ n. Holds n now (process_book hooks now s).floor)
              (sym ((==_iff id now.market_id).0 (ground arith)))
              (process_book-takes now s (ground arith))))
    ]
  ]
