-- ===== src/References.antt =====
-- The reference that an order carries on the exchange: `customer_order_ref` and `sep` of
-- order/order.py, `create_cheap_hash` of utils.py, the slices of order/process.py and `hashes` of
-- strategy/strategy.py. A text is the list of its code points; the digest of SHA-1 is an argument.
pub mod Roundtrip
use flumine.Prelude.{
  ℕ, ◌+◌, Bool, true, false, ◌&&◌, ◌||◌, Option, none, some, List, [], ◌∷◌, ◌++◌, ◌==◌, leb, take,
  drop, contains, if◌then◌else◌,
}

abbrev pub Text : Type 0
Text = List ℕ

-- `STRATEGY_NAME_HASH_LENGTH`
abbrev pub strategy_name_hash_length : ℕ
strategy_name_hash_length = 13

-- `create_cheap_hash`, of a text's hexadecimal digest
unfoldable pub create_cheap_hash : (Text → Text) → Text → ℕ → Text
create_cheap_hash hexdigest txt length = take length (hexdigest txt)

abbrev in_range : ℕ → ℕ → ℕ → Bool
in_range low high c = leb low c && leb c high

-- `VALID_BETFAIR_CUSTOMER_ORDER_REF_CHARACTERS`: - . _ + * : ; ~, the letters and the digits
unfoldable pub is_ref_character : ℕ → Bool
is_ref_character c =
    contains c (45 ∷ 46 ∷ 95 ∷ 43 ∷ 42 ∷ 58 ∷ 59 ∷ 126 ∷ [])
    || in_range 97 122 c
    || in_range 65 90 c
    || in_range 48 57 c

-- `BetfairOrder.is_valid_customer_order_ref_character`
unfoldable pub is_valid_customer_order_ref_character : Text → Bool
is_valid_customer_order_ref_character (c ∷ []) = is_ref_character c
is_valid_customer_order_ref_character _ = false

-- The setter of `sep`, on a Betfair order: the new separator, or none, a ValueError
unfoldable pub set_sep : Text → Option Text
set_sep new_sep = if is_valid_customer_order_ref_character new_sep then some new_sep else none

-- `customer_order_ref`
unfoldable pub customer_order_ref : (name_hash sep id : Text) → Text
customer_order_ref name_hash sep id = name_hash ++ (sep ++ id)

-- `ref[:STRATEGY_NAME_HASH_LENGTH]` and `ref[STRATEGY_NAME_HASH_LENGTH + 1:]`
unfoldable pub strategy_name_hash : Text → Text
strategy_name_hash ref = take strategy_name_hash_length ref

unfoldable pub ref_order_id : Text → Text
ref_order_id ref = drop (strategy_name_hash_length + 1) ref

abbrev pub same_text : Text → Text → Bool
same_text [] [] = true
same_text (a ∷ text) (b ∷ other) = a == b && same_text text other
same_text _ _ = false

-- A strategy by its number, with its name
pub record Strategy : Type 0 where
  pub key : ℕ
  pub name : Text

-- `name_hash`
unfoldable pub name_hash : (Text → Text) → Strategy → Text
name_hash hexdigest strategy = create_cheap_hash hexdigest strategy.name strategy_name_hash_length

-- A dict keyed by texts
abbrev pub insert_text : Text → Strategy → List (Text × Strategy) → List (Text × Strategy)
insert_text key strategy [] = (key, strategy) ∷ []
insert_text key strategy (item ∷ rest) =
    if same_text key item.0 then (item.0, strategy) ∷ rest else item ∷ insert_text key strategy rest

abbrev pub get_text : Text → List (Text × Strategy) → Option Strategy
get_text key [] = none
get_text key (item ∷ rest) = if same_text key item.0 then some item.1 else get_text key rest

-- `Strategies.hashes`
unfoldable pub hashes_from :
    (Text → Text) → List (Text × Strategy) → List Strategy → List (Text × Strategy)
hashes_from hexdigest dict [] = dict
hashes_from hexdigest dict (strategy ∷ strategies) =
    hashes_from hexdigest (insert_text (name_hash hexdigest strategy) strategy dict) strategies

unfoldable pub hashes : (Text → Text) → List Strategy → List (Text × Strategy)
hashes hexdigest strategies = hashes_from hexdigest [] strategies
