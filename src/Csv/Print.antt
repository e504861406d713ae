-- ===== src/Csv/Print.antt =====
-- Rows printed from events, with the words of include/market/MarketDataEvent.hpp, and read back.
use market_order_book_engine.Base.{
  ◌≤◌, ◌≡◌, refl, List, [], ◌∷◌, ◌++◌, Bool, true, false, All, IsI64, length,
}
use market_order_book_engine.Types.{Side, buy, sell, EventType, MarketDataEvent}
use market_order_book_engine.Text.{Text, codes, equal, max_u64}
use market_order_book_engine.Text.Cut.{Lacks, cut-append, cut-Lacks}
use market_order_book_engine.Text.Decimal.{decimal, decimal_signed}
use market_order_book_engine.Csv.{ok, thrown, split_fields, parse_type, parse_side, invalid_type}

-- `to_string(EventType)`
unfoldable pub type_word : EventType → Text
type_word EventType.add = codes "add"
type_word EventType.modify = codes "modify"
type_word EventType.cancel = codes "cancel"
type_word EventType.trade = codes "trade"
type_word EventType.reduce = codes "reduce"
type_word EventType.replace = codes "replace"

-- `to_string(Side)`
unfoldable pub side_word : Side → Text
side_word buy = codes "buy"
side_word sell = codes "sell"

-- the types of events that a row can name
unfoldable pub in_rows : EventType → Bool
in_rows EventType.reduce = false
in_rows EventType.replace = false
in_rows _ = true

-- the fields behind the sequence number
abbrev pub other_fields : MarketDataEvent → List Text
other_fields e =
    decimal e.exchange_timestamp_ns
    ∷ type_word e.type
    ∷ decimal e.order_id
    ∷ side_word e.side
    ∷ decimal_signed e.price_ticks
    ∷ decimal e.quantity
    ∷ []

abbrev pub row_fields : MarketDataEvent → List Text
row_fields e = decimal e.sequence ∷ other_fields e

-- fields with commas between them
abbrev pub join : Text → List Text → Text
join field [] = field
join field (next ∷ fields) = field ++ b',' ∷ join next fields

abbrev pub print_row : MarketDataEvent → Text
print_row e = join (decimal e.sequence) (other_fields e)

-- An event as a row can hold it: the fields within their types, one of the four types of a row, and
-- nothing in the two fields that no row has.
pub record IsRowEvent (e : MarketDataEvent) : Type 0 where
  pub sequence : e.sequence ≤ max_u64
  pub timestamp : e.exchange_timestamp_ns ≤ max_u64
  pub order : e.order_id ≤ max_u64
  pub quantity : e.quantity ≤ max_u64
  pub price : IsI64 e.price_ticks
  pub type : in_rows e.type ≡ true
  pub symbol : e.symbol ≡ 0
  pub new_order : e.new_order_id ≡ 0

pub parse_type-type_word : (t : EventType) → in_rows t ≡ true → parse_type (type_word t) ≡ ok t
unfolding parse_type type_word equal in_rows
parse_type-type_word EventType.add h = refl
parse_type-type_word EventType.modify h = refl
parse_type-type_word EventType.cancel h = refl
parse_type-type_word EventType.trade h = refl
parse_type-type_word EventType.reduce h = absurd cc
parse_type-type_word EventType.replace h = absurd cc

-- Every other type is refused, though `to_string` has a word for it.
pub parse_type-refuses :
    (t : EventType) → in_rows t ≡ false → parse_type (type_word t) ≡ thrown invalid_type
unfolding parse_type type_word equal in_rows
parse_type-refuses EventType.add h = absurd cc
parse_type-refuses EventType.modify h = absurd cc
parse_type-refuses EventType.cancel h = absurd cc
parse_type-refuses EventType.trade h = absurd cc
parse_type-refuses EventType.reduce h = refl
parse_type-refuses EventType.replace h = refl

pub parse_side-side_word : (s : Side) → parse_side (side_word s) ≡ ok s
unfolding parse_side side_word equal
parse_side-side_word buy = refl
parse_side-side_word sell = refl

-- Fields without a comma are found again.
pub split_fields-join :
    (field : Text) (fields : List Text)
    → Lacks b',' field
    → All (Lacks b',') fields
    → split_fields (length fields) (join field fields) ≡ ok (field ∷ fields)
unfolding split_fields
split_fields-join field [] p h = rw (split_fields, cut-Lacks b',' field p) refl
split_fields-join field (next ∷ fields) p (q, h) =
    rw (split_fields, cut-append b',' field (join next fields) p, split_fields-join next fields q h)
      refl
