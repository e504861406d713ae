-- ===== src/Csv.antt =====
-- src/CSVReplayConnector.cpp: market data events from the lines of a text file.
pub mod Lines
pub mod Print
pub mod Round
pub mod Replay
mod Tests
use market_order_book_engine.Base.{
  ℕ, zero, suc, ◌+◌, List, [], ◌∷◌, length, Option, none, some, Bool, true, false, ◌||◌, add64,
  get_or, if◌then◌else◌,
}
use market_order_book_engine.Types.{Side, buy, sell, EventType, MarketDataEvent, no_event}
use market_order_book_engine.Text.{
  Text, codes, equal, starts_with, cut, parse_unsigned, parse_signed,
}

-- the messages of the exceptions
pub data RowError : Type 0 where
  too_many_fields too_few_fields invalid_integer invalid_type invalid_side : RowError

-- A call that returns, or throws.
pub data Result {ℓ} (A : Type ℓ) : Type ℓ where
  ok : A → Result A
  thrown : RowError → Result A

module _ {ℓ} {A B : Type ℓ} where
  infixl 5 ◌>>=◌
  abbrev pub ◌>>=◌ : Result A → (A → Result B) → Result B
  ok a >>= f = f a
  thrown why >>= f = thrown why

abbrev pub or_throw {ℓ} : {A : Type ℓ} → RowError → Option A → Result A
or_throw why none = thrown why
or_throw why (some a) = ok a

-- The fields from `begin` on, with `commas` commas to come.
unfoldable pub split_fields : ℕ → Text → Result (List Text)
split_fields zero line = elim (cut b',' line) [
  | none ↦ ok (line ∷ [])
  | some _ ↦ thrown too_many_fields
]
split_fields (suc commas) line = elim (cut b',' line) [
  | none ↦ thrown too_few_fields
  | some (field, rest) ↦ (do fields ← split_fields commas rest; ok (field ∷ fields))
]

abbrev pub split_row : Text → Result (List Text)
split_row line = split_fields 6 line

unfoldable pub parse_type : Text → Result EventType
parse_type s =
    if equal s (codes "add")
    then ok EventType.add
    else if equal s (codes "modify")
    then ok EventType.modify
    else if equal s (codes "cancel")
    then ok EventType.cancel
    else if equal s (codes "trade")
    then ok EventType.trade
    else thrown invalid_type

unfoldable pub parse_side : Text → Result Side
parse_side s =
    if equal s (codes "buy")
    then ok buy
    else if equal s (codes "sell")
    then ok sell
    else thrown invalid_side

-- `fields[i]`
abbrev pub field : List Text → ℕ → Text
field fields i = get_or fields i []

unfoldable pub read_fields : List Text → Result MarketDataEvent
read_fields fields = do
  sequence ← or_throw invalid_integer (parse_unsigned (field fields 0))
  timestamp ← or_throw invalid_integer (parse_unsigned (field fields 1))
  type ← parse_type (field fields 2)
  order_id ← or_throw invalid_integer (parse_unsigned (field fields 3))
  side ← parse_side (field fields 4)
  price ← or_throw invalid_integer (parse_signed (field fields 5))
  quantity ← or_throw invalid_integer (parse_unsigned (field fields 6))
  ok (record no_event {
    sequence = sequence;
    exchange_timestamp_ns = timestamp;
    type = type;
    order_id = order_id;
    side = side;
    price_ticks = price;
    quantity = quantity;
  })

unfoldable pub parse_csv_event : Text → Result MarketDataEvent
parse_csv_event line = split_row line >>= read_fields

-- `input` is what the file has yet to give.
pub record Connector : Type 0 where
  pub input : Text
  pub line : Text
  pub line_number : ℕ

-- The constructor, for a file that can be opened.
abbrev pub open_file : Text → Connector
open_file input = record { input = input; line = []; line_number = 0 }

-- `std::getline`: the line and what is behind it, or none at the end of the file.
unfoldable pub get_line : Text → Option (Text × Text)
get_line [] = none
get_line (c ∷ s) = elim (cut b'\n' (c ∷ s)) [ none ↦ some (c ∷ s, []) | some split ↦ some split ]

-- empty lines, comments and the heading
unfoldable pub is_skipped : Text → Bool
is_skipped line =
    starts_with line (codes "#") || equal line [] || starts_with line (codes "sequence,")

-- How a call of next comes out; `unfinished` if the rounds are used up.
pub data Answer : Type 0 where
  delivered : MarketDataEvent → Answer
  refused : ℕ → RowError → Answer
  ended unfinished : Answer

abbrev pub answer : Result MarketDataEvent → ℕ → Answer
answer (ok e) n = delivered e
answer (thrown why) n = refused n why

-- The body of the loop behind a line that was read, with the loop's other rounds.
abbrev pub handle :
    Connector → (Connector → Answer × Connector) → Option (Text × Text) → Answer × Connector
handle c later none = (ended, c)
handle c later (some (line, rest)) =
    let read = record c { input = rest; line = line; line_number = add64 c.line_number 1 } in
    if is_skipped line then later read else (answer (parse_csv_event line) read.line_number, read)

unfoldable pub next_loop : ℕ → Connector → Answer × Connector
next_loop zero c = (unfinished, c)
next_loop (suc rounds) c = handle c (next_loop rounds) (get_line c.input)

pub next : Connector → Answer × Connector
next c = next_loop (suc (length c.input)) c
