-- ===== src/Programs/Features.antt =====
-- src/ItchFeatures.cpp: a row for each change of the top of the book of one symbol.
pub mod Rows
pub mod Taken
mod Tests
use market_order_book_engine.Base.{
  ℕ, ◌+◌, ◌^◌, ◌%◌, List, [], ◌∷◌, Option, none, some, Bool, true, false, not, ◌&&◌, ◌||◌, leb,
  ◌==◌, add64, if◌then◌else◌,
}
use market_order_book_engine.Types.{MarketDataEvent}
use market_order_book_engine.Text.{Text, codes, equal}
use market_order_book_engine.Book.State.{Book}
use market_order_book_engine.Book.Events.{process_event}
use market_order_book_engine.Research.Features.{L1Row, no_row, l1_row, l1_changed}
use market_order_book_engine.Programs.Limit.{is_full}
use market_order_book_engine.Programs.Arguments.{parse_size, arguments}

-- The state of the loop; `written` holds the rows written, the last one first.
pub record Emitter : Type 0 where
  pub book : Book
  pub previous : L1Row
  pub have_previous : Bool
  pub decoded : ℕ
  pub rows : ℕ
  pub written : List L1Row

abbrev pub emitter : Book → Emitter
emitter b = record {
  book = b;
  previous = no_row;
  have_previous = false;
  decoded = 0;
  rows = 0;
  written = [];
}

-- a row, written if it is the first or differs from the one before
unfoldable pub write_changed : Emitter → L1Row → Emitter
write_changed t row =
    if not t.have_previous || l1_changed t.previous row
    then record t {
      previous = row;
      have_previous = true;
      rows = add64 t.rows 1;
      written = row ∷ t.written;
    }
    else t

-- an event of the symbol
unfoldable pub take_event : Emitter → MarketDataEvent → Emitter
take_event t e =
    let b = (process_event t.book e).0 in
    write_changed (record t { decoded = add64 t.decoded 1; book = b })
      (l1_row e.sequence e.exchange_timestamp_ns b)

unfoldable pub emit_loop : List MarketDataEvent → ℕ → ℕ → Emitter → Emitter
emit_loop [] locate max_events t = t
emit_loop (e ∷ events) locate max_events t =
    let later = emit_loop events locate max_events in
    let t' = take_event t e in
    if not (e.symbol == locate)
    then later t
    else if is_full max_events t'.decoded
    then t'
    else later t'

pub record Options : Type 0 where
  pub mold : Bool
  pub have_locate : Bool
  pub locate : ℕ
  pub out_path : Text
  pub capacity : ℕ
  pub max_events : ℕ

abbrev pub defaults : Options
defaults = record {
  mold = false;
  have_locate = false;
  locate = 0;
  out_path = [];
  capacity = 2 ^ 18;
  max_events = 0;
}

unfoldable pub flag : Text → Options → Option Options
flag arg o = if equal arg (codes "--mold") then some (record o { mold = true }) else none

unfoldable pub setting : Text → Text → Options → Option Options
setting arg value o =
    if equal arg (codes "--locate")
    then some (record o { locate = parse_size value 0 % 2 ^ 32; have_locate = true })
    else if equal arg (codes "--out")
    then some (record o { out_path = value })
    else if equal arg (codes "--capacity")
    then some (record o { capacity = parse_size value o.capacity })
    else if equal arg (codes "--max")
    then some (record o { max_events = parse_size value 0 })
    else none

abbrev located : Option Options → Option Options
located none = none
located (some o) = if not o.have_locate then none else some o

-- The arguments behind the path; none for the exits with code 2.
pub options : List Text → Option Options
options args = located (arguments flag setting args defaults)
