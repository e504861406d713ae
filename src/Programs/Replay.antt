-- ===== src/Programs/Replay.antt =====
-- src/ItchReplay.cpp: a book, or a book for each symbol, from the events of a capture.
pub mod Counted
pub mod Most
mod Tests
use market_order_book_engine.Base.{
  ℕ, ◌+◌, ◌^◌, ◌%◌, List, [], ◌∷◌, Option, none, some, Bool, true, false, not, ◌&&◌, ltb, leb, ◌==◌,
  add64, if◌then◌else◌,
}
use market_order_book_engine.Types.{MarketDataEvent, ProcessResult, is_applied}
use market_order_book_engine.Text.{Text, codes, equal}
use market_order_book_engine.Book.State.{Book}
use market_order_book_engine.Book.Events.{process_event}
use market_order_book_engine.Book.Views.{order_count}
use market_order_book_engine.Multi
use market_order_book_engine.Multi.{MultiSymbolBook}
use market_order_book_engine.Programs.Limit.{is_full}
use market_order_book_engine.Programs.Arguments.{parse_size, arguments}

pub record Counts : Type 0 where
  pub decoded : ℕ
  pub applied : ℕ
  pub rejected : ℕ
  pub peak_orders : ℕ

abbrev pub no_counts : Counts
no_counts = record { decoded = 0; applied = 0; rejected = 0; peak_orders = 0 }

-- an event and its result, counted
abbrev pub counted : Counts → Bool → Counts
counted c applied = record c {
  decoded = add64 c.decoded 1;
  applied = if applied then add64 c.applied 1 else c.applied;
  rejected = if applied then c.rejected else add64 c.rejected 1;
}

abbrev pub peaked : Counts → ℕ → Counts
peaked c orders = record c {
  peak_orders = if ltb c.peak_orders orders then orders else c.peak_orders;
}

unfoldable pub apply_loop : List MarketDataEvent → ℕ → Counts → Book → Counts × Book
apply_loop [] max_events c b = (c, b)
apply_loop (e ∷ events) max_events c b =
    let (b', result) = process_event b e in
    let c' = peaked (counted c (is_applied result)) (order_count b') in
    let rest = apply_loop events max_events c' b' in
    if is_full max_events c'.decoded then (c', b') else rest

pub apply_all : List MarketDataEvent → Book → ℕ → Counts × Book
apply_all events b max_events = apply_loop events max_events no_counts b

-- What is behind an event: none for the exception of a new book.
abbrev pub symbols_round :
    ℕ
    → Counts
    → (Counts → MultiSymbolBook → Option (Counts × MultiSymbolBook))
    → Option (MultiSymbolBook × ProcessResult)
    → Option (Counts × MultiSymbolBook)
symbols_round max_events c later none = none
symbols_round max_events c later (some (m, result)) =
    let c' = counted c (is_applied result) in
    if is_full max_events c'.decoded then some (c', m) else later c' m

unfoldable pub symbols_loop :
    List MarketDataEvent → ℕ → Counts → MultiSymbolBook → Option (Counts × MultiSymbolBook)
symbols_loop [] max_events c m = some (c, m)
symbols_loop (e ∷ events) max_events c m =
    symbols_round max_events c (symbols_loop events max_events) (Multi.route m e)

pub apply_all_symbols :
    List MarketDataEvent → MultiSymbolBook → ℕ → Option (Counts × MultiSymbolBook)
apply_all_symbols events m max_events = symbols_loop events max_events no_counts m

-- The symbol of the most orders, with their number; the first of equals.
unfoldable pub most_loop : List ℕ → MultiSymbolBook → ℕ → ℕ → ℕ × ℕ
most_loop [] m best_symbol best_orders = (best_symbol, best_orders)
most_loop (symbol ∷ symbols) m best_symbol best_orders =
    let n = Multi.orders_in (Multi.book m symbol) in
    if ltb best_orders n
    then most_loop symbols m symbol n
    else most_loop symbols m best_symbol best_orders

pub most_active : MultiSymbolBook → ℕ × ℕ
most_active m = most_loop m.seen m 0 0

pub record Options : Type 0 where
  pub mold : Bool
  pub per_symbol : Bool
  pub capacity : ℕ
  pub per_symbol_capacity : ℕ
  pub max_events : ℕ

abbrev pub defaults : Options
defaults = record {
  mold = false;
  per_symbol = false;
  capacity = 2000000;
  per_symbol_capacity = 8192;
  max_events = 0;
}

unfoldable pub flag : Text → Options → Option Options
flag arg o =
    if equal arg (codes "--mold")
    then some (record o { mold = true })
    else if equal arg (codes "--per-symbol")
    then some (record o { per_symbol = true })
    else none

unfoldable pub setting : Text → Text → Options → Option Options
setting arg value o =
    if equal arg (codes "--capacity")
    then some (record o { capacity = parse_size value o.capacity })
    else if equal arg (codes "--per-symbol-capacity")
    then some (record o { per_symbol_capacity = parse_size value o.per_symbol_capacity })
    else if equal arg (codes "--max")
    then some (record o { max_events = parse_size value 0 })
    else none

-- The arguments behind the path; none for the exit with code 2.
pub options : List Text → Option Options
options args = arguments flag setting args defaults
