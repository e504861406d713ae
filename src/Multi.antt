-- ===== src/Multi.antt =====
-- include/market/MultiSymbolBook.hpp and src/MultiSymbolBook.cpp: one book for each symbol, made at
-- the symbol's first event.
pub mod Routing
mod Tests
use market_order_book_engine.Base.{
  ℕ, add64, List, [], ◌∷◌, ◌++◌, Option, none, some, leb, bit_xor, get_or, set, replicate,
  if◌then◌else◌,
}
use market_order_book_engine.Types.{MarketDataEvent, ProcessResult, capacity_exhausted, LevelView}
use market_order_book_engine.Checksum.{checksum_mix}
use market_order_book_engine.Book.State.{Book, new_book}
use market_order_book_engine.Book.Events.{process_event}
use market_order_book_engine.Book.Views

pub record MultiSymbolBook : Type 0 where
  pub books : List (Option Book)
  pub seen : List ℕ
  pub per_symbol_capacity : ℕ
  pub max_symbols : ℕ

unfoldable pub new_books : ℕ → ℕ → MultiSymbolBook
new_books per_symbol_capacity max_symbols = record {
  books = replicate max_symbols none;
  seen = [];
  per_symbol_capacity = per_symbol_capacity;
  max_symbols = max_symbols;
}

abbrev pub slot_of : MultiSymbolBook → ℕ → Option Book
slot_of m symbol = get_or m.books symbol none

-- the event, given to the book in the slot
pub deliver : MultiSymbolBook → MarketDataEvent → Book → MultiSymbolBook × ProcessResult
deliver m e b =
    let (b', result) = process_event b e in
    (record m { books = set m.books e.symbol (some b') }, result)

-- the event, given to a new book
pub deliver_first :
    MultiSymbolBook → MarketDataEvent → Option Book → Option (MultiSymbolBook × ProcessResult)
unfolding deliver
deliver_first m e none = none
deliver_first m e (some b) = some (deliver (record m { seen = m.seen ++ (e.symbol ∷ []) }) e b)

-- `none` is the exception of the book's constructor.
unfoldable pub route : MultiSymbolBook → MarketDataEvent → Option (MultiSymbolBook × ProcessResult)
unfolding deliver_first
route m e =
    if leb m.max_symbols e.symbol
    then some (m, capacity_exhausted)
    else (elim (slot_of m e.symbol) [
      | some b ↦ some (deliver m e b)
      | none ↦ deliver_first m e (new_book m.per_symbol_capacity)
    ])

unfoldable pub book : MultiSymbolBook → ℕ → Option Book
book m symbol = if leb m.max_symbols symbol then none else slot_of m symbol

unfoldable pub best_bid : MultiSymbolBook → ℕ → Option LevelView
best_bid m symbol = elim (book m symbol) [ none ↦ none | some b ↦ Views.best_bid b ]

unfoldable pub best_ask : MultiSymbolBook → ℕ → Option LevelView
best_ask m symbol = elim (book m symbol) [ none ↦ none | some b ↦ Views.best_ask b ]

-- The order count behind a slot. A symbol that has been seen has a book.
abbrev pub orders_in : Option Book → ℕ
orders_in none = 0
orders_in (some b) = Views.order_count b

count_over : MultiSymbolBook → List ℕ → ℕ
count_over m [] = 0
count_over m (symbol ∷ symbols) = add64 (orders_in (slot_of m symbol)) (count_over m symbols)

unfoldable pub total_orders : MultiSymbolBook → ℕ
unfolding count_over
total_orders m = count_over m m.seen

abbrev pub checksum_in : Option Book → ℕ
checksum_in none = 0
checksum_in (some b) = Views.state_checksum b

fold_symbols : MultiSymbolBook → ℕ → List ℕ → ℕ
fold_symbols m result [] = result
fold_symbols m result (symbol ∷ symbols) =
    fold_symbols m (bit_xor result (bit_xor (checksum_mix symbol) (checksum_in (slot_of m symbol))))
      symbols

unfoldable pub state_checksum : MultiSymbolBook → ℕ
unfolding fold_symbols
state_checksum m = fold_symbols m 0 m.seen
