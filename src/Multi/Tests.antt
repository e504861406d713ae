-- ===== src/Multi/Tests.antt =====
-- Two symbols, one of which has a book.
use market_order_book_engine.Base.{[], ◌∷◌, ◌≡◌, refl, none, some, arith, get_or}
use market_order_book_engine.Types.{buy, sell, MarketDataEvent, ProcessResult}
use market_order_book_engine.Book.State.{Book}
use market_order_book_engine.Book.Samples.{book_of, add_event, replay}
use market_order_book_engine.Multi.{MultiSymbolBook, route}
use market_order_book_engine.Multi.Routing.{Routed, route-Routed}

abbrev one_book : Book
one_book = replay (book_of 4) (add_event 1 sell 101 5 ∷ [])

abbrev two_symbols : MultiSymbolBook
two_symbols = record {
  books = none ∷ some one_book ∷ [];
  seen = 1 ∷ [];
  per_symbol_capacity = 4;
  max_symbols = 2;
}

abbrev buy_event : MarketDataEvent
buy_event = record (add_event 2 buy 100 4) { symbol = 1 }

route-Routed_example :
    (m : MultiSymbolBook) × (result : ProcessResult) × (route two_symbols buy_event
      ≡ some (m, result))
    × Routed two_symbols buy_event one_book m result
unfolding get_or
route-Routed_example = route-Routed two_symbols buy_event one_book refl (omega arith) refl
