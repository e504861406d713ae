-- ===== src/Book/Samples.antt =====
-- Events and books to run, from the constructor (a book without room for one out of its range).
use market_order_book_engine.Base.{ℕ, pos, List, [], ◌∷◌, none, some}
use market_order_book_engine.Types.{Side, EventType, MarketDataEvent, no_event}
use market_order_book_engine.Book.State.{Book, new_book}
use market_order_book_engine.Book.Events.{process_event}

abbrev pub book_of : ℕ → Book
book_of n = elim (new_book n) [
  | some b ↦ b
  | none ↦ record {
    orders = [];
    levels = [];
    order_lookup = [];
    level_lookup = [];
    bid_heap = [];
    ask_heap = [];
    bid_heap_size = 0;
    ask_heap_size = 0;
    free_order = 0;
    free_level = 0;
    active_orders = 0;
    next_priority = 0;
    fill_sequence = 0;
  }
]

abbrev pub add_event : ℕ → Side → ℕ → ℕ → MarketDataEvent
add_event id side price quantity = record no_event {
  order_id = id;
  side = side;
  price_ticks = pos price;
  quantity = quantity;
}

abbrev pub cancel_event : ℕ → MarketDataEvent
cancel_event id = record no_event { type = EventType.cancel; order_id = id }

abbrev pub replay : Book → List MarketDataEvent → Book
replay b [] = b
replay b (e ∷ es) = replay (process_event b e).0 es
