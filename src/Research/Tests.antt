-- ===== src/Research/Tests.antt =====
-- A backtest on a small book.
use market_order_book_engine.Base.{
  List, [], ◌∷◌, ◌≡◌, refl, pos, true, get_or, to_i64, ◌+ℤ◌, ◌-ℤ◌, arith,
}
use market_order_book_engine.Types.{buy, sell, MarketDataEvent}
use market_order_book_engine.Book.Samples.{book_of, add_event}
use market_order_book_engine.Book.State.{Book, fresh_order, fresh_level}
use market_order_book_engine.Book.Ladder.{ladder_top}
use market_order_book_engine.Book.Views.{best_bid, best_ask}
use market_order_book_engine.Research.Backtest.Flat.{settle-flat}
use market_order_book_engine.Research.Backtest.{
  Backtester, execute_crossing, long, Config, backtester_over, settle,
}
use market_order_book_engine.Research.Backtest.Ledger.{Balanced, feed, backtest-Balanced}

abbrev always_long : Config
always_long = record { locate = 0; latency_ns = 0; order_size = 2; target = λ row current. long }

abbrev events : List MarketDataEvent
events = add_event 1 sell 101 5 ∷ add_event 2 buy 99 4 ∷ add_event 3 sell 100 3 ∷ []

backtest-Balanced_example :
    Balanced (settle (feed (backtester_over always_long (book_of 4)) events))
backtest-Balanced_example = backtest-Balanced always_long (book_of 4) events

-- A book of one bid at 99 and one offer at 101, its lookups left out.
abbrev two_sided : Book
two_sided = record {
  orders =
      record fresh_order {
        id = 1;
        price = pos 99;
        quantity = 4;
        level = 0;
        side = buy;
        active = true;
      }
      ∷ record fresh_order {
        id = 2;
        price = pos 101;
        quantity = 5;
        level = 1;
        side = sell;
        active = true;
      }
      ∷ [];
  levels =
      record fresh_level {
        price = pos 99;
        total_quantity = 4;
        order_count = 1;
        head = 0;
        tail = 0;
        heap_pos = 0;
        side = buy;
        active = true;
      }
      ∷ record fresh_level {
        price = pos 101;
        total_quantity = 5;
        order_count = 1;
        head = 1;
        tail = 1;
        heap_pos = 0;
        side = sell;
        active = true;
      }
      ∷ [];
  order_lookup = [];
  level_lookup = [];
  bid_heap = 0 ∷ [];
  ask_heap = 1 ∷ [];
  bid_heap_size = 1;
  ask_heap_size = 1;
  free_order = 0;
  free_level = 0;
  active_orders = 2;
  next_priority = 2;
  fill_sequence = 0;
}

-- Three units are held, and an order for two more is on its way.
abbrev holding : Backtester
holding = record (backtester_over always_long two_sided) {
  position = pos 3;
  pending = record { arrival_ns = 9; side = buy; quantity = 2 } ∷ [];
}

settle-flat_example : (settle holding).position ≡ pos 0
unfolding settle execute_crossing get_or best_bid best_ask ladder_top to_i64 ◌+ℤ◌ ◌-ℤ◌
settle-flat_example =
    settle-flat holding
      (record { side = buy; price_ticks = pos 99; total_quantity = 4; order_count = 1 })
      (omega arith) refl
