-- ===== src/Programs/Queue/Tests.antt =====
-- A study of a few events, with natural numbers in place of doubles.
use market_order_book_engine.Base.{ℕ, ◌+◌, ◌-◌, ◌*◌, ◌/◌, ltb, leb, List, [], ◌∷◌, arith}
use market_order_book_engine.Types.{sell, EventType, MarketDataEvent}
use market_order_book_engine.Book.Samples.{book_of, add_event, cancel_event}
use market_order_book_engine.Research.Float.{Float}
use market_order_book_engine.Programs.Queue.{run_study}
use market_order_book_engine.Programs.Queue.Bounds.{Counts, run_study-Counts}

abbrev whole_numbers : Float
whole_numbers = record {
  Double = ℕ;
  zero = 0;
  of_u64 = λ n. n;
  to_u64 = λ n. n;
  plus = λ a b. a + b;
  minus = λ a b. a - b;
  times = λ a b. a * b;
  over = λ a b. a / b;
  negate = λ a. a;
  lt = ltb;
  le = leb;
}

abbrev events : List MarketDataEvent
events =
    add_event 1 sell 101 5
    ∷ add_event 2 sell 101 4
    ∷ record (cancel_event 1) { type = EventType.trade; quantity = 5 }
    ∷ record (cancel_event 2) { type = EventType.trade; quantity = 2 }
    ∷ []

run_study-Counts_example :
    Counts whole_numbers 10 4 (run_study whole_numbers events 0 sell 1 10 1 (book_of 4))
run_study-Counts_example =
    run_study-Counts whole_numbers events 0 sell 1 10 1 (book_of 4) (omega arith) (omega arith)
      (ground arith)
