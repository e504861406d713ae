-- ===== src/Programs/Features/Tests.antt =====
-- The feature stream of a few events.
use market_order_book_engine.Base.{List, [], ◌∷◌}
use market_order_book_engine.Types.{buy, sell, MarketDataEvent}
use market_order_book_engine.Book.Samples.{book_of, add_event, cancel_event}
use market_order_book_engine.Programs.Features.{emit_loop, emitter}
use market_order_book_engine.Programs.Features.Rows.{Streamed, emit_loop-Streamed}

-- the third event is of another symbol
abbrev events : List MarketDataEvent
events =
    add_event 1 sell 101 5
    ∷ add_event 2 buy 99 4
    ∷ record (add_event 3 buy 100 4) { symbol = 1 }
    ∷ cancel_event 7
    ∷ cancel_event 1
    ∷ []

emit_loop-Streamed_example : Streamed (emit_loop events 0 3 (emitter (book_of 4)))
emit_loop-Streamed_example = emit_loop-Streamed events 0 3 (book_of 4)
