-- ===== src/Programs/Replay/Tests.antt =====
-- Small replays.
use market_order_book_engine.Base.{◌≡◌, refl, List, [], ◌∷◌, some, arith, true}
use market_order_book_engine.Types.{buy, sell, MarketDataEvent}
use market_order_book_engine.Text.{Text, codes, equal, from_chars, scan}
use market_order_book_engine.Book.Samples.{book_of, add_event, cancel_event}
use market_order_book_engine.Programs.Limit.{left}
use market_order_book_engine.Programs.Arguments.{arguments, parse_size}
use market_order_book_engine.Programs.Replay.{
  apply_all, no_counts, Options, defaults, flag, setting,
}
use market_order_book_engine.Programs.Replay.Counted.{Counted, apply_all-Counted}

-- the second event is refused
abbrev events : List MarketDataEvent
events = add_event 1 sell 101 5 ∷ cancel_event 7 ∷ add_event 2 buy 99 4 ∷ cancel_event 1 ∷ []

apply_all-Counted_example :
    Counted (left 3 0 events) (book_of 4) no_counts (apply_all events (book_of 4) 3)
apply_all-Counted_example = apply_all-Counted events (book_of 4) 3 (ground arith)

abbrev first_args : List Text
first_args = codes "--mold" ∷ codes "--max" ∷ codes "12" ∷ []

abbrev first_options : Options
first_options = record defaults { mold = true; max_events = 12 }

accepted : arguments flag setting first_args defaults ≡ some first_options
unfolding arguments flag setting equal parse_size from_chars scan
accepted = refl
