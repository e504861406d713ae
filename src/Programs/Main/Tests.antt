-- ===== src/Programs/Main/Tests.antt =====
-- Runs of the two threads over two events.
use market_order_book_engine.Base.{refl, List, [], ◌∷◌, arith}
use market_order_book_engine.Types.{buy, sell, MarketDataEvent}
use market_order_book_engine.Book.Samples.{book_of, add_event}
use market_order_book_engine.Programs.Main.{
  Machine, start, handle, Reach, here, later, read, push, pop, pushing, IsJoined,
}
use market_order_book_engine.Programs.Main.Kept.{Kept, Reach-Kept}
use market_order_book_engine.Programs.Main.Lost.{all_lost, all_lost-Reach}
use market_order_book_engine.Programs.Main.Finish.{Ends, Reach-Ends}

abbrev sale : MarketDataEvent
sale = add_event 1 sell 101 5

abbrev bid : MarketDataEvent
bid = add_event 2 buy 99 4

abbrev events : List MarketDataEvent
events = sale ∷ bid ∷ []

-- the first event is in the queue
abbrev queued : Machine
queued = record (start events (book_of 4)) { coming = bid ∷ []; queue = sale ∷ [] }

-- the first event is handled, the second one in the producer's hand
abbrev half_way : Machine
half_way = record (handle queued sale []) { coming = []; producer = pushing bid }

half_way_Reach : Reach (start events (book_of 4)) half_way
unfolding handle
half_way_Reach =
    later
      (later (later (later here (read sale (bid ∷ []) refl refl)) (push sale refl (ground arith)))
        (pop sale [] refl refl))
      (read bid [] refl refl)

Reach-Kept_example : Kept events (book_of 4) half_way
Reach-Kept_example = Reach-Kept events (book_of 4) half_way (ground arith) half_way_Reach

Reach-Ends_example : Ends half_way
Reach-Ends_example = Reach-Ends events (book_of 4) half_way (ground arith) half_way_Reach

all_lost-Reach_example :
    Reach (start events (book_of 4)) (all_lost events (book_of 4))
    × IsJoined (all_lost events (book_of 4))
all_lost-Reach_example = all_lost-Reach events (book_of 4) (ground arith)
