-- ===== src/Book/Links/Tests.antt =====
-- A level with two orders in its queue, and a third one that joins it.
use market_order_book_engine.Base.{ℕ, ◌≢◌, refl, List, [], ◌∷◌, All, arith, get_or, true}
use market_order_book_engine.Book.Table.{npos}
use market_order_book_engine.Book.State.{Book, fresh_order, fresh_level}
use market_order_book_engine.Book.Links.{link_tail, leave_queue}
use market_order_book_engine.Book.Links.Chain.{Lacks}
use market_order_book_engine.Book.Links.Fifo.{IsQueue}
use market_order_book_engine.Book.Links.Append.{link_tail-IsQueue}
use market_order_book_engine.Book.Links.Remove.{leave_queue-IsQueue}

-- the orders 2 and 0, in this order
abbrev two_queued : Book
two_queued = record {
  orders =
      record fresh_order { id = 7; quantity = 4; level = 0; prev = 2; active = true }
      ∷ record fresh_order { id = 8; quantity = 6; level = 0; active = true }
      ∷ record fresh_order { id = 9; quantity = 5; level = 0; next = 0; active = true }
      ∷ [];
  levels =
      record fresh_level { total_quantity = 9; order_count = 2; head = 2; tail = 0; active = true }
      ∷ [];
  order_lookup = [];
  level_lookup = [];
  bid_heap = [];
  ask_heap = [];
  bid_heap_size = 0;
  ask_heap_size = 0;
  free_order = npos;
  free_level = npos;
  active_orders = 3;
  next_priority = 3;
  fill_sequence = 0;
}

two_queued-IsQueue : IsQueue two_queued 0 (2 ∷ 0 ∷ [])
unfolding get_or
two_queued-IsQueue = record {
  inside = ground arith;
  small = ground arith;
  linked = (ground arith, refl, refl, (ground arith, refl, refl, tt));
  distinct = ((ground arith, tt), (tt, tt));
  head = refl;
  tail = refl;
  count = refl;
  total = refl;
}

link_tail-IsQueue_example :
    IsQueue (link_tail two_queued 1 0) 0 (2 ∷ 0 ∷ 1 ∷ [])
    × ((k : ℕ) (ys : List ℕ)
        → k ≢ 0
        → IsQueue two_queued k ys
        → Lacks 1 ys
        → Lacks 0 ys
        → IsQueue (link_tail two_queued 1 0) k ys)
link_tail-IsQueue_example =
    link_tail-IsQueue two_queued 1 0 (2 ∷ 0 ∷ []) two_queued-IsQueue (ground arith) (ground arith)

-- the last order leaves
leave_queue-IsQueue_example :
    IsQueue (leave_queue two_queued 0) 0 (2 ∷ [])
    × ((k : ℕ) (xs : List ℕ)
        → k ≢ 0
        → IsQueue two_queued k xs
        → All (λ y. Lacks y xs) (2 ∷ 0 ∷ [])
        → IsQueue (leave_queue two_queued 0) k xs)
unfolding get_or
leave_queue-IsQueue_example =
    leave_queue-IsQueue two_queued 0 (2 ∷ []) [] two_queued-IsQueue (omega arith)
