-- ===== src/Queue/Tests.antt =====
-- A queue of two slots and its two threads, run.
use market_order_book_engine.Base.{ℕ, ◌<◌, ◌≡◌, refl, [], ◌∷◌, ◌++◌, arith, get_or, set, replicate}
use market_order_book_engine.Queue.System.{
  System, Producer, Consumer, Reach, here, later, push_test, push_write, push_publish, pop_test,
  pop_read,
}
use market_order_book_engine.Queue.Window.{window}
use market_order_book_engine.Queue.Fifo.{fresh_system, Reach-fifo}

-- The producer has pushed 7, and the consumer has read it but not yet freed its slot.
abbrev half_way : System ℕ
half_way = record {
  ring = record { capacity = 2; storage = 7 ∷ 0 ∷ []; head = 1; tail = 0 };
  producer = Producer.idle;
  consumer = Consumer.taken 7;
  pushed = 7 ∷ [];
  popped = [];
}

run : Reach 0 (fresh_system 0 2) half_way
unfolding get_or set replicate
run =
    later
      (later
        (later (later (later here (push_test 7 refl (omega arith))) (push_write 7 refl))
          (push_publish 7 refl))
        (pop_test refl (omega arith)))
      (pop_read refl)

Reach-fifo_example :
    (used : ℕ) × (used < half_way.ring.capacity)
    × (half_way.pushed
        ≡ half_way.popped
          ++ window 0 half_way.ring.storage half_way.ring.capacity half_way.ring.tail used)
Reach-fifo_example = Reach-fifo 0 2 (omega arith) run
