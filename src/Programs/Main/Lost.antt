-- ===== src/Programs/Main/Lost.antt =====
-- The consumer looks at `producer_done` after its pop has failed, and what was pushed between the two stays
-- in the queue.
use market_order_book_engine.Base.{
  ◌+◌, ◌≤◌, refl, sym, subst, List, [], ◌∷◌, ◌++◌, append_assoc, append_nil, arith, length,
  length-append,
}
use market_order_book_engine.Types.{MarketDataEvent}
use market_order_book_engine.Book.State.{Book}
use market_order_book_engine.Programs.Main.{
  finished, doubting, stopped, Machine, start, queue_room, read, finish, push, pop_empty, stop,
  Reach, here, later, IsJoined,
}

pub Reach-trans : {s t u : Machine} → Reach s t → Reach t u → Reach s u
Reach-trans r here = r
Reach-trans r (later q step) = later (Reach-trans r q) step

module _ (events : List MarketDataEvent) (b : Book) where
  -- the consumer has found the queue empty, and the producer goes on
  abbrev doubtful : List MarketDataEvent → List MarketDataEvent → Machine
  doubtful coming queue = record (start events b) {
    coming = coming;
    queue = queue;
    consumer = doubting;
  }

  fill :
      (coming queue : List MarketDataEvent)
      → length queue + length coming ≤ queue_room
      → Reach (doubtful coming queue) (doubtful [] (queue ++ coming))
  fill [] queue room =
      subst (λ q. Reach (doubtful [] queue) (doubtful [] q)) (sym (append_nil queue)) here
  fill (e ∷ coming) queue room =
      let pushed : Reach (doubtful (e ∷ coming) queue) (doubtful coming (queue ++ e ∷ [])) =
        later (later here (read e coming refl refl)) (push e refl (omega (arith, room))) in
      subst (λ q. Reach (doubtful (e ∷ coming) queue) (doubtful [] q))
        (append_assoc queue (e ∷ []) coming)
        (Reach-trans pushed
          (fill coming (queue ++ e ∷ []) (omega (arith, room, length-append queue (e ∷ [])))))

  -- Both threads at their ends, with nothing handled.
  abbrev pub all_lost : Machine
  all_lost = record (start events b) {
    coming = [];
    producer = finished;
    queue = events;
    consumer = stopped;
  }

-- For any events that the queue has room for, the two threads have a run that ends with all of the events
-- in the queue and none of them handled.
pub all_lost-Reach :
    (events : List MarketDataEvent) (b : Book)
    → length events ≤ queue_room
    → Reach (start events b) (all_lost events b) × IsJoined (all_lost events b)
all_lost-Reach events b room =
    let doubt : Reach (start events b) (doubtful events b events []) =
      later here (pop_empty refl refl) in
    let filled = Reach-trans doubt (fill events b events [] (omega (arith, room))) in
    (later (later filled (finish refl refl)) (stop refl refl), (refl, refl))
