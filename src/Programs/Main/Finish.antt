-- ===== src/Programs/Main/Finish.antt =====
-- From any state both threads can come to their ends.
use market_order_book_engine.Base.{
  ◌<◌, ◌^◌, ◌≡◌, ◌≢◌, refl, ap, subst, List, [], ◌∷◌, ◌++◌, arith, length,
}
use market_order_book_engine.Types.{MarketDataEvent}
use market_order_book_engine.Book.State.{Book}
use market_order_book_engine.Programs.Main.{
  Producer, reading, finished, pushing, Consumer, popping, doubting, stopped, Machine, start,
  handle, Step, read, finish, push, pop, pop_empty, stop, again, Reach, here, later, IsJoined,
}
use market_order_book_engine.Programs.Main.Kept.{IsStill, Reach-Kept}
use market_order_book_engine.Programs.Main.Lost.{Reach-trans}

-- A run to the ends.
abbrev pub Ends : Machine → Type 0
Ends s = (t : Machine) × Reach s t × IsJoined t

Ends-after : {s t : Machine} → Step s t → Ends t → Ends s
Ends-after step (u, r, joined) = (u, Reach-trans (later here step) r, joined)

-- The producer has ended: the consumer empties the queue and stops.
drained :
    (queue : List MarketDataEvent) (s : Machine)
    → s.queue ≡ queue
    → s.producer ≡ finished
    → s.consumer ≡ popping
    → Ends s
unfolding handle
drained [] s front over idle =
    Ends-after (pop_empty idle front) (Ends-after (stop refl over) (_, here, (over, refl)))
drained (e ∷ queue) s front over idle =
    Ends-after (pop e queue idle front) (drained queue _ refl over idle)

-- The consumer empties the queue while the producer waits.
record Emptied (s t : Machine) : Type 0 where
  run : Reach s t
  none_left : t.queue ≡ []
  idle : t.consumer ≡ popping
  producer : t.producer ≡ s.producer
  coming : t.coming ≡ s.coming

emptied :
    (queue : List MarketDataEvent) (s : Machine)
    → s.queue ≡ queue
    → s.consumer ≡ popping
    → (t : Machine) × Emptied s t
unfolding handle
emptied [] s front idle =
    (s, record { run = here; none_left = front; idle = idle; producer = refl; coming = refl })
emptied (e ∷ queue) s front idle =
    let (t, done) = emptied queue (handle s e queue) refl idle in
    (
      t,
      record {
        run = Reach-trans (later here (pop e queue idle front)) done.run;
        none_left = done.none_left;
        idle = done.idle;
        producer = done.producer;
        coming = done.coming;
      },
    )

-- With an empty queue, the two threads take turns over what is to come.
taken_in_turn :
    (coming : List MarketDataEvent) (s : Machine)
    → s.coming ≡ coming
    → s.queue ≡ []
    → s.consumer ≡ popping
    → s.producer ≡ reading
    → Ends s
unfolding handle
taken_in_turn [] s next front idle busy =
    Ends-after (finish busy next) (drained [] _ front refl idle)
taken_in_turn (e ∷ coming) s next front idle busy = Ends-after (read e coming busy next) (
    Ends-after (push e refl (omega (arith, ap length front))) (
      Ends-after (pop e [] idle (ap (λ q. q ++ e ∷ []) front))
        (taken_in_turn coming _ refl refl idle refl)))

-- the producer's way on, with an empty queue
from_empty :
    (p : Producer) (s : Machine) → s.producer ≡ p → s.queue ≡ [] → s.consumer ≡ popping → Ends s
unfolding handle
from_empty reading s at front idle = taken_in_turn s.coming s refl front idle at
from_empty finished s at front idle = drained [] s front at idle
from_empty (pushing e) s at front idle = Ends-after (push e at (omega (arith, ap length front))) (
    Ends-after (pop e [] idle (ap (λ q. q ++ e ∷ []) front))
      (taken_in_turn s.coming _ refl refl idle refl))

from_popping : (s : Machine) → s.consumer ≡ popping → Ends s
from_popping s idle =
    let (t, done) = emptied s.queue s refl idle in
    let (u, r, joined) = from_empty t.producer t refl done.none_left done.idle in
    (u, Reach-trans done.run r, joined)

from_doubting : (p : Producer) (s : Machine) → s.producer ≡ p → s.consumer ≡ doubting → Ends s
from_doubting reading s at idle = Ends-after (again idle (busy at)) (from_popping _ refl)
  where
    busy : s.producer ≡ reading → s.producer ≢ finished
    busy at h = cc
from_doubting (pushing e) s at idle = Ends-after (again idle (busy at)) (from_popping _ refl)
  where
    busy : s.producer ≡ pushing e → s.producer ≢ finished
    busy at h = cc
from_doubting finished s at idle = Ends-after (stop idle at) (_, here, (at, refl))

-- Whatever the two threads have done, they can come to their ends: neither blocks the other for good.
pub Reach-Ends :
    (events : List MarketDataEvent) (b : Book) (s : Machine)
    → length events < 2 ^ 64
    → Reach (start events b) s
    → Ends s
Reach-Ends events b s small r = from s.consumer refl (Reach-Kept events b s small r).still
  where
    from : (c : Consumer) → s.consumer ≡ c → IsStill s.consumer s.producer → Ends s
    from popping at still = from_popping s at
    from doubting at still = from_doubting s.producer s refl at
    from stopped at still = (s, here, (subst (λ c. IsStill c s.producer) at still, at))
