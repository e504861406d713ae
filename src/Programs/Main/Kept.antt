-- ===== src/Programs/Main/Kept.antt =====
-- What every interleaving of the two threads keeps.
use market_order_book_engine.Base.{
  ◌+◌, ◌^◌, ◌≤◌, ◌<◌, ◌≡◌, ◌≢◌, refl, sym, ap, ◌∙◌, List, [], ◌∷◌, ◌++◌, append_assoc,
  length-append, arith, length,
}
use market_order_book_engine.Types.{MarketDataEvent, is_applied}
use market_order_book_engine.Book.State.{Book}
use market_order_book_engine.Book.Events.{process_event}
use market_order_book_engine.Programs.Replay.Counted.{book_after, applied_in}
use market_order_book_engine.Programs.Main.{
  Producer, reading, finished, pushing, Consumer, popping, doubting, stopped, Machine, start,
  handle, Step, read, finish, push, push_full, pop, pop_empty, stop, again, Reach, here, later,
}

book_after-append :
    (b : Book) (xs ys : List MarketDataEvent)
    → book_after b (xs ++ ys) ≡ book_after (book_after b xs) ys
unfolding book_after
book_after-append b [] ys = refl
book_after-append b (x ∷ xs) ys = book_after-append (process_event b x).0 xs ys

applied_in-append :
    (b : Book) (xs ys : List MarketDataEvent)
    → applied_in b (xs ++ ys) ≡ applied_in b xs + applied_in (book_after b xs) ys
unfolding book_after applied_in
applied_in-append b [] ys = omega arith
applied_in-append b (x ∷ xs) ys = omega (arith, applied_in-append (process_event b x).0 xs ys)

-- the event that has been read and not pushed
abbrev pub in_hand : Producer → List MarketDataEvent
in_hand reading = []
in_hand finished = []
in_hand (pushing e) = e ∷ []

abbrev pub IsOver : Producer → List MarketDataEvent → Type 0
IsOver finished coming = coming ≡ []
IsOver _ coming = Unit

abbrev pub IsStill : Consumer → Producer → Type 0
IsStill stopped producer = producer ≡ finished
IsStill _ producer = Unit

-- what waits to be handled, in order
abbrev pub waiting : List MarketDataEvent → Producer → List MarketDataEvent → List MarketDataEvent
waiting queue producer coming = queue ++ (in_hand producer ++ coming)

IsStill-working : (c : Consumer) (p p' : Producer) → p ≢ finished → IsStill c p → IsStill c p'
IsStill-working popping p p' busy h = tt
IsStill-working doubting p p' busy h = tt
IsStill-working stopped p p' busy h = absurd (busy h)

IsStill-finished : (c : Consumer) → IsStill c finished
IsStill-finished popping = tt
IsStill-finished doubting = tt
IsStill-finished stopped = refl

-- Some first events have been handled, in order; the queue holds those behind them, then come the one in
-- the producer's hand and those of the file. The counts are those of the events handled.
pub record Kept (events : List MarketDataEvent) (b : Book) (s : Machine) : Type 0 where
  pub handled : List MarketDataEvent
  pub order : events ≡ handled ++ waiting s.queue s.producer s.coming
  pub book : s.book ≡ book_after b handled
  pub applied : s.applied ≡ applied_in b handled
  pub counted : s.applied + s.rejected ≡ length handled
  pub over : IsOver s.producer s.coming
  pub still : IsStill s.consumer s.producer

module _ (events : List MarketDataEvent) (b : Book) (small : length events < 2 ^ 64) where
  start-Kept : Kept events b (start events b)
  unfolding book_after applied_in
  start-Kept = record {
    handled = [];
    order = refl;
    book = refl;
    applied = refl;
    counted = refl;
    over = tt;
    still = tt;
  }

  -- an event that has been popped is handled next
  pop_Kept :
      (s : Machine) (e : MarketDataEvent) (queue : List MarketDataEvent)
      → s.consumer ≡ popping
      → s.queue ≡ e ∷ queue
      → Kept events b s
      → Kept events b (handle s e queue)
  unfolding handle book_after applied_in
  pop_Kept s e queue idle front v =
      let rest = waiting queue s.producer s.coming in
      let same : events ≡ v.handled ++ e ∷ rest =
        v.order ∙ ap (λ q. v.handled ++ waiting q s.producer s.coming) front in
      let room : length v.handled + 1 ≤ length events =
        omega (arith, ap length same, length-append v.handled (e ∷ rest)) in
      let more = applied_in-append b v.handled (e ∷ []) in
      let result : is_applied (process_event s.book e).1
          ≡ is_applied (process_event (book_after b v.handled) e).1 =
        ap (λ b. is_applied (process_event b e).1) v.book in
      record {
        handled = v.handled ++ e ∷ [];
        order = same ∙ sym (append_assoc v.handled (e ∷ []) rest);
        book =
            ap (λ b. (process_event b e).0) v.book ∙ sym (book_after-append b v.handled (e ∷ []));
        applied = ground (arith, v.applied, v.counted, more, result, room, small);
        counted = ground (arith, v.counted, length-append v.handled (e ∷ []), room, small);
        over = v.over;
        still = v.still;
      }

  Step-Kept : {s t : Machine} → Step s t → Kept events b s → Kept events b t
  Step-Kept {s} (read e coming idle next) v = record {
    handled = v.handled;
    order =
        v.order
        ∙ ap (λ xs. v.handled ++ (s.queue ++ xs)) (ap (λ p. in_hand p ++ s.coming) idle ∙ next);
    book = v.book;
    applied = v.applied;
    counted = v.counted;
    over = tt;
    still = IsStill-working s.consumer s.producer (pushing e) (busy idle) v.still;
  }
    where
      busy : s.producer ≡ reading → s.producer ≢ finished
      busy idle h = cc
  Step-Kept {s} (finish idle none_left) v = record {
    handled = v.handled;
    order = v.order ∙ ap (λ p. v.handled ++ waiting s.queue p s.coming) idle;
    book = v.book;
    applied = v.applied;
    counted = v.counted;
    over = none_left;
    still = IsStill-finished s.consumer;
  }
  Step-Kept {s} (push e has room) v = record {
    handled = v.handled;
    order =
        v.order
        ∙ ap (λ p. v.handled ++ waiting s.queue p s.coming) has
        ∙ ap (λ xs. v.handled ++ xs) (sym (append_assoc s.queue (e ∷ []) s.coming));
    book = v.book;
    applied = v.applied;
    counted = v.counted;
    over = tt;
    still = IsStill-working s.consumer s.producer reading (busy has) v.still;
  }
    where
      busy : s.producer ≡ pushing e → s.producer ≢ finished
      busy has h = cc
  Step-Kept (push_full e has full) v = v
  Step-Kept {s} (pop e queue idle front) v = pop_Kept s e queue idle front v
  Step-Kept {s} (pop_empty idle none_left) v = record {
    handled = v.handled;
    order = v.order;
    book = v.book;
    applied = v.applied;
    counted = v.counted;
    over = v.over;
    still = tt;
  }
  Step-Kept {s} (stop idle over) v = record {
    handled = v.handled;
    order = v.order;
    book = v.book;
    applied = v.applied;
    counted = v.counted;
    over = v.over;
    still = over;
  }
  Step-Kept {s} (again idle more) v = record {
    handled = v.handled;
    order = v.order;
    book = v.book;
    applied = v.applied;
    counted = v.counted;
    over = v.over;
    still = tt;
  }

  Reach-keeps : {s : Machine} → Reach (start events b) s → Kept events b s
  Reach-keeps here = start-Kept
  Reach-keeps (later r step) = Step-Kept step (Reach-keeps r)

-- In every state that the two threads reach, in any order of their steps, the events handled are the first
-- ones of the file, each once and in order, the book is the one behind them, and the counts are theirs; the
-- others wait in order in the queue, in the producer's hand and in the file.
pub Reach-Kept :
    (events : List MarketDataEvent) (b : Book) (s : Machine)
    → length events < 2 ^ 64
    → Reach (start events b) s
    → Kept events b s
Reach-Kept events b s small r = Reach-keeps events b small r
