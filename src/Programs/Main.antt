-- ===== src/Programs/Main.antt =====
-- src/Main.cpp: one thread reads events from a file into the queue, another applies them to the book, as a
-- relation between the states before and after a call. A call of the queue is one step on the events that
-- it holds, in order.
pub mod Kept
pub mod Lost
pub mod Finish
mod Tests
use market_order_book_engine.Base.{
  ℕ, suc, ◌+◌, ◌≤◌, ◌<◌, ◌≡◌, ◌≢◌, List, [], ◌∷◌, ◌++◌, Option, none, some, Bool, true, false, ◌==◌,
  add64, length, if◌then◌else◌,
}
use market_order_book_engine.Types.{MarketDataEvent, is_applied}
use market_order_book_engine.Text.{Text, parse_unsigned}
use market_order_book_engine.Book.State.{Book}
use market_order_book_engine.Book.Events.{process_event}

abbrev positive : Option ℕ → Option ℕ
positive none = none
positive (some n) = if n == 0 then none else some n

-- None for the exception.
unfoldable pub parse_capacity : Text → Option ℕ
parse_capacity text = positive (parse_unsigned text)

-- What the arguments come to: the two exits, or the run of a book of a capacity.
pub data Startup : Type 0 where
  usage_exit error_exit : Startup
  run_with : ℕ → Startup

abbrev pub run_positive : Option ℕ → Startup
run_positive none = error_exit
run_positive (some capacity) = run_with capacity

-- The arguments behind the program's name.
unfoldable pub startup : List Text → Startup
startup (path ∷ []) = run_with 100000
startup (path ∷ capacity ∷ []) = run_positive (parse_capacity capacity)
startup _ = usage_exit

-- `queue_slots - 1`, what the ring of the queue holds at most
abbrev pub queue_room : ℕ
queue_room = 65535

-- The producer reads the next event, pushes the one it has read, or has stored `producer_done`.
pub data Producer : Type 0 where
  reading finished : Producer
  pushing : MarketDataEvent → Producer

-- The consumer calls try_pop, has found the queue empty, or has left its loop.
pub data Consumer : Type 0 where
  popping doubting stopped : Consumer

-- `coming` is what the connector has yet to deliver, before it ends or throws.
pub record Machine : Type 0 where
  pub coming : List MarketDataEvent
  pub producer : Producer
  pub queue : List MarketDataEvent
  pub consumer : Consumer
  pub book : Book
  pub applied : ℕ
  pub rejected : ℕ

abbrev pub start : List MarketDataEvent → Book → Machine
start events b = record {
  coming = events;
  producer = reading;
  queue = [];
  consumer = popping;
  book = b;
  applied = 0;
  rejected = 0;
}

-- an event that has been popped
unfoldable pub handle : Machine → MarketDataEvent → List MarketDataEvent → Machine
handle s e queue =
    let (b, result) = process_event s.book e in
    record s {
      queue = queue;
      book = b;
      applied = if is_applied result then add64 s.applied 1 else s.applied;
      rejected = if is_applied result then s.rejected else add64 s.rejected 1;
    }

pub data Step (s : Machine) : Machine → Type 0 where
  read :
      (e : MarketDataEvent) (events : List MarketDataEvent)
      → s.producer ≡ reading
      → s.coming ≡ e ∷ events
      → Step s (record s { producer = pushing e; coming = events })
  finish : s.producer ≡ reading → s.coming ≡ [] → Step s (record s { producer = finished })
  push :
      (e : MarketDataEvent)
      → s.producer ≡ pushing e
      → length s.queue < queue_room
      → Step s (record s { producer = reading; queue = s.queue ++ e ∷ [] })
  push_full :
      (e : MarketDataEvent) → s.producer ≡ pushing e → queue_room ≤ length s.queue → Step s s
  pop :
      (e : MarketDataEvent) (queue : List MarketDataEvent)
      → s.consumer ≡ popping
      → s.queue ≡ e ∷ queue
      → Step s (handle s e queue)
  pop_empty : s.consumer ≡ popping → s.queue ≡ [] → Step s (record s { consumer = doubting })
  stop : s.consumer ≡ doubting → s.producer ≡ finished → Step s (record s { consumer = stopped })
  again : s.consumer ≡ doubting → s.producer ≢ finished → Step s (record s { consumer = popping })

pub data Reach (s : Machine) : Machine → Type 0 where
  here : Reach s s
  later : {t u : Machine} → Reach s t → Step t u → Reach s u

-- Both threads have been joined.
abbrev pub IsJoined : Machine → Type 0
IsJoined s = (s.producer ≡ finished) × (s.consumer ≡ stopped)
