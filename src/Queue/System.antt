-- ===== src/Queue/System.antt =====
-- The two threads, one atomic action at a time, in any order. A thread that has read its own index
-- and the other's goes on from what it read: acquire and release order the accesses to a slot
-- before and after those of the other thread, so the interleavings of these actions are the runs.
use market_order_book_engine.Base.{List, [], ◌∷◌, ◌++◌, ◌≡◌, ◌≢◌, get_or, set}
use market_order_book_engine.Queue.{Ring, increment}

-- Where the producer is in `try_push`: outside; past the test; past the write of the slot.
pub data Producer {ℓ} (A : Type ℓ) : Type ℓ where
  idle : Producer A
  granted : A → Producer A
  written : A → Producer A

-- Where the consumer is in `try_pop`: outside; past the test; past the read of the slot.
pub data Consumer {ℓ} (A : Type ℓ) : Type ℓ where
  idle : Consumer A
  granted : Consumer A
  taken : A → Consumer A

-- `pushed` and `popped` record the items of the calls that have returned true.
pub record System {ℓ} (A : Type ℓ) : Type ℓ where
  pub ring : Ring A
  pub producer : Producer A
  pub consumer : Consumer A
  pub pushed : List A
  pub popped : List A

module _ {ℓ} {A : Type ℓ} (d : A) where
  pub data Step (s : System A) : System A → Type ℓ where
    push_full :
        s.producer ≡ Producer.idle → increment s.ring.capacity s.ring.head ≡ s.ring.tail → Step s s
    push_test :
        (item : A)
        → s.producer ≡ Producer.idle
        → increment s.ring.capacity s.ring.head ≢ s.ring.tail
        → Step s (record s { producer = Producer.granted item })
    push_write :
        (item : A)
        → s.producer ≡ Producer.granted item
        → Step s (record s {
          ring = record (s.ring) { storage = set s.ring.storage s.ring.head item };
          producer = Producer.written item;
        })
    push_publish :
        (item : A)
        → s.producer ≡ Producer.written item
        → Step s (record s {
          ring = record (s.ring) { head = increment s.ring.capacity s.ring.head };
          producer = Producer.idle;
          pushed = s.pushed ++ item ∷ [];
        })
    pop_empty : s.consumer ≡ Consumer.idle → s.ring.tail ≡ s.ring.head → Step s s
    pop_test :
        s.consumer ≡ Consumer.idle
        → s.ring.tail ≢ s.ring.head
        → Step s (record s { consumer = Consumer.granted })
    pop_read :
        s.consumer ≡ Consumer.granted
        → Step s (record s { consumer = Consumer.taken (get_or s.ring.storage s.ring.tail d) })
    pop_retire :
        (item : A)
        → s.consumer ≡ Consumer.taken item
        → Step s (record s {
          ring = record (s.ring) { tail = increment s.ring.capacity s.ring.tail };
          consumer = Consumer.idle;
          popped = s.popped ++ item ∷ [];
        })

  pub data Reach (s : System A) : System A → Type ℓ where
    here : Reach s s
    later : {t u : System A} → Reach s t → Step t u → Reach s u
