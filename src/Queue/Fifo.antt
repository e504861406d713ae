-- ===== src/Queue/Fifo.antt =====
-- The queue is first in, first out, however the two threads interleave.
use market_order_book_engine.Base.{
  ℕ, zero, suc, ◌+◌, ◌-◌, ◌%◌, ◌≤◌, ◌<◌, ◌≡◌, ◌≢◌, refl, sym, ap, ◌∙◌, [], ◌∷◌, ◌++◌, length,
  get_or, set, length-set, get_or-set, arith, replicate, length-replicate,
}
use mathlib.Core.List.{append_assoc}
use native.Mathlib.Decide.{dec_lt}
use native.Mathlib.Nat.{mod-add-mod, mod-eq_of_lt, mod-eq-sub-mod, mod-lt}
use market_order_book_engine.Queue.{Ring, increment}
use market_order_book_engine.Queue.Window.{
  window, window-last, window-set, steps_apart, add_zero_mod, increment_add,
}
use market_order_book_engine.Queue.System.{
  Producer, Consumer, System, Step, push_full, push_test, push_write, push_publish, pop_empty,
  pop_test, pop_read, pop_retire, Reach, here, later,
}

-- The ring is full one slot early.
increment_mod : (capacity i : ℕ) → increment capacity (i % capacity) ≡ (i + 1) % capacity
increment_mod capacity i = rw mod-add-mod

not_full :
    {capacity tail used : ℕ}
    → used < capacity
    → tail < capacity
    → increment capacity ((tail + used) % capacity) ≢ tail
    → suc used < capacity
not_full {capacity} {tail} {used} h ht ne = elim (dec_lt (suc used) capacity) [
  | yes p ↦ p
  | no p ↦ absurd (
      ne (
        increment_mod capacity (tail + used)
        ∙ omega (
          arith,
          mod-eq-sub-mod {n = tail + used + 1} {m = capacity} (omega arith),
          mod-eq_of_lt {n = tail + used + 1 - capacity} {m = capacity} (omega arith),
        )))
]

module _ {A : Type 0} (d : A) where
  -- what the producer has secured, with `used` slots in use
  abbrev ProducerOk : Ring A → ℕ → Producer A → Type 0
  ProducerOk q used Producer.idle = Unit
  ProducerOk q used (Producer.granted item) = suc used < q.capacity
  ProducerOk q used (Producer.written item) =
      (suc used < q.capacity) × (get_or q.storage q.head d ≡ item)

  -- what the consumer has secured
  abbrev ConsumerOk : Ring A → ℕ → Consumer A → Type 0
  ConsumerOk q used Consumer.idle = Unit
  ConsumerOk q used Consumer.granted = 0 < used
  ConsumerOk q used (Consumer.taken item) = (0 < used) × (get_or q.storage q.tail d ≡ item)

  -- `used` slots from the tail on hold what has been pushed and not popped.
  pub record IsFifo (s : System A) : Type 0 where
    pub used : ℕ
    pub room : used < s.ring.capacity
    pub sized : length s.ring.storage ≡ s.ring.capacity
    pub tail_in : s.ring.tail < s.ring.capacity
    pub head_at : s.ring.head ≡ (s.ring.tail + used) % s.ring.capacity
    pub history : s.pushed ≡ s.popped ++ window d s.ring.storage s.ring.capacity s.ring.tail used
    pub producing : ProducerOk s.ring used s.producer
    pub consuming : ConsumerOk s.ring used s.consumer

  -- A slot in use is not the one that is written.
  head_apart :
      {s : System A} (v : IsFifo s) (k : ℕ)
      → k < v.used
      → (s.ring.tail + k) % s.ring.capacity ≢ s.ring.head
  head_apart {s} v k h = rw v.head_at (steps_apart v.tail_in h v.room)

  head_in : {s : System A} → IsFifo s → s.ring.head < length s.ring.storage
  head_in v = rw (v.head_at, v.sized) (mod-lt _ (omega arith))

  write-IsFifo :
      {s : System A} (item : A)
      → s.producer ≡ Producer.granted item
      → IsFifo s
      → IsFifo (record s {
        ring = record (s.ring) { storage = set s.ring.storage s.ring.head item };
        producer = Producer.written item;
      })
  write-IsFifo {s} item e v =
      let at = λ (i : ℕ). get_or-set s.ring.storage s.ring.head i item d (head_in v) in
      record {
        used = v.used;
        room = v.room;
        sized = length-set s.ring.storage s.ring.head item ∙ v.sized;
        tail_in = v.tail_in;
        head_at = v.head_at;
        history =
            rw
              (window-set d s.ring.storage s.ring.capacity v.used s.ring.tail s.ring.head item
                (head_in v) v.tail_in (head_apart v))
              v.history;
        producing = (rw e at v.producing, ground (arith, at s.ring.head));
        consuming = consumer_kept s.consumer v.consuming;
      }
    where
      consumer_kept :
          (c : Consumer A)
          → ConsumerOk s.ring v.used c
          → ConsumerOk (record (s.ring) { storage = set s.ring.storage s.ring.head item }) v.used c
      consumer_kept Consumer.idle k = k
      consumer_kept Consumer.granted k = k
      consumer_kept (Consumer.taken x) k = (
        k.0,
        ground (
          arith,
          k.1,
          k.0,
          get_or-set s.ring.storage s.ring.head s.ring.tail item d (head_in v),
          head_apart v 0 k.0,
          add_zero_mod v.tail_in,
        ),
      )

  publish-IsFifo :
      {s : System A} (item : A)
      → s.producer ≡ Producer.written item
      → IsFifo s
      → IsFifo (record s {
        ring = record (s.ring) { head = increment s.ring.capacity s.ring.head };
        producer = Producer.idle;
        pushed = s.pushed ++ item ∷ [];
      })
  publish-IsFifo {s} item e v =
      let ok = rw e at v.producing in
      record {
        used = suc v.used;
        room = ok.0;
        sized = v.sized;
        tail_in = v.tail_in;
        head_at = rw (v.head_at, increment_mod) (ap (λ k. k % s.ring.capacity) (omega arith));
        history =
            rw
              (
                v.history,
                window-last d s.ring.storage s.ring.capacity v.used s.ring.tail v.tail_in,
                ← v.head_at,
                ok.1,
              )
              (append_assoc s.popped (window d s.ring.storage s.ring.capacity s.ring.tail v.used)
                (item ∷ []));
        producing = tt;
        consuming = consumer_kept s.consumer v.consuming;
      }
    where
      consumer_kept :
          (c : Consumer A)
          → ConsumerOk s.ring v.used c
          → ConsumerOk
              (record (s.ring) { head = increment s.ring.capacity s.ring.head })
              (suc v.used)
              c
      consumer_kept Consumer.idle k = tt
      consumer_kept Consumer.granted k = omega arith
      consumer_kept (Consumer.taken x) k = (omega arith, k.1)

  test-IsFifo :
      {s : System A}
      → s.ring.tail ≢ s.ring.head
      → IsFifo s
      → IsFifo (record s { consumer = Consumer.granted })
  test-IsFifo {s} f v = record {
    used = v.used;
    room = v.room;
    sized = v.sized;
    tail_in = v.tail_in;
    head_at = v.head_at;
    history = v.history;
    producing = v.producing;
    consuming = filled v.used v.head_at;
  }
    where
      filled : (used : ℕ) → s.ring.head ≡ (s.ring.tail + used) % s.ring.capacity → 0 < used
      filled zero e = absurd (f (sym (e ∙ add_zero_mod v.tail_in)))
      filled (suc n) e = omega arith

  read-IsFifo :
      {s : System A}
      → s.consumer ≡ Consumer.granted
      → IsFifo s
      → IsFifo (record s { consumer = Consumer.taken (get_or s.ring.storage s.ring.tail d) })
  read-IsFifo {s} e v = record {
    used = v.used;
    room = v.room;
    sized = v.sized;
    tail_in = v.tail_in;
    head_at = v.head_at;
    history = v.history;
    producing = v.producing;
    consuming = (rw e at v.consuming, refl);
  }

  retire-IsFifo :
      {s : System A} (item : A)
      → s.consumer ≡ Consumer.taken item
      → IsFifo s
      → IsFifo (record s {
        ring = record (s.ring) { tail = increment s.ring.capacity s.ring.tail };
        consumer = Consumer.idle;
        popped = s.popped ++ item ∷ [];
      })
  retire-IsFifo {s} item e v =
      from v.used v.room v.head_at v.history v.producing (rw e at v.consuming)
    where
      from :
          (used : ℕ)
          → used < s.ring.capacity
          → s.ring.head ≡ (s.ring.tail + used) % s.ring.capacity
          → s.pushed ≡ s.popped ++ window d s.ring.storage s.ring.capacity s.ring.tail used
          → ProducerOk s.ring used s.producer
          → (0 < used) × (get_or s.ring.storage s.ring.tail d ≡ item)
          → IsFifo (record s {
            ring = record (s.ring) { tail = increment s.ring.capacity s.ring.tail };
            consumer = Consumer.idle;
            popped = s.popped ++ item ∷ [];
          })
      from zero room at h p c = absurd (omega arith)
      from (suc n) room at h p c = record {
        used = n;
        room = omega arith;
        sized = v.sized;
        tail_in = mod-lt _ (omega arith);
        head_at = at ∙ sym (increment_add s.ring.capacity s.ring.tail n);
        history = h ∙ rw (c.1) (sym (append_assoc s.popped (item ∷ []) _));
        producing = kept s.producer p;
        consuming = tt;
      }
        where
          kept :
              (x : Producer A)
              → ProducerOk s.ring (suc n) x
              → ProducerOk (record (s.ring) { tail = increment s.ring.capacity s.ring.tail }) n x
          kept Producer.idle k = tt
          kept (Producer.granted i) k = omega arith
          kept (Producer.written i) k = (omega arith, k.1)

  -- Whatever the two threads do, and however they interleave, the invariant is kept.
  Step-IsFifo : {s t : System A} → Step d s t → IsFifo s → IsFifo t
  Step-IsFifo (push_full e f) v = v
  Step-IsFifo (push_test item e f) v = record {
    used = v.used;
    room = v.room;
    sized = v.sized;
    tail_in = v.tail_in;
    head_at = v.head_at;
    history = v.history;
    producing = not_full v.room v.tail_in (rw v.head_at at f);
    consuming = v.consuming;
  }
  Step-IsFifo (push_write item e) v = write-IsFifo item e v
  Step-IsFifo (push_publish item e) v = publish-IsFifo item e v
  Step-IsFifo (pop_empty e f) v = v
  Step-IsFifo (pop_test e f) v = test-IsFifo f v
  Step-IsFifo (pop_read e) v = read-IsFifo e v
  Step-IsFifo (pop_retire item e) v = retire-IsFifo item e v

  Reach-IsFifo : {s t : System A} → IsFifo s → Reach d s t → IsFifo t
  Reach-IsFifo v here = v
  Reach-IsFifo v (later r st) = Step-IsFifo st (Reach-IsFifo v r)

  -- a queue as it is made: `storage_{}` with both indices 0
  abbrev pub fresh_system : ℕ → System A
  fresh_system capacity = record {
    ring = record { capacity = capacity; storage = replicate capacity d; head = 0; tail = 0 };
    producer = Producer.idle;
    consumer = Consumer.idle;
    pushed = [];
    popped = [];
  }

  fresh-IsFifo : (capacity : ℕ) → 2 ≤ capacity → IsFifo (fresh_system capacity)
  fresh-IsFifo capacity h = record {
    used = 0;
    room = omega arith;
    sized = length-replicate capacity d;
    tail_in = omega arith;
    head_at = sym (add_zero_mod (omega arith));
    history = refl;
    producing = tt;
    consuming = tt;
  }

  -- In every state that the two threads can reach, what has been popped and then what the ring holds
  -- is what has been pushed, in order: no item is lost, doubled or overtaken. The ring never holds
  -- as many items as it has slots.
  pub Reach-fifo :
      (capacity : ℕ) {s : System A}
      → 2 ≤ capacity
      → Reach d (fresh_system capacity) s
      → (used : ℕ) × (used < s.ring.capacity)
        × (s.pushed ≡ s.popped ++ window d s.ring.storage s.ring.capacity s.ring.tail used)
  Reach-fifo capacity h r =
      let v = Reach-IsFifo (fresh-IsFifo capacity h) r in (v.used, v.room, v.history)
