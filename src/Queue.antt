-- ===== src/Queue.antt =====
-- include/market/SpscQueue.hpp: the bounded queue between one producer and one consumer, in a ring
-- of `Capacity` slots of which one stays free.
pub mod System
pub mod Window
pub mod Fifo
mod Tests
use market_order_book_engine.Base.{
  ℕ, ◌+◌, ◌-◌, ◌%◌, List, Bool, true, false, leb, ◌==◌, length, get_or, set, if◌then◌else◌,
}

-- `capacity` is the template parameter; the storage has as many entries.
pub record Ring {ℓ} (A : Type ℓ) : Type ℓ where
  pub capacity : ℕ
  pub storage : List A
  pub head : ℕ
  pub tail : ℕ

abbrev pub increment : ℕ → ℕ → ℕ
increment capacity index = (index + 1) % capacity

module _ {ℓ} {A : Type ℓ} where
  -- Each call in one piece, as a single thread sees it.
  unfoldable pub try_push : Ring A → A → Bool × Ring A
  try_push q item =
      let next = increment q.capacity q.head in
      if next == q.tail
      then (false, q)
      else (true, record q { storage = set q.storage q.head item; head = next })

  -- `d` is what `item` holds before the call, and after one that fails.
  unfoldable pub try_pop : Ring A → A → Bool × A × Ring A
  try_pop q d =
      if q.tail == q.head
      then (false, d, q)
      else (true, get_or q.storage q.tail d, record q { tail = increment q.capacity q.tail })

  unfoldable pub is_empty : Ring A → Bool
  is_empty q = q.tail == q.head

  unfoldable pub size_approx : Ring A → ℕ
  size_approx q = if leb q.tail q.head then q.head - q.tail else q.capacity - q.tail + q.head
