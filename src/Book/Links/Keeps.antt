-- ===== src/Book/Links/Keeps.antt =====
-- What the queues and the levels leave alone: the lookup of orders, whose entries only the events
-- change; and the table of levels, but for the level that is released.
use market_order_book_engine.Base.{ℕ, ◌≡◌, inl, inr, ℤ, ◌==◌, arith, Bool-cases}
use market_order_book_engine.Types.{Side}
use market_order_book_engine.Book.Table.{npos}
use market_order_book_engine.Book.Table.Full.{IsFull, insert-full, erase-IsFull}
use market_order_book_engine.Book.State.{Book, level_key, order_at, level_at}
use market_order_book_engine.Book.Ladder.Frame.{ladder_remove-Frame}
use market_order_book_engine.Book.Links.{
  key_of, find_level_index, erase_level_lookup, insert_level_lookup, take_level, acquire_level,
  release_level, leave_queue, unlink,
}

module _ (b : Book) where
  pub leave_queue-order_lookup : (i : ℕ) → (leave_queue b i).order_lookup ≡ b.order_lookup
  unfolding leave_queue
  leave_queue-order_lookup i = ground arith

  pub leave_queue-level_lookup : (i : ℕ) → (leave_queue b i).level_lookup ≡ b.level_lookup
  unfolding leave_queue
  leave_queue-level_lookup i = ground arith

  pub release_level-order_lookup : (i : ℕ) → (release_level b i).order_lookup ≡ b.order_lookup
  unfolding release_level erase_level_lookup
  release_level-order_lookup i = (ladder_remove-Frame (level_at b i).side b i).order_lookup

pub unlink-order_lookup : (b : Book) (i : ℕ) → (unlink b i).order_lookup ≡ b.order_lookup
unfolding unlink
unlink-order_lookup b i =
    let b1 = leave_queue b i in
    let level_index = (order_at b i).level in
    ground (arith, leave_queue-order_lookup b i, release_level-order_lookup b1 level_index)

-- The table of levels stays full when an order leaves its level, also if the level goes with it.
pub unlink-IsFull : (b : Book) (i : ℕ) → IsFull b.level_lookup → IsFull (unlink b i).level_lookup
unfolding unlink release_level erase_level_lookup
unlink-IsFull b i full =
    let b1 = leave_queue b i in
    let level_index = (order_at b i).level in
    let full1 : IsFull b1.level_lookup = rw (leave_queue-level_lookup b i) full in
    let side = (level_at b1 level_index).side in
    let frame = ladder_remove-Frame side b1 level_index in
    elim (Bool-cases ((level_at b1 level_index).order_count == 0)) [
      | inr c ↦ rw c full1
      | inl c ↦ rw c (rw frame.level_lookup (erase-IsFull b1.level_lookup _ full1))
    ]

-- With the table of levels full, no level can be had where there is none, and the orders and their
-- lookup stay as they are.
pub acquire_level-full :
    (b : Book) (side : Side) (price : ℤ)
    → IsFull b.level_lookup
    → find_level_index b side price ≡ npos
    → ((acquire_level b side price).1 ≡ npos)
      × ((acquire_level b side price).0.orders ≡ b.orders)
      × ((acquire_level b side price).0.order_lookup ≡ b.order_lookup)
unfolding acquire_level take_level insert_level_lookup
acquire_level-full b side price full e =
    ground (arith, insert-full b.level_lookup (key_of side price) b.free_level full)
