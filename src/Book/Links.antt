-- ===== src/Book/Links.antt =====
-- Lookups by id and by price, the life of a price level, and its queue of orders (src/OrderBook.cpp).
pub mod Chain
pub mod Fifo
pub mod Append
pub mod Leave
pub mod Cut
pub mod Remove
pub mod Bounds
mod Tests
pub mod Keeps
use market_order_book_engine.Base.{
  ℕ, ◌+◌, ℤ, List, Option, none, some, Bool, true, false, add64, sub64, not, ◌==◌, if◌then◌else◌,
}
use market_order_book_engine.Types.{Side}
use market_order_book_engine.Book.Table
use market_order_book_engine.Book.Table.{npos}
use market_order_book_engine.Book.State.{
  Order, Level, fresh_level, LevelKey, order_key, level_key, Book, order_at, level_at, set_order,
  set_level,
}
use market_order_book_engine.Book.Ladder.{ladder_push, ladder_remove}

unfoldable pub find_order_index : Book → ℕ → ℕ
find_order_index b id = Table.find b.order_lookup id

abbrev pub key_of : Side → ℤ → LevelKey
key_of side price = record { side = side; price = price }

unfoldable pub find_level_index : Book → Side → ℤ → ℕ
find_level_index b side price = Table.find b.level_lookup (key_of side price)

unfoldable pub erase_order_lookup : Book → ℕ → Book
erase_order_lookup b id = record b { order_lookup = Table.erase b.order_lookup id }

unfoldable pub erase_level_lookup : Book → Side → ℤ → Book
erase_level_lookup b side price = record b {
  level_lookup = Table.erase b.level_lookup (key_of side price);
}

-- The inserts give `none` for `false`.
unfoldable pub insert_order_lookup : Book → ℕ → ℕ → Option Book
insert_order_lookup b id value = elim (Table.insert_or_reuse b.order_lookup id value) [
  | none ↦ none
  | some t ↦ some (record b { order_lookup = t })
]

unfoldable pub insert_level_lookup : Book → Side → ℤ → ℕ → Option Book
insert_level_lookup b side price value =
    elim (Table.insert b.level_lookup (key_of side price) value) [
      | none ↦ none
      | some t ↦ some (record b { level_lookup = t })
    ]

-- An active level that is taken from the free list, before it is entered.
abbrev pub fresh_level_at : Side → ℤ → Level
fresh_level_at side price = record fresh_level { price = price; side = side; active = true }

-- `active = false` and the push on the free list
abbrev pub give_back_level : Book → ℕ → Book
give_back_level b index =
    record (set_level b index
      (record (level_at b index) { active = false; next_free = b.free_level })) {
        free_level = index;
      }

-- A level from the free list, entered in the table and in the ladder; `npos` if that fails.
unfoldable pub take_level : Book → Side → ℤ → Book × ℕ
take_level b side price =
    let index = b.free_level in
    let b1 = record b { free_level = (level_at b index).next_free } in
    let b2 = set_level b1 index (fresh_level_at side price) in
    elim (insert_level_lookup b2 side price index) [
      | none ↦ (give_back_level b2 index, npos)
      | some b3 ↦ (ladder_push side b3 index, index)
    ]

unfoldable pub acquire_level : Book → Side → ℤ → Book × ℕ
acquire_level b side price =
    let existing = find_level_index b side price in
    if not (existing == npos)
    then (b, existing)
    else if b.free_level == npos
    then (b, npos)
    else take_level b side price

unfoldable pub release_level : Book → ℕ → Book
release_level b index =
    let side = (level_at b index).side in
    let b1 = ladder_remove side b index in
    let level = level_at b1 index in
    give_back_level (erase_level_lookup b1 level.side level.price) index

unfoldable pub link_tail : Book → ℕ → ℕ → Book
link_tail b order_index level_index =
    let tail = (level_at b level_index).tail in
    let b1 =
      set_order b order_index (record (order_at b order_index) { prev = tail; next = npos }) in
    let b2 =
      if not (tail == npos)
      then set_order b1 tail (record (order_at b1 tail) { next = order_index })
      else set_level b1 level_index (record (level_at b1 level_index) { head = order_index }) in
    let level = level_at b2 level_index in
    set_level b2 level_index (record level {
      tail = order_index;
      total_quantity = add64 level.total_quantity (order_at b2 order_index).quantity;
      order_count = add64 level.order_count 1;
    })

-- `unlink` up to its last statement: the order leaves the queue of its level.
unfoldable pub leave_queue : Book → ℕ → Book
leave_queue b order_index =
    let level_index = (order_at b order_index).level in
    let o1 = order_at b order_index in
    let b1 =
      if not (o1.prev == npos)
      then set_order b o1.prev (record (order_at b o1.prev) { next = o1.next })
      else set_level b level_index (record (level_at b level_index) { head = o1.next }) in
    let o2 = order_at b1 order_index in
    let b2 =
      if not (o2.next == npos)
      then set_order b1 o2.next (record (order_at b1 o2.next) { prev = o2.prev })
      else set_level b1 level_index (record (level_at b1 level_index) { tail = o2.prev }) in
    let level = level_at b2 level_index in
    let o3 = order_at b2 order_index in
    let b3 = set_level b2 level_index (record level {
      total_quantity = sub64 level.total_quantity o3.quantity;
      order_count = sub64 level.order_count 1;
    }) in
    set_order b3 order_index (record (order_at b3 order_index) { prev = npos; next = npos })

unfoldable pub unlink : Book → ℕ → Book
unlink b order_index =
    let level_index = (order_at b order_index).level in
    let b1 = leave_queue b order_index in
    if (level_at b1 level_index).order_count == 0 then release_level b1 level_index else b1

unfoldable pub free_order_slot : Book → ℕ → Book
free_order_slot b order_index =
    let order = order_at b order_index in
    record (set_order b order_index (record order { active = false; next_free = b.free_order })) {
      free_order = order_index;
    }
