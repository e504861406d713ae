-- ===== src/Book/Ladder.antt =====
-- The price ladder of src/OrderBook.cpp: for each side a binary heap of level indices, best price
-- at the top, each level keeping its position in the heap.
pub mod Frame
pub mod Swap
pub mod Order
pub mod Up
pub mod Down
pub mod Write
pub mod Push
pub mod Remove
pub mod Best
mod Tests
use market_order_book_engine.Base.{
  ℕ, zero, suc, ◌+◌, ◌-◌, ◌*◌, ◌/◌, ◌%◌, ◌^◌, List, Bool, ◌&&◌, ltb, ◌==◌, ltb_ℤ, add64, sub64,
  if◌then◌else◌, get_or, set,
}
use market_order_book_engine.Types.{Side, buy, sell}
use market_order_book_engine.Book.Table.{npos}
use market_order_book_engine.Book.State.{Book, level_at, set_level}

-- `side == Side::Buy ? bid_heap_ : ask_heap_`
abbrev pub heap_of : Side → Book → List ℕ
heap_of buy b = b.bid_heap
heap_of sell b = b.ask_heap

abbrev pub set_heap : Side → Book → ℕ → ℕ → Book
set_heap buy b i v = record b { bid_heap = set b.bid_heap i v }
set_heap sell b i v = record b { ask_heap = set b.ask_heap i v }

abbrev pub size_of : Side → Book → ℕ
size_of buy b = b.bid_heap_size
size_of sell b = b.ask_heap_size

abbrev pub set_size : Side → Book → ℕ → Book
set_size buy b n = record b { bid_heap_size = n }
set_size sell b n = record b { ask_heap_size = n }

abbrev pub heap_at : Side → Book → ℕ → ℕ
heap_at side b i = get_or (heap_of side b) i 0

unfoldable pub ladder_before : Side → Book → ℕ → ℕ → Bool
ladder_before buy b x y = ltb_ℤ (level_at b y).price (level_at b x).price
ladder_before sell b x y = ltb_ℤ (level_at b x).price (level_at b y).price

-- `levels_[index].heap_pos = static_cast<std::uint32_t>(pos)`
abbrev pub set_heap_pos : Book → ℕ → ℕ → Book
set_heap_pos b index pos = set_level b index (record (level_at b index) { heap_pos = pos % 2 ^ 32 })

-- `std::swap` of two heap entries, and the new positions of both
unfoldable pub swap_entries : Side → Book → ℕ → ℕ → Book
swap_entries side b i j =
    let x = heap_at side b i in
    let y = heap_at side b j in
    let b1 = set_heap side (set_heap side b i y) j x in
    let b2 = set_heap_pos b1 (heap_at side b1 i) i in set_heap_pos b2 (heap_at side b2 j) j

unfoldable pub sift_up_loop : Side → ℕ → Book → ℕ → Book
sift_up_loop side zero b pos = b
sift_up_loop side (suc rounds) b pos =
    let parent = (pos - 1) / 2 in
    let swapped = swap_entries side b pos parent in
    let rest = sift_up_loop side rounds swapped parent in
    if ltb 0 pos
    then (if ladder_before side b (heap_at side b pos) (heap_at side b parent) then rest else b)
    else b

-- The position halves each round.
unfoldable pub ladder_sift_up : Side → Book → ℕ → Book
ladder_sift_up side b pos = sift_up_loop side (pos + 1) b pos

-- `best` after the tests of both children
unfoldable pub best_child : Side → Book → ℕ → ℕ
best_child side b pos =
    let size = size_of side b in
    let left = 2 * pos + 1 in
    let right = 2 * pos + 2 in
    let best =
      if ltb left size && ladder_before side b (heap_at side b left) (heap_at side b pos)
      then left
      else pos in
    if ltb right size && ladder_before side b (heap_at side b right) (heap_at side b best)
    then right
    else best

unfoldable pub sift_down_loop : Side → ℕ → Book → ℕ → Book
sift_down_loop side zero b pos = b
sift_down_loop side (suc rounds) b pos =
    let best = best_child side b pos in
    let rest = sift_down_loop side rounds (swap_entries side b pos best) best in
    if best == pos then b else rest

-- The position grows each round and stays below the size.
unfoldable pub ladder_sift_down : Side → Book → ℕ → Book
ladder_sift_down side b pos = sift_down_loop side (size_of side b + 1) b pos

unfoldable pub ladder_push : Side → Book → ℕ → Book
ladder_push side b level_index =
    let pos = size_of side b in
    let b1 = set_size side b (add64 pos 1) in
    let b2 = set_heap side b1 pos level_index in
    let b3 = set_heap_pos b2 level_index pos in ladder_sift_up side b3 pos

-- `heap[pos] = heap[size]` and the sifts of the entry that moved
unfoldable pub refill : Side → Book → ℕ → ℕ → Book
refill side b pos size =
    let b1 = set_heap side b pos (heap_at side b size) in
    let b2 = set_heap_pos b1 (heap_at side b1 pos) pos in
    ladder_sift_up side (ladder_sift_down side b2 pos) pos

unfoldable pub ladder_remove : Side → Book → ℕ → Book
ladder_remove side b level_index =
    let pos = (level_at b level_index).heap_pos in
    let size = sub64 (size_of side b) 1 in
    let b1 = set_size side b size in
    let b2 = if pos == size then b1 else refill side b1 pos size in
    set_level b2 level_index (record (level_at b2 level_index) { heap_pos = npos })

unfoldable pub ladder_top : Side → Book → ℕ
ladder_top side b = if size_of side b == 0 then npos else heap_at side b 0
