-- ===== src/Book/Ladder/Frame.antt =====
-- What the ladder leaves alone: all of the book but the heaps, their sizes and the levels' positions.
use market_order_book_engine.Base.{
  ℕ, zero, suc, ◌+◌, ◌-◌, ◌/◌, ◌≡◌, refl, ◌∙◌, List, length, set, length-set, get_or-set,
  set-eq_of_le, arith, ltb, ◌==◌, Bool-cases, inl, inr, add64, sub64,
}
use native.Mathlib.Decide.{dec_le}
use market_order_book_engine.Types.{Side, buy, sell}
use market_order_book_engine.Book.Table.{npos}
use market_order_book_engine.Book.State.{Level, fresh_level, Book, level_at, set_level}
use market_order_book_engine.Book.Ladder.{
  set_heap, size_of, set_size, heap_at, ladder_before, set_heap_pos, swap_entries, sift_up_loop,
  ladder_sift_up, best_child, sift_down_loop, ladder_sift_down, ladder_push, refill, ladder_remove,
}

-- a level but for its place in the heap
abbrev pub unplaced : Level → Level
unplaced l = record l { heap_pos = npos }

pub record Frame (b b' : Book) : Type 0 where
  pub orders : b'.orders ≡ b.orders
  pub order_lookup : b'.order_lookup ≡ b.order_lookup
  pub level_lookup : b'.level_lookup ≡ b.level_lookup
  pub free_order : b'.free_order ≡ b.free_order
  pub free_level : b'.free_level ≡ b.free_level
  pub active_orders : b'.active_orders ≡ b.active_orders
  pub next_priority : b'.next_priority ≡ b.next_priority
  pub fill_sequence : b'.fill_sequence ≡ b.fill_sequence
  pub count : length b'.levels ≡ length b.levels
  pub level : (i : ℕ) → unplaced (level_at b' i) ≡ unplaced (level_at b i)

pub Frame-refl : (b : Book) → Frame b b
Frame-refl b = record {
  orders = refl;
  order_lookup = refl;
  level_lookup = refl;
  free_order = refl;
  free_level = refl;
  active_orders = refl;
  next_priority = refl;
  fill_sequence = refl;
  count = refl;
  level = λ i. refl;
}

pub Frame-trans : {a b c : Book} → Frame a b → Frame b c → Frame a c
Frame-trans f g = record {
  orders = g.orders ∙ f.orders;
  order_lookup = g.order_lookup ∙ f.order_lookup;
  level_lookup = g.level_lookup ∙ f.level_lookup;
  free_order = g.free_order ∙ f.free_order;
  free_level = g.free_level ∙ f.free_level;
  active_orders = g.active_orders ∙ f.active_orders;
  next_priority = g.next_priority ∙ f.next_priority;
  fill_sequence = g.fill_sequence ∙ f.fill_sequence;
  count = g.count ∙ f.count;
  level = λ i. g.level i ∙ f.level i;
}

-- A write to a level's place alone.
pub place_Frame :
    (b : Book) (index : ℕ) (l : Level)
    → unplaced l ≡ unplaced (level_at b index)
    → Frame b (set_level b index l)
place_Frame b index l e = record {
  orders = refl;
  order_lookup = refl;
  level_lookup = refl;
  free_order = refl;
  free_level = refl;
  active_orders = refl;
  next_priority = refl;
  fill_sequence = refl;
  count = length-set b.levels index l;
  level = λ i. elim (dec_le (length b.levels) index) [
    | yes out ↦ rw (set-eq_of_le b.levels index l out)
    | no p ↦
        rw (get_or-set b.levels index i l fresh_level (omega arith))
          (elim (Bool-cases (index == i)) [
            | inl c ↦ let same : index ≡ i = ground arith in rw (c, ← same) e
            | inr c ↦ rw c
          ])
  ];
}

pub set_heap_pos-Frame : (b : Book) (index pos : ℕ) → Frame b (set_heap_pos b index pos)
set_heap_pos-Frame b index pos = place_Frame b index _ refl

-- Any heaps in the place of the book's.
heaps_Frame :
    (b : Book) (bids asks : List ℕ) (m n : ℕ)
    → Frame b (record b { bid_heap = bids; ask_heap = asks; bid_heap_size = m; ask_heap_size = n })
heaps_Frame b bids asks m n = record {
  orders = refl;
  order_lookup = refl;
  level_lookup = refl;
  free_order = refl;
  free_level = refl;
  active_orders = refl;
  next_priority = refl;
  fill_sequence = refl;
  count = refl;
  level = λ i. refl;
}

pub set_heap-Frame : (side : Side) (b : Book) (i v : ℕ) → Frame b (set_heap side b i v)
set_heap-Frame buy b i v =
    heaps_Frame b (set b.bid_heap i v) b.ask_heap b.bid_heap_size b.ask_heap_size
set_heap-Frame sell b i v =
    heaps_Frame b b.bid_heap (set b.ask_heap i v) b.bid_heap_size b.ask_heap_size

pub set_size-Frame : (side : Side) (b : Book) (n : ℕ) → Frame b (set_size side b n)
set_size-Frame buy b n = heaps_Frame b b.bid_heap b.ask_heap n b.ask_heap_size
set_size-Frame sell b n = heaps_Frame b b.bid_heap b.ask_heap b.bid_heap_size n

pub swap_entries-Frame : (side : Side) (b : Book) (i j : ℕ) → Frame b (swap_entries side b i j)
unfolding swap_entries
swap_entries-Frame side b i j =
    let b0 = set_heap side b i (heap_at side b j) in
    let b1 = set_heap side b0 j (heap_at side b i) in
    let b2 = set_heap_pos b1 (heap_at side b1 i) i in
    Frame-trans (set_heap-Frame side b i _) (
      Frame-trans (set_heap-Frame side b0 j _) (
        Frame-trans (set_heap_pos-Frame b1 (heap_at side b1 i) i)
          (set_heap_pos-Frame b2 (heap_at side b2 j) j)))

sift_up_loop-Frame :
    (side : Side) (rounds : ℕ) (b : Book) (pos : ℕ) → Frame b (sift_up_loop side rounds b pos)
unfolding sift_up_loop
sift_up_loop-Frame side zero b pos = Frame-refl b
sift_up_loop-Frame side (suc rounds) b pos =
    let parent = (pos - 1) / 2 in
    let swapped = swap_entries side b pos parent in
    let rest =
      Frame-trans (swap_entries-Frame side b pos parent)
        (sift_up_loop-Frame side rounds swapped parent) in
    elim (Bool-cases (ltb 0 pos)) [
      | inr c ↦ rw c (Frame-refl b)
      | inl c ↦
          rw c
            (elim (Bool-cases (ladder_before side b (heap_at side b pos) (heap_at side b parent))) [
              | inl d ↦ rw d rest
              | inr d ↦ rw d (Frame-refl b)
            ])
    ]

sift_down_loop-Frame :
    (side : Side) (rounds : ℕ) (b : Book) (pos : ℕ) → Frame b (sift_down_loop side rounds b pos)
unfolding sift_down_loop
sift_down_loop-Frame side zero b pos = Frame-refl b
sift_down_loop-Frame side (suc rounds) b pos =
    let best = best_child side b pos in
    let swapped = swap_entries side b pos best in
    let rest =
      Frame-trans (swap_entries-Frame side b pos best)
        (sift_down_loop-Frame side rounds swapped best) in
    elim (Bool-cases (best == pos)) [ inl c ↦ rw c (Frame-refl b) | inr c ↦ rw c rest ]

pub ladder_sift_up-Frame : (side : Side) (b : Book) (pos : ℕ) → Frame b (ladder_sift_up side b pos)
unfolding ladder_sift_up
ladder_sift_up-Frame side b pos = sift_up_loop-Frame side (pos + 1) b pos

pub ladder_sift_down-Frame :
    (side : Side) (b : Book) (pos : ℕ) → Frame b (ladder_sift_down side b pos)
unfolding ladder_sift_down
ladder_sift_down-Frame side b pos = sift_down_loop-Frame side (size_of side b + 1) b pos

-- Entering a level in the ladder changes nothing in the book but the heap of its side and the
-- levels' positions.
pub ladder_push-Frame : (side : Side) (b : Book) (index : ℕ) → Frame b (ladder_push side b index)
unfolding ladder_push
ladder_push-Frame side b index =
    let pos = size_of side b in
    let b1 = set_size side b (add64 pos 1) in
    let b2 = set_heap side b1 pos index in
    let b3 = set_heap_pos b2 index pos in
    Frame-trans (set_size-Frame side b _) (
      Frame-trans (set_heap-Frame side b1 pos index)
        (Frame-trans (set_heap_pos-Frame b2 index pos) (ladder_sift_up-Frame side b3 pos)))

refill-Frame : (side : Side) (b : Book) (pos size : ℕ) → Frame b (refill side b pos size)
unfolding refill
refill-Frame side b pos size =
    let b1 = set_heap side b pos (heap_at side b size) in
    let b2 = set_heap_pos b1 (heap_at side b1 pos) pos in
    let b3 = ladder_sift_down side b2 pos in
    Frame-trans (set_heap-Frame side b pos _) (
      Frame-trans (set_heap_pos-Frame b1 (heap_at side b1 pos) pos)
        (Frame-trans (ladder_sift_down-Frame side b2 pos) (ladder_sift_up-Frame side b3 pos)))

-- Taking a level out of the ladder changes no more than that either.
pub ladder_remove-Frame :
    (side : Side) (b : Book) (index : ℕ) → Frame b (ladder_remove side b index)
unfolding ladder_remove
ladder_remove-Frame side b index =
    let pos = (level_at b index).heap_pos in
    let size = sub64 (size_of side b) 1 in
    let b1 = set_size side b size in
    elim (Bool-cases (pos == size)) [
      | inl c ↦ rw c (Frame-trans (set_size-Frame side b size) (place_Frame b1 index _ refl))
      | inr c ↦ rw c (
          Frame-trans (set_size-Frame side b size) (
            Frame-trans (refill-Frame side b1 pos size)
              (place_Frame (refill side b1 pos size) index _ refl)))
    ]
