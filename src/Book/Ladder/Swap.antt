-- ===== src/Book/Ladder/Swap.antt =====
-- What is in the heap of a side, and what an exchange of two of its entries does.
use market_order_book_engine.Base.{
  ℕ, ◌%◌, ◌^◌, ◌≤◌, ◌<◌, ◌≡◌, ◌≢◌, ◌↔◌, inl, inr, refl, sym, ap, ◌∙◌, ◌==◌, arith, length, get_or,
  set, get_or-set, length-set, if◌then◌else◌, Bool-cases,
}
use market_order_book_engine.Types.{Side, buy, sell, opposite}
use market_order_book_engine.Book.State.{Book, Level, fresh_level, level_at, set_level}
use market_order_book_engine.Book.Ladder.{
  heap_of, set_heap, size_of, set_size, heap_at, set_heap_pos, swap_entries,
}

-- The heap of a side is in order as a place: its entries are levels, which know their positions.
pub record IsPlaced (side : Side) (b : Book) : Type 0 where
  pub fits : size_of side b ≤ length (heap_of side b)
  pub small : length (heap_of side b) < 2 ^ 32
  pub inside : (i : ℕ) → i < size_of side b → heap_at side b i < length b.levels
  pub placed : (i : ℕ) → i < size_of side b → (level_at b (heap_at side b i)).heap_pos ≡ i

-- The level stands in the heap of the side.
abbrev pub Holds : Side → Book → ℕ → Type 0
Holds side b l = (i : ℕ) × (i < size_of side b) × (heap_at side b i ≡ l)

-- entries of a heap at two places are two levels
pub heap_at_injective :
    {side : Side} {b : Book}
    → IsPlaced side b
    → (i j : ℕ) → i < size_of side b
    → j < size_of side b
    → heap_at side b i ≡ heap_at side b j
    → i ≡ j
heap_at_injective {side} {b} v i j hi hj e =
    sym (v.placed i hi) ∙ ap (λ l. (level_at b l).heap_pos) e ∙ v.placed j hj

pub heap_of-set_heap :
    (side : Side) (b : Book) (i v : ℕ)
    → heap_of side (set_heap side b i v) ≡ set (heap_of side b) i v
heap_of-set_heap buy b i v = refl
heap_of-set_heap sell b i v = refl

pub heap_of-set_level :
    (side : Side) (b : Book) (i : ℕ) (l : Level) → heap_of side (set_level b i l) ≡ heap_of side b
heap_of-set_level buy b i l = refl
heap_of-set_level sell b i l = refl

pub size_of-set_heap :
    (side : Side) (b : Book) (i v : ℕ) → size_of side (set_heap side b i v) ≡ size_of side b
size_of-set_heap buy b i v = refl
size_of-set_heap sell b i v = refl

pub size_of-set_level :
    (side : Side) (b : Book) (i : ℕ) (l : Level) → size_of side (set_level b i l) ≡ size_of side b
size_of-set_level buy b i l = refl
size_of-set_level sell b i l = refl

pub levels-set_heap : (side : Side) (b : Book) (i v : ℕ) → (set_heap side b i v).levels ≡ b.levels
levels-set_heap buy b i v = refl
levels-set_heap sell b i v = refl

-- The heap of the other side is as it was.
pub record Apart (side : Side) (b b' : Book) : Type 0 where
  pub heap : heap_of (opposite side) b' ≡ heap_of (opposite side) b
  pub size : size_of (opposite side) b' ≡ size_of (opposite side) b

pub Apart-refl : (side : Side) (b : Book) → Apart side b b
Apart-refl side b = record { heap = refl; size = refl }

pub Apart-trans : {side : Side} {a b c : Book} → Apart side a b → Apart side b c → Apart side a c
Apart-trans p q = record { heap = q.heap ∙ p.heap; size = q.size ∙ p.size }

pub set_heap-Apart : (side : Side) (b : Book) (i v : ℕ) → Apart side b (set_heap side b i v)
set_heap-Apart buy b i v = record { heap = refl; size = refl }
set_heap-Apart sell b i v = record { heap = refl; size = refl }

pub set_size-Apart : (side : Side) (b : Book) (n : ℕ) → Apart side b (set_size side b n)
set_size-Apart buy b n = record { heap = refl; size = refl }
set_size-Apart sell b n = record { heap = refl; size = refl }

pub set_level-Apart : (side : Side) (b : Book) (i : ℕ) (l : Level) → Apart side b (set_level b i l)
set_level-Apart buy b i l = record { heap = refl; size = refl }
set_level-Apart sell b i l = record { heap = refl; size = refl }

-- What a write of an entry does to the heap, and what it leaves alone.
pub record Entered (side : Side) (b : Book) (i v : ℕ) (b' : Book) : Type 0 where
  pub size : size_of side b' ≡ size_of side b
  pub room : length (heap_of side b') ≡ length (heap_of side b)
  pub levels : b'.levels ≡ b.levels
  pub entry : (c : ℕ) → heap_at side b' c ≡ (if i == c then v else heap_at side b c)
  pub apart : Apart side b b'

pub set_heap-Entered :
    (side : Side) (b : Book) (i v : ℕ)
    → i < length (heap_of side b)
    → Entered side b i v (set_heap side b i v)
set_heap-Entered side b i v h = record {
  size = size_of-set_heap side b i v;
  room = ap length (heap_of-set_heap side b i v) ∙ length-set (heap_of side b) i v;
  levels = levels-set_heap side b i v;
  entry = λ c.
      ap (λ xs. get_or xs c 0) (heap_of-set_heap side b i v)
      ∙ get_or-set (heap_of side b) i c v 0 h;
  apart = set_heap-Apart side b i v;
}

-- What a write of a level's position does.
pub record Moved (side : Side) (b : Book) (index pos : ℕ) (b' : Book) : Type 0 where
  pub size : size_of side b' ≡ size_of side b
  pub heap : heap_of side b' ≡ heap_of side b
  pub count : length b'.levels ≡ length b.levels
  pub apart : Apart side b b'
  pub place :
      (l : ℕ)
      → (level_at b' l).heap_pos ≡ (if index == l then pos % 2 ^ 32 else (level_at b l).heap_pos)

pub set_heap_pos-Moved :
    (side : Side) (b : Book) (index pos : ℕ)
    → index < length b.levels
    → Moved side b index pos (set_heap_pos b index pos)
set_heap_pos-Moved side b index pos h =
    let l = record (level_at b index) { heap_pos = pos % 2 ^ 32 } in
    record {
      size = size_of-set_level side b index l;
      heap = heap_of-set_level side b index l;
      count = length-set b.levels index l;
      apart = set_level-Apart side b index l;
      place = λ k.
          ap Level.heap_pos (get_or-set b.levels index k l fresh_level h)
          ∙ (elim (Bool-cases (index == k)) [ inl c ↦ rw c | inr c ↦ rw c ]);
    }

-- What an exchange of the entries at `i` and `j` does.
pub record Swapped (side : Side) (b : Book) (i j : ℕ) (b' : Book) : Type 0 where
  pub size : size_of side b' ≡ size_of side b
  pub room : length (heap_of side b') ≡ length (heap_of side b)
  pub count : length b'.levels ≡ length b.levels
  pub apart : Apart side b b'
  pub entry :
      (c : ℕ)
      → heap_at side b' c ≡ (
          if j == c
          then heap_at side b i
          else if i == c
          then heap_at side b j
          else heap_at side b c)
  pub place :
      (l : ℕ)
      → (level_at b' l).heap_pos ≡ (
          if heap_at side b i == l
          then j % 2 ^ 32
          else if heap_at side b j == l
          then i % 2 ^ 32
          else (level_at b l).heap_pos)

pub swap_entries-Swapped :
    (side : Side) (b : Book) (i j : ℕ)
    → IsPlaced side b
    → i < size_of side b
    → j < size_of side b
    → i ≢ j
    → Swapped side b i j (swap_entries side b i j)
unfolding swap_entries
swap_entries-Swapped side b i j v hi hj ne =
    let x = heap_at side b i in
    let y = heap_at side b j in
    let b0 = set_heap side b i y in
    let e0 = set_heap-Entered side b i y (omega (arith, v.fits)) in
    let b1 = set_heap side b0 j x in
    let e1 = set_heap-Entered side b0 j x (omega (arith, v.fits, e0.room)) in
    let at_i : heap_at side b1 i ≡ y = ground (arith, e1.entry i, e0.entry i) in
    let b2 = set_heap_pos b1 (heap_at side b1 i) i in
    let inside_y : heap_at side b1 i < length b1.levels =
      omega (arith, at_i, v.inside j hj, ap length e1.levels, ap length e0.levels) in
    let m2 = set_heap_pos-Moved side b1 (heap_at side b1 i) i inside_y in
    let at_j : heap_at side b2 j ≡ x =
      ap (λ xs. get_or xs j 0) m2.heap ∙ ground (arith, e1.entry j) in
    let inside_x : heap_at side b2 j < length b2.levels =
      omega (arith, at_j, v.inside i hi, m2.count, ap length e1.levels, ap length e0.levels) in
    let m3 = set_heap_pos-Moved side b2 (heap_at side b2 j) j inside_x in
    record {
      size = m3.size ∙ m2.size ∙ e1.size ∙ e0.size;
      room = ap length m3.heap ∙ ap length m2.heap ∙ e1.room ∙ e0.room;
      count = m3.count ∙ m2.count ∙ ap length e1.levels ∙ ap length e0.levels;
      apart = Apart-trans e0.apart (Apart-trans e1.apart (Apart-trans m2.apart m3.apart));
      entry = λ c.
          ap (λ xs. get_or xs c 0) (m3.heap ∙ m2.heap)
          ∙ e1.entry c
          ∙ ap (λ k. if j == c then x else k) (e0.entry c);
      place = λ l.
          let old : (level_at b1 l).heap_pos ≡ (level_at b l).heap_pos =
            ap (λ ls. (get_or ls l fresh_level).heap_pos) (e1.levels ∙ e0.levels) in
          m3.place l
          ∙ ap (λ k. if k == l then j % 2 ^ 32 else (level_at b2 l).heap_pos) at_j
          ∙ ap (λ k. if x == l then j % 2 ^ 32 else k)
              (m2.place l
                ∙ ap (λ k. if k == l then i % 2 ^ 32 else (level_at b1 l).heap_pos) at_i
                ∙ ap (λ k. if y == l then i % 2 ^ 32 else k) old);
    }

-- An exchange keeps the heap in order as a place, with the same levels in it.
pub swap_IsPlaced :
    {side : Side} {b b' : Book} {i j : ℕ}
    → IsPlaced side b
    → i < size_of side b
    → j < size_of side b
    → i ≢ j
    → Swapped side b i j b'
    → IsPlaced side b'
swap_IsPlaced {side} {b} {b'} {i} {j} v hi hj ne s = record {
  fits = omega (arith, v.fits, s.size, s.room);
  small = omega (arith, v.small, s.room);
  inside = λ c h. ground (arith, s.entry c, s.size, s.count, v.inside c, v.inside i, v.inside j);
  placed = λ c h. ground (
    arith,
    s.entry c,
    s.size,
    s.place (heap_at side b' c),
    v.placed c,
    v.placed i,
    v.placed j,
    heap_at_injective v c i,
    heap_at_injective v c j,
    heap_at_injective v i j,
    v.fits,
    v.small,
  );
}

pub swap-Holds :
    {side : Side} {b b' : Book} {i j : ℕ}
    → i < size_of side b
    → j < size_of side b
    → Swapped side b i j b'
    → (l : ℕ) → Holds side b' l ↔ Holds side b l
swap-Holds {side} {b} {b'} {i} {j} hi hj s l = (back, forth)
  where
    other : ℕ → ℕ
    other c = if j == c then i else if i == c then j else c

    back : Holds side b' l → Holds side b l
    back (c, h, e) = (other c, ground (arith, s.size), ground (arith, s.entry c))

    forth : Holds side b l → Holds side b' l
    forth (c, h, e) = (other c, ground (arith, s.size), ground (arith, s.entry (other c)))
