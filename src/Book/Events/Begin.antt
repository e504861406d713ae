-- ===== src/Book/Events/Begin.antt =====
-- The book that the constructor makes is whole.
use market_order_book_engine.Base.{
  ℕ, zero, suc, ◌^◌, ◌<◌, ◌≡◌, inl, inr, refl, ap, [], arith, length, length-replicate, some, none,
  ltb, ◌-◌, ◌+◌, ◌∙◌, get_or, true, false, subst, Option, ℤ, ◌==◌, ◌||◌, Bool-cases,
}
use market_order_book_engine.Types.{Side, buy, sell}
use market_order_book_engine.Book.Table.{npos}
use market_order_book_engine.Book.State.{
  Book, fresh_order, fresh_level, order_at, level_at, next_free_of, init_orders, init_levels,
  new_book,
}
use market_order_book_engine.Book.State.Sizes.{new_book-IsFresh}
use market_order_book_engine.Book.Ladder.{heap_of, size_of}
use market_order_book_engine.Book.Ladder.Swap.{Holds}
use market_order_book_engine.Book.Links.{find_level_index, key_of}
use market_order_book_engine.Book.Events.Placed.{IsIdle, IsReady}
use market_order_book_engine.Book.Whole.{IsBook}
use market_order_book_engine.Book.Whole.Acquire.{IsVacant}

length-init_orders : (n i max_orders : ℕ) → length (init_orders n i max_orders) ≡ n
unfolding init_orders
length-init_orders zero i m = refl
length-init_orders (suc n) i m = ap suc (length-init_orders n (suc i) m)

length-init_levels : (n i max_orders : ℕ) → length (init_levels n i max_orders) ≡ n
unfolding init_levels
length-init_levels zero i m = refl
length-init_levels (suc n) i m = ap suc (length-init_levels n (suc i) m)

add_zero : (i : ℕ) → i + 0 ≡ i
add_zero i = omega arith

next-init_orders :
    (n i max_orders j : ℕ)
    → j < n
    → (get_or (init_orders n i max_orders) j fresh_order).next_free
      ≡ next_free_of (i + j) max_orders
unfolding init_orders get_or
next-init_orders zero i m j h = absurd (omega (arith, h))
next-init_orders (suc n) i m zero h = rw (add_zero i) refl
next-init_orders (suc n) i m (suc j) h =
    next-init_orders n (suc i) m j (omega (arith, h)) ∙ ap (λ k. next_free_of k m) (omega arith)

next-init_levels :
    (n i max_orders j : ℕ)
    → j < n
    → (get_or (init_levels n i max_orders) j fresh_level).next_free
      ≡ next_free_of (i + j) max_orders
unfolding init_levels get_or
next-init_levels zero i m j h = absurd (omega (arith, h))
next-init_levels (suc n) i m zero h = rw (add_zero i) refl
next-init_levels (suc n) i m (suc j) h =
    next-init_levels n (suc i) m j (omega (arith, h)) ∙ ap (λ k. next_free_of k m) (omega arith)

-- The lengths of the pools and of the heaps, which are empty.
record IsEmpty (max_orders : ℕ) (b : Book) : Type 0 where
  orders : length b.orders ≡ max_orders
  levels : length b.levels ≡ max_orders
  heap : (s : Side) → length (heap_of s b) ≡ max_orders
  size : (s : Side) → size_of s b ≡ 0
  free_order : b.free_order ≡ 0
  free_level : b.free_level ≡ 0
  next_order : (i : ℕ) → i < max_orders → (order_at b i).next_free ≡ next_free_of i max_orders
  next_level : (i : ℕ) → i < max_orders → (level_at b i).next_free ≡ next_free_of i max_orders

-- what holds of the book, if there is one
abbrev Given : (Book → Type 0) → Option Book → Type 0
Given P none = Unit
Given P (some b) = P b

new_book-IsEmpty :
    (max_orders : ℕ) (b : Book)
    → new_book max_orders ≡ some b
    → IsEmpty max_orders b × (0 < max_orders) × (max_orders < 2 ^ 32)
unfolding new_book
new_book-IsEmpty m b = elim (Bool-cases ((m == 0) || ltb (2 ^ 32 - 1) m)) [
  | inl c ↦ rw c λ e. absurd (cc)
  | inr c ↦ rw c λ e. (
    subst (Given (IsEmpty m)) e (record {
      orders = length-init_orders m 0 m;
      levels = length-init_levels m 0 m;
      heap = elim [ buy ↦ length-replicate m 0 | sell ↦ length-replicate m 0 ];
      size = elim [ buy ↦ refl | sell ↦ refl ];
      free_order = refl;
      free_level = refl;
      next_order = λ i h. next-init_orders m 0 m i h ∙ ap (λ k. next_free_of k m) (omega arith);
      next_level = λ i h. next-init_levels m 0 m i h ∙ ap (λ k. next_free_of k m) (omega arith);
    }),
    ground arith,
    ground arith,
  )
]

-- no level is found
unknown :
    (max_orders : ℕ) (b : Book)
    → new_book max_orders ≡ some b
    → (side : Side) (price : ℤ) → find_level_index b side price ≡ npos
unfolding find_level_index
unknown m b e side price = ((new_book-IsFresh m).1 b e).1.finds (key_of side price)

-- Every slot is free: each of the two free lists starts at slot 0, which nothing uses, and goes on from each slot to the
-- next one up to the last; and no level is found.
pub record IsUnused (max_orders : ℕ) (b : Book) : Type 0 where
  pub orders : length b.orders ≡ max_orders
  pub levels : length b.levels ≡ max_orders
  pub first : (b.free_order ≡ 0) × (b.free_level ≡ 0)
  pub idle : IsIdle b (λ k. []) b.free_order
  pub vacant : IsVacant b b.free_level
  pub next :
      (i : ℕ)
      → suc i < max_orders
      → ((order_at b i).next_free ≡ suc i) × ((level_at b i).next_free ≡ suc i)
  pub last :
      (i : ℕ)
      → suc i ≡ max_orders
      → ((order_at b i).next_free ≡ npos) × ((level_at b i).next_free ≡ npos)
  pub unknown : (side : Side) (price : ℤ) → find_level_index b side price ≡ npos

IsEmpty-IsUnused :
    (max_orders : ℕ) (b : Book)
    → IsEmpty max_orders b
    → 0 < max_orders
    → ((side : Side) (price : ℤ) → find_level_index b side price ≡ npos)
    → IsUnused max_orders b
IsEmpty-IsUnused m b v some_room found = record {
  orders = v.orders;
  levels = v.levels;
  first = (v.free_order, v.free_level);
  idle = record { inside = omega (arith, v.orders, v.free_order, some_room); out = λ s k h. tt };
  vacant = record {
    inside = omega (arith, v.levels, v.free_level, some_room);
    fresh = λ s (i, h, q). omega (arith, h, v.size s);
    room = λ s. omega (arith, v.size s, v.heap s, some_room);
  };
  next = λ i h.
      let more : ltb (i + 1) m ≡ true = ground (arith, h) in
      let step : next_free_of i m ≡ suc i = rw more (omega arith) in
      (v.next_order i (omega (arith, h)) ∙ step, v.next_level i (omega (arith, h)) ∙ step);
  last = λ i h.
      let end : ltb (i + 1) m ≡ false = ground (arith, h) in
      let step : next_free_of i m ≡ npos = rw end refl in
      (v.next_order i (omega (arith, h)) ∙ step, v.next_level i (omega (arith, h)) ∙ step);
  unknown = found;
}

-- A book that the constructor makes is whole, without orders and levels on the ladders. All its slots are free and on the
-- free lists, which begin with slot 0 and end with the last one; and its table of levels finds nothing.
pub new_book-IsBook :
    (max_orders : ℕ) (b : Book)
    → new_book max_orders ≡ some b
    → IsBook b (λ k. [])
      × IsReady b (λ k. [])
      × IsUnused max_orders b
      × ((s : Side) (l : ℕ) → ¬ (Holds s b l))
new_book-IsBook m b e =
    let (v, some_room, few) = new_book-IsEmpty m b e in
    let none_held : (s : Side) (l : ℕ) → ¬ (Holds s b l) =
      λ s l (i, h, q). omega (arith, h, v.size s) in
    let unused = IsEmpty-IsUnused m b v some_room (unknown m b e) in
    (
      record {
        room = omega (arith, v.levels, few);
        ladder = λ s. record {
          place = record {
            fits = omega (arith, v.size s);
            small = omega (arith, v.heap s, few);
            inside = λ i h. absurd (omega (arith, h, v.size s));
            placed = λ i h. absurd (omega (arith, h, v.size s));
          };
          prices = λ l. refl;
          ordered = λ c p h. absurd (omega (arith, h, v.size s));
        };
        sided = λ s l h. absurd (none_held s l h);
        queue = λ s l h. absurd (none_held s l h);
        lodged = λ s l h. absurd (none_held s l h);
      },
      record {
        small = omega (arith, v.orders, few);
        slot = inr unused.idle;
        vacant = inr unused.vacant;
        known = λ side price. inl (unknown m b e side price);
      },
      unused,
      none_held,
    )
