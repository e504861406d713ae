-- ===== src/Book/Whole/Changes.antt =====
-- Books whose ladders are the same, and what they keep of a whole book.
use market_order_book_engine.Base.{ℕ, ◌≡◌, ◌↔◌, ap, ◌∙◌, List, [], ◌∷◌, All, arith, length, get_or}
use market_order_book_engine.Types.{Side, buy, sell}
use market_order_book_engine.Book.State.{
  Book, Order, Level, order_at, level_at, fresh_order, fresh_level,
}
use market_order_book_engine.Book.Ladder.{heap_of, size_of}
use market_order_book_engine.Book.Ladder.Swap.{Holds}
use market_order_book_engine.Book.Whole.{IsBook}
use market_order_book_engine.Book.Whole.Kin.{Kin, Kin-same, HasLadder-same, Holds-same}
use market_order_book_engine.Book.Whole.Queues.{SameEnds, SameOrder, IsManned, IsManned-same}

pub Kin-Holds : {b b' : Book} → Kin b b' → (side : Side) (l : ℕ) → Holds side b' l ↔ Holds side b l
Kin-Holds k side l = Holds-same (Kin-same k side) l

-- The ladders are the same, and the queues of their levels are `queues'` now.
pub Kin-IsBook :
    {b b' : Book} (queues queues' : ℕ → List ℕ)
    → Kin b b'
    → IsBook b queues
    → ((side : Side) (l : ℕ) → Holds side b l → IsManned b' l (queues' l))
    → IsBook b' queues'
Kin-IsBook queues queues' k v each = record {
  room = omega (arith, v.room, k.count);
  ladder = λ side. HasLadder-same (Kin-same k side) (v.ladder side);
  sided = λ side l h. k.sided l ∙ v.sided side l ((Kin-Holds k side l).0 h);
  queue = λ side l h. (each side l ((Kin-Holds k side l).0 h)).0;
  lodged = λ side l h. (each side l ((Kin-Holds k side l).0 h)).1;
}

pub manned :
    {b : Book} {queues : ℕ → List ℕ}
    → IsBook b queues
    → (side : Side) (l : ℕ) → Holds side b l
    → IsManned b l (queues l)
manned v side l h = (v.queue side l h, v.lodged side l h)

-- The pools and the heaps are the same.
pub record SamePools (b b' : Book) : Type 0 where
  pub orders : b'.orders ≡ b.orders
  pub levels : b'.levels ≡ b.levels
  pub heap : (side : Side) → heap_of side b' ≡ heap_of side b
  pub size : (side : Side) → size_of side b' ≡ size_of side b

pub pools_same :
    (b b' : Book)
    → b'.orders ≡ b.orders
    → b'.levels ≡ b.levels
    → b'.bid_heap ≡ b.bid_heap
    → b'.ask_heap ≡ b.ask_heap
    → b'.bid_heap_size ≡ b.bid_heap_size
    → b'.ask_heap_size ≡ b.ask_heap_size
    → SamePools b b'
pools_same b b' o l h g m n = record { orders = o; levels = l; heap = heaps; size = sizes }
  where
    heaps : (side : Side) → heap_of side b' ≡ heap_of side b
    heaps buy = h
    heaps sell = g

    sizes : (side : Side) → size_of side b' ≡ size_of side b
    sizes buy = m
    sizes sell = n

pub SamePools-Kin : {b b' : Book} → SamePools b b' → Kin b b'
SamePools-Kin s = record {
  heap = s.heap;
  size = s.size;
  count = ap length s.levels;
  price = λ l. ap (λ ls. (get_or ls l fresh_level).price) s.levels;
  place = λ l. ap (λ ls. (get_or ls l fresh_level).heap_pos) s.levels;
  sided = λ l. ap (λ ls. (get_or ls l fresh_level).side) s.levels;
}

-- the ends of a level that is the same
pub ends_of : (b b' : Book) (l : ℕ) → level_at b' l ≡ level_at b l → SameEnds b b' l
ends_of b b' l e = record {
  head = ap Level.head e;
  tail = ap Level.tail e;
  count = ap Level.order_count e;
  total = ap Level.total_quantity e;
}

pub order_of : (b b' : Book) (x : ℕ) → order_at b' x ≡ order_at b x → SameOrder b b' x
order_of b b' x e = record {
  links = record { prev = ap Order.prev e; next = ap Order.next e; quantity = ap Order.quantity e };
  level = ap Order.level e;
  active = ap Order.active e;
}

pub All-all : (P : ℕ → Type 0) → ((x : ℕ) → P x) → (xs : List ℕ) → All P xs
All-all P f [] = tt
All-all P f (x ∷ xs) = (f x, All-all P f xs)

pub SamePools-IsBook :
    {b b' : Book} (queues : ℕ → List ℕ) → SamePools b b' → IsBook b queues → IsBook b' queues
SamePools-IsBook {b} {b'} queues s v = Kin-IsBook queues queues (SamePools-Kin s) v λ side l h.
    IsManned-same b b' l (queues l) (ap length s.orders) (ap length s.levels)
      (ends_of b b' l (ap (λ ls. get_or ls l fresh_level) s.levels))
      (All-all (SameOrder b b') (λ x. order_of b b' x (ap (λ os. get_or os x fresh_order) s.orders))
        (queues l))
      (manned v side l h)
