-- ===== src/Book/Ladder/Write.antt =====
-- The ladders of a book by its own prices, and a write of one entry.
use market_order_book_engine.Base.{
  ℕ, ◌%◌, ◌^◌, ◌<◌, ℤ, ◌≡◌, ◌≢◌, refl, ap, ◌∙◌, ◌==◌, arith, length, get_or, if◌then◌else◌,
}
use market_order_book_engine.Types.{Side, buy, sell}
use market_order_book_engine.Book.State.{Book, Level, fresh_level, level_at}
use market_order_book_engine.Book.Ladder.{
  heap_of, size_of, set_size, set_heap, set_heap_pos, heap_at,
}
use market_order_book_engine.Book.Ladder.Frame.{set_heap_pos-Frame, set_heap-Frame, set_size-Frame}
use market_order_book_engine.Book.Ladder.Swap.{
  Apart, Apart-trans, set_size-Apart, Holds, set_heap-Entered, set_heap_pos-Moved,
}
use market_order_book_engine.Book.Ladder.Order.{parent, IsLadder}

abbrev pub price_of : Book → ℕ → ℤ
price_of b l = (level_at b l).price

-- The ladder of the side is in order, by the prices of the book's levels.
abbrev pub HasLadder : Side → Book → Type 0
HasLadder side b = IsLadder side (price_of b) b

-- a ladder by other names for the same prices
pub rebase : {side : Side} {price : ℕ → ℤ} {b : Book} → IsLadder side price b → HasLadder side b
rebase {side} {price} {b} v = record {
  place = v.place;
  prices = λ l. refl;
  ordered = λ c p q.
      rw (v.prices (heap_at side b c), v.prices (heap_at side b (parent c))) (v.ordered c p q);
}

pub size_of-set_size : (side : Side) (b : Book) (n : ℕ) → size_of side (set_size side b n) ≡ n
size_of-set_size buy b n = refl
size_of-set_size sell b n = refl

pub heap_of-set_size :
    (side : Side) (b : Book) (n : ℕ) → heap_of side (set_size side b n) ≡ heap_of side b
heap_of-set_size buy b n = refl
heap_of-set_size sell b n = refl

pub levels-set_size : (side : Side) (b : Book) (n : ℕ) → (set_size side b n).levels ≡ b.levels
levels-set_size buy b n = refl
levels-set_size sell b n = refl

-- What is not at the side's ladder stays, for a call that concerns the level `index`.
pub record Leaves (side : Side) (index : ℕ) (b b' : Book) : Type 0 where
  pub apart : Apart side b b'
  pub others :
      (l : ℕ) → ¬ (Holds side b l) → l ≢ index → (level_at b' l).heap_pos ≡ (level_at b l).heap_pos

-- A heap of `n` entries, of which the one at `i` is written to be the level `v`.
abbrev pub write_entry : Side → Book → ℕ → ℕ → ℕ → Book
write_entry side b n i v = set_heap_pos (set_heap side (set_size side b n) i v) v i

pub record Written (side : Side) (b : Book) (n i v : ℕ) (b' : Book) : Type 0 where
  pub size : size_of side b' ≡ n
  pub room : length (heap_of side b') ≡ length (heap_of side b)
  pub count : length b'.levels ≡ length b.levels
  pub apart : Apart side b b'
  pub prices : (l : ℕ) → price_of b' l ≡ price_of b l
  pub entry : (c : ℕ) → heap_at side b' c ≡ (if i == c then v else heap_at side b c)
  pub place :
      (l : ℕ) → (level_at b' l).heap_pos ≡ (if v == l then i % 2 ^ 32 else (level_at b l).heap_pos)

pub write_entry-Written :
    (side : Side) (b : Book) (n i v : ℕ)
    → i < length (heap_of side b)
    → v < length b.levels
    → Written side b n i v (write_entry side b n i v)
write_entry-Written side b n i v inside level =
    let b1 = set_size side b n in
    let heap1 = heap_of-set_size side b n in
    let levels1 = levels-set_size side b n in
    let e = set_heap-Entered side b1 i v (omega (arith, ap length heap1, inside)) in
    let b2 = set_heap side b1 i v in
    let m =
      set_heap_pos-Moved side b2 v i
        (omega (arith, level, ap length e.levels, ap length levels1)) in
    record {
      size = m.size ∙ e.size ∙ size_of-set_size side b n;
      room = ap length m.heap ∙ e.room ∙ ap length heap1;
      count = m.count ∙ ap length e.levels ∙ ap length levels1;
      apart = Apart-trans (set_size-Apart side b n) (Apart-trans e.apart m.apart);
      prices = λ l. ap Level.price (
          (set_heap_pos-Frame b2 v i).level l
          ∙ (set_heap-Frame side b1 i v).level l
          ∙ (set_size-Frame side b n).level l);
      entry = λ c.
          ap (λ xs. get_or xs c 0) m.heap
          ∙ e.entry c
          ∙ ap (λ k. if i == c then v else k) (ap (λ xs. get_or xs c 0) heap1);
      place = λ l.
          m.place l
          ∙ ap (λ k. if v == l then i % 2 ^ 32 else k)
              (ap (λ ls. (get_or ls l fresh_level).heap_pos) (e.levels ∙ levels1));
    }
