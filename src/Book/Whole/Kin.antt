-- ===== src/Book/Whole/Kin.antt =====
-- Books with the same ladders.
use market_order_book_engine.Base.{
  ℕ, ◌<◌, ◌≡◌, ◌↔◌, refl, sym, ap, ◌∙◌, subst, arith, length, get_or,
}
use native.Mathlib.Decide.{ℕ_discrete}
use market_order_book_engine.Types.{Side, buy, sell}
use market_order_book_engine.Book.State.{Book, Order, Level, level_at}
use market_order_book_engine.Book.State.Touched.{Touched, unpooled}
use market_order_book_engine.Book.Ladder.{heap_of, size_of, heap_at}
use market_order_book_engine.Book.Ladder.Swap.{Holds}
use market_order_book_engine.Book.Ladder.Order.{Behind, parent}
use market_order_book_engine.Book.Ladder.Write.{HasLadder, price_of}

-- The heap of the side is the same, and so are the prices and the places of its levels.
pub record SameLadder (side : Side) (b b' : Book) : Type 0 where
  pub heap : heap_of side b' ≡ heap_of side b
  pub size : size_of side b' ≡ size_of side b
  pub count : length b'.levels ≡ length b.levels
  pub price : (l : ℕ) → Holds side b l → (level_at b' l).price ≡ (level_at b l).price
  pub place : (l : ℕ) → Holds side b l → (level_at b' l).heap_pos ≡ (level_at b l).heap_pos

module _ {side : Side} {b b' : Book} (s : SameLadder side b b') where
  entry : (i : ℕ) → heap_at side b' i ≡ heap_at side b i
  entry i = ap (λ xs. get_or xs i 0) s.heap

  held : (i : ℕ) → i < size_of side b' → Holds side b (heap_at side b i)
  held i h = (i, omega (arith, h, s.size), refl)

  price_at :
      (i : ℕ)
      → i < size_of side b'
      → price_of b' (heap_at side b' i) ≡ price_of b (heap_at side b i)
  price_at i h = ap (price_of b') (entry i) ∙ s.price (heap_at side b i) (held i h)

  pub HasLadder-same : HasLadder side b → HasLadder side b'
  HasLadder-same v = record {
    place = record {
      fits = omega (arith, v.place.fits, s.size, ap length s.heap);
      small = omega (arith, v.place.small, ap length s.heap);
      inside = λ i h. omega (arith, entry i, v.place.inside i (omega (arith, h, s.size)), s.count);
      placed = λ i h.
          ap (λ l. (level_at b' l).heap_pos) (entry i)
          ∙ s.place (heap_at side b i) (held i h)
          ∙ v.place.placed i (omega (arith, h, s.size));
    };
    prices = λ l. refl;
    ordered = λ c p h.
        subst (λ x. Behind side x (price_of b' (heap_at side b' (parent c)))) (sym (price_at c h))
          (subst (λ x. Behind side (price_of b (heap_at side b c)) x)
            (sym (price_at (parent c) (omega (arith, h))))
            (v.ordered c p (omega (arith, h, s.size))));
  }

  pub Holds-same : (l : ℕ) → Holds side b' l ↔ Holds side b l
  Holds-same l = (
    (λ (i, h, e). (i, omega (arith, h, s.size), sym (entry i) ∙ e)),
    (λ (i, h, e). (i, omega (arith, h, s.size), entry i ∙ e)),
  )

-- All of the levels' prices, sides and places are the same, and both heaps.
pub record Kin (b b' : Book) : Type 0 where
  pub heap : (side : Side) → heap_of side b' ≡ heap_of side b
  pub size : (side : Side) → size_of side b' ≡ size_of side b
  pub count : length b'.levels ≡ length b.levels
  pub price : (l : ℕ) → (level_at b' l).price ≡ (level_at b l).price
  pub place : (l : ℕ) → (level_at b' l).heap_pos ≡ (level_at b l).heap_pos
  pub sided : (l : ℕ) → (level_at b' l).side ≡ (level_at b l).side

pub Kin-same : {b b' : Book} → Kin b b' → (side : Side) → SameLadder side b b'
Kin-same k side = record {
  heap = k.heap side;
  size = k.size side;
  count = k.count;
  price = λ l h. k.price l;
  place = λ l h. k.place l;
}

unpooled_heap : (side : Side) (b : Book) → heap_of side (unpooled b) ≡ heap_of side b
unpooled_heap buy b = refl
unpooled_heap sell b = refl

unpooled_size : (side : Side) (b : Book) → size_of side (unpooled b) ≡ size_of side b
unpooled_size buy b = refl
unpooled_size sell b = refl

-- Writes of orders and of a level that keep its price, side and place.
pub Touched-Kin :
    {l : ℕ} {f : ℕ → Order → Order} {g : Level → Level} {b b' : Book}
    → Touched l f g b b'
    → (g (level_at b l)).price ≡ (level_at b l).price
    → (g (level_at b l)).heap_pos ≡ (level_at b l).heap_pos
    → (g (level_at b l)).side ≡ (level_at b l).side
    → Kin b b'
Touched-Kin {l} {g = g} {b = b} {b' = b'} t price place side = record {
  heap = λ s. sym (unpooled_heap s b') ∙ ap (heap_of s) t.rest ∙ unpooled_heap s b;
  size = λ s. sym (unpooled_size s b') ∙ ap (size_of s) t.rest ∙ unpooled_size s b;
  count = t.levels;
  price = λ k. at Level.price price k;
  place = λ k. at Level.heap_pos place k;
  sided = λ k. at Level.side side k;
}
  where
    at :
        {A : Type 0} (p : Level → A)
        → p (g (level_at b l)) ≡ p (level_at b l)
        → (k : ℕ) → p (level_at b' k) ≡ p (level_at b k)
    at p e k = elim (ℕ_discrete k l) [
      | yes same ↦ subst (λ i. p (level_at b' i) ≡ p (level_at b i)) (sym same) (ap p t.level ∙ e)
      | no ne ↦ ap p (t.others k ne)
    ]

pub Kin-trans : {a b c : Book} → Kin a b → Kin b c → Kin a c
Kin-trans s t = record {
  heap = λ side. t.heap side ∙ s.heap side;
  size = λ side. t.size side ∙ s.size side;
  count = t.count ∙ s.count;
  price = λ l. t.price l ∙ s.price l;
  place = λ l. t.place l ∙ s.place l;
  sided = λ l. t.sided l ∙ s.sided l;
}
