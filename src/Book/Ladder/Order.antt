-- ===== src/Book/Ladder/Order.antt =====
-- The heap order of a side's ladder, and how the sifts restore it. The prices of the levels are given
-- by `price`, since no sift changes them.
use market_order_book_engine.Base.{
  ℕ, ◌+◌, ◌-◌, ◌/◌, ◌≤◌, ◌<◌, ℤ, pos_part, neg_part, ◌≡◌, ◌≢◌, ◌↔◌, refl, ap, ◌∙◌, ltb, arith,
  length,
}
use market_order_book_engine.Types.{Side, buy, sell}
use market_order_book_engine.Book.State.{Book, Level, level_at}
use market_order_book_engine.Book.Ladder.{size_of, heap_at, ladder_before, swap_entries}
use market_order_book_engine.Book.Ladder.Frame.{swap_entries-Frame}
use market_order_book_engine.Book.Ladder.Swap.{
  IsPlaced, Apart, Apart-refl, Apart-trans, Holds, Swapped, swap-Holds,
}

-- a price as a difference `gain - cost` that is larger nearer to the top of the book
abbrev pub gain : Side → ℤ → ℕ
gain buy p = pos_part p
gain sell p = neg_part p

abbrev pub cost : Side → ℤ → ℕ
cost buy p = neg_part p
cost sell p = pos_part p

-- The first price is not nearer to the top than the second.
abbrev pub Behind : Side → ℤ → ℤ → Type 0
Behind side p q = gain side p + cost side q ≤ gain side q + cost side p

pub ladder_before_lem :
    (side : Side) (b : Book) (x y : ℕ)
    → let p = (level_at b x).price in
      let q = (level_at b y).price in
      ladder_before side b x y ≡ ltb (gain side q + cost side p) (gain side p + cost side q)
unfolding ladder_before
ladder_before_lem buy b x y = ground arith
ladder_before_lem sell b x y = ground arith

abbrev pub parent : ℕ → ℕ
parent c = (c - 1) / 2

module _ (side : Side) (price : ℕ → ℤ) where
  abbrev pub at : Book → ℕ → ℤ
  at b c = price (heap_at side b c)

  -- The ladder of the side: in order as a place, its prices known, no entry ahead of its parent.
  pub record IsLadder (b : Book) : Type 0 where
    pub place : IsPlaced side b
    pub prices : (l : ℕ) → (level_at b l).price ≡ price l
    pub ordered : (c : ℕ) → 0 < c → c < size_of side b → Behind side (at b c) (at b (parent c))

  -- What is not in the ladder is as it was: the other heap, the places of the other levels.
  pub record Keeps (b b' : Book) : Type 0 where
    pub apart : Apart side b b'
    pub others : (l : ℕ) → ¬ (Holds side b l) → (level_at b' l).heap_pos ≡ (level_at b l).heap_pos
    pub count : length b'.levels ≡ length b.levels

  pub Keeps-refl : {b : Book} → Keeps b b
  Keeps-refl {b} = record { apart = Apart-refl side b; others = λ l n. refl; count = refl }

  -- `b'` is a ladder of the levels of `b`.
  pub record Sifted (b b' : Book) : Type 0 where
    pub ladder : IsLadder b'
    pub size : size_of side b' ≡ size_of side b
    pub holds : (l : ℕ) → Holds side b' l ↔ Holds side b l
    pub kept : Keeps b b'

  -- a ladder but for the edge above `i`
  pub record UpInv (b : Book) (i : ℕ) : Type 0 where
    pub place : IsPlaced side b
    pub prices : (l : ℕ) → (level_at b l).price ≡ price l
    pub within : i < size_of side b
    pub edges :
        (c : ℕ) → 0 < c → c < size_of side b → c ≢ i → Behind side (at b c) (at b (parent c))
    pub bridged :
        (c : ℕ)
        → 0 < c
        → c < size_of side b
        → parent c ≡ i
        → 0 < i
        → Behind side (at b c) (at b (parent i))

  -- a ladder but for the edges below `i`
  pub record DownInv (b : Book) (i : ℕ) : Type 0 where
    pub place : IsPlaced side b
    pub prices : (l : ℕ) → (level_at b l).price ≡ price l
    pub within : i < size_of side b
    pub edges :
        (c : ℕ) → 0 < c → c < size_of side b → parent c ≢ i → Behind side (at b c) (at b (parent c))
    pub bridged :
        (c : ℕ)
        → 0 < c
        → c < size_of side b
        → parent c ≡ i
        → 0 < i
        → Behind side (at b c) (at b (parent i))

  pub before_lem :
      (b : Book)
      → ((l : ℕ) → (level_at b l).price ≡ price l)
      → (x y : ℕ)
      → ladder_before side b x y
        ≡ ltb
            (gain side (price y) + cost side (price x))
            (gain side (price x) + cost side (price y))
  before_lem b prices x y = rw (← prices x, ← prices y) (ladder_before_lem side b x y)

  pub swap_prices :
      (b : Book) (i j : ℕ)
      → ((l : ℕ) → (level_at b l).price ≡ price l)
      → (l : ℕ) → (level_at (swap_entries side b i j) l).price ≡ price l
  swap_prices b i j prices l = ap Level.price ((swap_entries-Frame side b i j).level l) ∙ prices l

  pub Sifted-swap :
      {b b' b'' : Book} {i j : ℕ}
      → i < size_of side b
      → j < size_of side b
      → Swapped side b i j b'
      → Sifted b' b''
      → Sifted b b''
  Sifted-swap {b} {b'} {b''} {i} {j} hi hj s t = record {
    ladder = t.ladder;
    size = t.size ∙ s.size;
    holds = λ l.
        let (back, forth) = swap-Holds hi hj s l in
        let (back', forth') = t.holds l in ((λ h. back (back' h)), λ h. forth' (forth h));
    kept = record {
      apart = Apart-trans s.apart t.kept.apart;
      others = λ l n.
          let apart_i : heap_at side b i ≢ l = λ e. n (i, hi, e) in
          let apart_j : heap_at side b j ≢ l = λ e. n (j, hj, e) in
          t.kept.others l (λ h. n ((swap-Holds hi hj s l).0 h)) ∙ ground (arith, s.place l);
      count = t.kept.count ∙ s.count;
    };
  }

  pub Sifted-refl : {b : Book} → IsLadder b → Sifted b b
  Sifted-refl v = record {
    ladder = v;
    size = refl;
    holds = λ l. ((λ h. h), λ h. h);
    kept = Keeps-refl;
  }
