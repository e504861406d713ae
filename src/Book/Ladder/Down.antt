-- ===== src/Book/Ladder/Down.antt =====
-- Sifting down: an entry that may be behind its children sinks.
use market_order_book_engine.Base.{
  ℕ, zero, suc, ◌+◌, ◌-◌, ◌*◌, ◌≤◌, ◌<◌, ℤ, ◌≡◌, ◌≢◌, ◌↔◌, ◌⊎◌, refl, sym, ap, ◌&&◌, ltb, ◌==◌,
  arith, if◌then◌else◌, if_both, Bool-cases, inl, inr,
}
use native.Mathlib.Decide.{ℕ_discrete}
use market_order_book_engine.Types.{Side}
use market_order_book_engine.Book.State.{Book, level_at}
use market_order_book_engine.Book.Ladder.{
  size_of, heap_at, ladder_before, swap_entries, best_child, sift_down_loop, ladder_sift_down,
}
use market_order_book_engine.Book.Ladder.Swap.{
  IsPlaced, Holds, Swapped, swap_entries-Swapped, swap_IsPlaced,
}
use market_order_book_engine.Book.Ladder.Order.{
  Behind, parent, at, IsLadder, Keeps, Keeps-refl, Sifted, UpInv, DownInv, before_lem, swap_prices,
  Sifted-swap, Sifted-refl,
}

module _ (side : Side) (price : ℕ → ℤ) where
  -- `m` is the best of `i` and its children.
  record IsBest (b : Book) (i m : ℕ) : Type 0 where
    inside : m < size_of side b
    kind : (m ≡ i) ⊎ ((m ≡ 2 * i + 1) ⊎ (m ≡ 2 * i + 2))
    best :
        (c : ℕ)
        → 0 < c
        → c < size_of side b
        → parent c ≡ i
        → Behind side (at side price b c) (at side price b m)
    over : Behind side (at side price b i) (at side price b m)

  best_of :
      (b : Book) (i m : ℕ)
      → (2 * i + 1 < size_of side b → Behind side (at side price b (2 * i + 1)) (at side price b m))
      → (2 * i + 2 < size_of side b → Behind side (at side price b (2 * i + 2)) (at side price b m))
      → (c : ℕ) → 0 < c
      → c < size_of side b
      → parent c ≡ i
      → Behind side (at side price b c) (at side price b m)
  best_of b i m left right c p q r = elim (ℕ_discrete c (2 * i + 1)) [
    | yes e ↦ let h = left (omega (arith, q, e)) in rw e h
    | no ne ↦ let e : c ≡ 2 * i + 2 = omega arith in let h = right (omega (arith, q, e)) in rw e h
  ]

  -- the test of the right child, `k` being the best of the others
  right_IsBest :
      (b : Book) (i k : ℕ)
      → ((l : ℕ) → (level_at b l).price ≡ price l)
      → k < size_of side b
      → (k ≡ i) ⊎ (k ≡ 2 * i + 1)
      → Behind side (at side price b i) (at side price b k)
      → (2 * i + 1 < size_of side b → Behind side (at side price b (2 * i + 1)) (at side price b k))
      → IsBest b i (
          if ltb (2 * i + 2) (size_of side b)
            && ladder_before side b (heap_at side b (2 * i + 2)) (heap_at side b k)
          then 2 * i + 2
          else k)
  right_IsBest b i k prices inside kind over left =
      let right = 2 * i + 2 in
      let before = before_lem side price b prices (heap_at side b right) (heap_at side b k) in
      if_both (IsBest b i)
        (ltb right (size_of side b)
          && ladder_before side b (heap_at side b right) (heap_at side b k))
        (λ e. record {
          inside = ground arith;
          kind = inr (inr refl);
          best = best_of b i right (λ h. ground (arith, before, left h)) (λ h. omega arith);
          over = ground (arith, before);
        })
        (λ e. record {
          inside = inside;
          kind = ground arith;
          best = best_of b i k left (λ h. ground (arith, before));
          over = over;
        })

  best_child-IsBest :
      (b : Book) (i : ℕ)
      → ((l : ℕ) → (level_at b l).price ≡ price l)
      → i < size_of side b
      → IsBest b i (best_child side b i)
  unfolding best_child
  best_child-IsBest b i prices h =
      let left = 2 * i + 1 in
      let before = before_lem side price b prices (heap_at side b left) (heap_at side b i) in
      elim (Bool-cases (
        ltb left (size_of side b)
        && ladder_before side b (heap_at side b left) (heap_at side b i))) [
          | inl e ↦ rw e (
              right_IsBest b i left prices (ground arith) (inr refl) (ground (arith, before))
                (λ p. omega arith))
          | inr e ↦
              rw e
                (right_IsBest b i i prices h (inl refl) (omega arith) (λ p. ground (arith, before)))
        ]

  -- a ladder but for the edges around `i`
  pub record Loose (b : Book) (i : ℕ) : Type 0 where
    pub place : IsPlaced side b
    pub prices : (l : ℕ) → (level_at b l).price ≡ price l
    pub within : i < size_of side b
    pub edges :
        (c : ℕ)
        → 0 < c
        → c < size_of side b
        → c ≢ i
        → parent c ≢ i
        → Behind side (at side price b c) (at side price b (parent c))
    pub bridged :
        (c : ℕ)
        → 0 < c
        → c < size_of side b
        → parent c ≡ i
        → 0 < i
        → Behind side (at side price b c) (at side price b (parent i))

  DownInv-Loose : {b : Book} {i : ℕ} → DownInv side price b i → Loose b i
  DownInv-Loose v = record {
    place = v.place;
    prices = v.prices;
    within = v.within;
    edges = λ c p q r t. v.edges c p q t;
    bridged = v.bridged;
  }

  swap-DownInv :
      (b b' : Book) (i m : ℕ)
      → Loose b i
      → IsBest b i m
      → m ≢ i
      → Swapped side b i m b'
      → ((l : ℕ) → (level_at b' l).price ≡ price l)
      → DownInv side price b' m
  swap-DownInv b b' i m v best ne s prices = record {
    place = swap_IsPlaced v.place v.within best.inside (λ e. ne (sym e)) s;
    prices = prices;
    within = omega (arith, best.inside, s.size);
    edges = λ c p q r. ground (
      arith,
      s.size,
      ap price (s.entry c),
      ap price (s.entry (parent c)),
      v.edges c,
      v.bridged m,
      best.best c,
      best.kind,
      best.over,
    );
    bridged = λ c p q r t.
        ground (
          arith,
          s.size,
          ap price (s.entry c),
          ap price (s.entry (parent m)),
          v.edges c,
          best.kind,
        );
  }

  sift_down_loop-Sifted :
      (rounds : ℕ) (b : Book) (i : ℕ)
      → size_of side b - i < rounds
      → DownInv side price b i
      → Sifted side price b (sift_down_loop side rounds b i)
  unfolding sift_down_loop
  sift_down_loop-Sifted zero b i f v = absurd (omega arith)
  sift_down_loop-Sifted (suc rounds) b i f v =
      let m = best_child side b i in
      let best = best_child-IsBest b i v.prices v.within in
      let l = λ (settled : m ≡ i).
        let done : IsLadder side price b = record {
          place = v.place;
          prices = v.prices;
          ordered = λ c p q. ground (arith, v.edges c, best.best c, ap (at side price b) settled);
        } in
        Sifted-refl side price done in
      if_both (Sifted side price b) (m == i) (λ e. l (ground arith))
        λ e.
          let ne : m ≢ i = ground arith in
          let s = swap_entries-Swapped side b i m v.place v.within best.inside (λ h. ne (sym h)) in
          let b' = swap_entries side b i m in
          Sifted-swap side price v.within best.inside s (
            sift_down_loop-Sifted rounds b' m (ground (arith, best.kind, s.size, best.inside)) (
              swap-DownInv b b' i m (DownInv-Loose v) best ne s
                (swap_prices side price b i m v.prices)))

  -- `b'` has the levels of `b`, and is a ladder but for the edge above `i`.
  pub record Settled (b : Book) (i : ℕ) (b' : Book) : Type 0 where
    pub rising : UpInv side price b' i
    pub size : size_of side b' ≡ size_of side b
    pub holds : (l : ℕ) → Holds side b' l ↔ Holds side b l
    pub kept : Keeps side price b b'

  IsLadder-UpInv :
      {b : Book} (i : ℕ) → IsLadder side price b → i < size_of side b → UpInv side price b i
  IsLadder-UpInv i v h = record {
    place = v.place;
    prices = v.prices;
    within = h;
    edges = λ c p q r. v.ordered c p q;
    bridged = λ c p q r t. ground (arith, v.ordered c, v.ordered i);
  }

  sift_down_loop-Settled :
      (rounds : ℕ) (b : Book) (i : ℕ)
      → size_of side b - i ≤ rounds
      → Loose b i
      → Settled b i (sift_down_loop side (suc rounds) b i)
  unfolding sift_down_loop
  sift_down_loop-Settled rounds b i f v =
      let m = best_child side b i in
      let best = best_child-IsBest b i v.prices v.within in
      let stay = λ (settled : m ≡ i).
        let rising : UpInv side price b i = record {
          place = v.place;
          prices = v.prices;
          within = v.within;
          edges = λ c p q r. ground (arith, v.edges c, best.best c, ap (at side price b) settled);
          bridged = v.bridged;
        } in
        let done : Settled b i b = record {
          rising = rising;
          size = refl;
          holds = λ l. ((λ h. h), λ h. h);
          kept = Keeps-refl side price;
        } in
        done in
      if_both (Settled b i) (m == i) (λ e. stay (ground arith))
        λ e.
          let ne : m ≢ i = ground arith in
          let s = swap_entries-Swapped side b i m v.place v.within best.inside (λ h. ne (sym h)) in
          let b' = swap_entries side b i m in
          let rest =
            sift_down_loop-Sifted rounds b' m (ground (arith, best.kind, s.size, best.inside))
              (swap-DownInv b b' i m v best ne s (swap_prices side price b i m v.prices)) in
          let all = Sifted-swap side price v.within best.inside s rest in
          record {
            rising = IsLadder-UpInv i all.ladder (omega (arith, v.within, all.size));
            size = all.size;
            holds = all.holds;
            kept = all.kept;
          }

  pub ladder_sift_down-Settled :
      (b : Book) (i : ℕ) → Loose b i → Settled b i (ladder_sift_down side b i)
  unfolding ladder_sift_down
  ladder_sift_down-Settled b i v =
      let e : size_of side b + 1 ≡ suc (size_of side b) = omega arith in
      rw e (sift_down_loop-Settled (size_of side b) b i (omega arith) v)
