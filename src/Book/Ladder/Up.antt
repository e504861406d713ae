-- ===== src/Book/Ladder/Up.antt =====
-- Sifting up: an entry that may be ahead of its parent rises.
use market_order_book_engine.Base.{ℕ, zero, suc, ◌+◌, ◌<◌, ℤ, ◌≡◌, ap, ltb, arith, if_both}
use market_order_book_engine.Types.{Side}
use market_order_book_engine.Book.State.{Book, level_at}
use market_order_book_engine.Book.Ladder.{
  size_of, heap_at, ladder_before, swap_entries, sift_up_loop, ladder_sift_up,
}
use market_order_book_engine.Book.Ladder.Swap.{Swapped, swap_entries-Swapped, swap_IsPlaced}
use market_order_book_engine.Book.Ladder.Order.{
  Behind, parent, at, IsLadder, Sifted, UpInv, before_lem, swap_prices, Sifted-swap, Sifted-refl,
}

module _ (side : Side) (price : ℕ → ℤ) where
  swap-UpInv :
      (b b' : Book) (i : ℕ)
      → UpInv side price b i
      → 0 < i
      → Behind side (at side price b (parent i)) (at side price b i)
      → Swapped side b i (parent i) b'
      → ((l : ℕ) → (level_at b' l).price ≡ price l)
      → UpInv side price b' (parent i)
  swap-UpInv b b' i v h ahead s prices = record {
    place = swap_IsPlaced v.place v.within (omega (arith, v.within)) (omega arith) s;
    prices = prices;
    within = omega (arith, v.within, s.size);
    edges = λ c p q r. ground (
      arith,
      s.size,
      ap price (s.entry c),
      ap price (s.entry (parent c)),
      v.edges c,
      v.bridged c,
      v.edges i,
    );
    bridged = λ c p q r t. ground (
      arith,
      s.size,
      ap price (s.entry c),
      ap price (s.entry (parent (parent i))),
      v.edges c,
      v.bridged c,
      v.edges (parent i),
    );
  }

  sift_up_loop-Sifted :
      (rounds : ℕ) (b : Book) (i : ℕ)
      → i < rounds
      → UpInv side price b i
      → Sifted side price b (sift_up_loop side rounds b i)
  unfolding sift_up_loop
  sift_up_loop-Sifted zero b i f v = absurd (omega arith)
  sift_up_loop-Sifted (suc rounds) b i f v =
      let x = heap_at side b i in
      let y = heap_at side b (parent i) in
      let before = before_lem side price b v.prices x y in
      let stays =
        λ (settled : (0 < i) → Behind side (at side price b i) (at side price b (parent i))).
          let l : IsLadder side price b = record {
            place = v.place;
            prices = v.prices;
            ordered = λ c p q. ground (arith, v.edges c, settled);
          } in
          Sifted-refl side price l in
      if_both (Sifted side price b) (ltb 0 i)
        (λ positive.
          if_both (Sifted side price b) (ladder_before side b x y)
            (λ ahead.
              let above : parent i < size_of side b = omega (arith, v.within) in
              let s =
                swap_entries-Swapped side b i (parent i) v.place v.within above (ground arith) in
              let b' = swap_entries side b i (parent i) in
              Sifted-swap side price v.within above s (
                sift_up_loop-Sifted rounds b' (parent i) (ground arith) (
                  swap-UpInv b b' i v (ground arith) (ground (arith, before)) s
                    (swap_prices side price b i (parent i) v.prices))))
            (λ settled. stays (λ h. ground (arith, before))))
        (λ root. stays (λ h. ground arith))

  pub ladder_sift_up-Sifted :
      (b : Book) (i : ℕ) → UpInv side price b i → Sifted side price b (ladder_sift_up side b i)
  unfolding ladder_sift_up
  ladder_sift_up-Sifted b i v = sift_up_loop-Sifted (i + 1) b i (omega arith) v
