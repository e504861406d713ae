-- ===== src/Book/Matching/Level.antt =====
-- The inner loop takes the makers of a level in their order.
use market_order_book_engine.Base.{
  ℕ, zero, suc, ◌^◌, ◌≤◌, ◌<◌, ◌≡◌, ◌≢◌, ◌⊎◌, inl, inr, refl, sym, ap, ◌∙◌, subst, List, [], ◌∷◌,
  arith, ℤ, ◌==◌, ltb, not, ◌&&◌, add64, length, true, false,
}
use native.Mathlib.Decide.{dec_le}
use market_order_book_engine.Types.{Side, OrderRequest}
use market_order_book_engine.Book.Table.{npos}
use market_order_book_engine.Book.State.{order_at}
use market_order_book_engine.Book.Ladder.Swap.{Holds}
use market_order_book_engine.Book.Links.Chain.{first}
use market_order_book_engine.Book.Links.Fifo.{IsQueue}
use market_order_book_engine.Book.Links.Cut.{All-zip, Linked-within}
use market_order_book_engine.Book.Matching.{Run, trade_step, level_loop}
use market_order_book_engine.Book.Matching.Numbers.{trade_step-fill_sequence}
use market_order_book_engine.Book.Matching.Sweep.{
  maker_of, makers_of, sweep, makers_of-same, sweep_none, sweep_filled, sweep_part,
}
use market_order_book_engine.Book.Matching.Trade.{
  remove_first, reduce_first, after_filled, after_part, trade_step-filled, trade_step-part,
}
use market_order_book_engine.Book.Whole.{IsBook}
use market_order_book_engine.Book.Whole.Leave.{replaced, replaced_same}
use market_order_book_engine.Book.Matching.Worked.{
  Worked, Worked-filled, Worked-last, Worked-none, Worked-part,
}

module _ (r : OrderRequest) (price : ℤ) (side : Side) (l : ℕ) where
  level_loop-stop :
      (rounds : ℕ) (s : Run) (index : ℕ)
      → (index ≡ npos) ⊎ (s.remaining ≡ 0)
      → level_loop r price l rounds s index ≡ s
  unfolding level_loop
  level_loop-stop zero s index h = refl
  level_loop-stop (suc rounds) s index h =
      let stop : (not (index == npos) && ltb 0 s.remaining) ≡ false = ground (arith, h) in
      rw stop refl

  level_loop-step :
      (rounds : ℕ) (s s1 : Run) (index next : ℕ)
      → index ≢ npos
      → 0 < s.remaining
      → trade_step r price l s index ≡ (s1, next)
      → level_loop r price l (suc rounds) s index ≡ level_loop r price l rounds s1 next
  unfolding level_loop
  level_loop-step rounds s s1 index next h k e =
      let go : (not (index == npos) && ltb 0 s.remaining) ≡ true = ground (arith, h, k) in
      rw (go, e) refl

  abbrev pub Outcome : ℕ → Run → (ℕ → List ℕ) → ℕ → List ℕ → Type 0
  Outcome rounds s queues x xs =
      Worked side l queues s (level_loop r price l rounds s x)
        (sweep r price s.book.fill_sequence s.remaining (makers_of s.book (x ∷ xs)))

  -- a round of the loop on a queue that is not empty
  module _ (rounds : ℕ) (s : Run) (queues : ℕ → List ℕ) (x : ℕ) (v : IsBook s.book queues)
      (held : Holds side s.book l) (small : s.remaining < 2 ^ 64) (more : 0 < s.remaining) where
    queue : (xs : List ℕ) → queues l ≡ x ∷ xs → IsQueue s.book l (x ∷ xs)
    queue xs here = subst (IsQueue s.book l) here (v.queue side l held)

    there : (xs : List ℕ) → queues l ≡ x ∷ xs → x ≢ npos
    there xs here = let q = queue xs here in omega (arith, q.linked.0, q.small)

    round-part :
        (xs : List ℕ)
        → queues l ≡ x ∷ xs
        → s.remaining < (order_at s.book x).quantity
        → Outcome (suc rounds) s queues x xs
    round-part xs here part =
        let s1 = after_part r price l s x in
        let number : s1.book.fill_sequence ≡ add64 s.book.fill_sequence 1 =
          ap (λ z. z.0.book.fill_sequence) (sym (trade_step-part r price l s x small part))
          ∙ trade_step-fill_sequence r price l s x in
        rw
          (
            level_loop-step rounds s s1 x x (there xs here) more
                (trade_step-part r price l s x small part),
            level_loop-stop rounds s1 x (inr refl),
            sweep_part r price s.book.fill_sequence s.remaining (maker_of s.book x)
                (makers_of s.book xs) more part,
          )
          (Worked-part side l queues s s1 x s.remaining _ xs _ here (queue xs here)
            (reduce_first s.book queues v side l held x xs here s.remaining (omega (arith, part)))
            refl number)

    module _ (enough : (order_at s.book x).quantity ≤ s.remaining) where
      abbrev s1 : Run
      s1 = after_filled r price l s x

      number : s1.book.fill_sequence ≡ add64 s.book.fill_sequence 1
      number =
          ap (λ z. z.0.book.fill_sequence) (sym (trade_step-filled r price l s x small enough))
          ∙ trade_step-fill_sequence r price l s x

      goes_on :
          (xs : List ℕ)
          → queues l ≡ x ∷ xs
          → level_loop r price l (suc rounds) s x ≡ level_loop r price l rounds s1 (first xs npos)
      goes_on xs here =
          level_loop-step rounds s s1 x (order_at s.book x).next (there xs here) more
            (trade_step-filled r price l s x small enough)
          ∙ ap (level_loop r price l rounds s1) (queue xs here).linked.2

      round-last : queues l ≡ x ∷ [] → Outcome (suc rounds) s queues x []
      unfolding sweep
      round-last here =
          rw
            (
              goes_on [] here,
              level_loop-stop rounds s1 npos (inl refl),
              sweep_filled r price s.book.fill_sequence s.remaining (maker_of s.book x) [] more
                  enough,
            )
            (Worked-last side l queues s s1 x _ _ here
              (remove_first s.book queues v side l held x [] here) refl number)

      round-more :
          (y : ℕ) (ys : List ℕ)
          → queues l ≡ x ∷ y ∷ ys
          → Worked side l
              (replaced queues l (y ∷ ys))
              s1
              (level_loop r price l rounds s1 y)
              (sweep r price s1.book.fill_sequence s1.remaining (makers_of s1.book (y ∷ ys)))
          → Outcome (suc rounds) s queues x (y ∷ ys)
      round-more y ys here rest =
          let q = queue (y ∷ ys) here in
          let left = remove_first s.book queues v side l held x (y ∷ ys) here in
          let makers = makers_of-same s.book s1.book (y ∷ ys) (
            All-zip left.makers (y ∷ ys)
              (Linked-within s.book.orders npos npos (x ∷ y ∷ ys) q.linked).1 q.distinct.0) in
          rw
            (
              goes_on (y ∷ ys) here,
              sweep_filled r price s.book.fill_sequence s.remaining (maker_of s.book x)
                  (makers_of s.book (y ∷ ys)) more enough,
            )
            (Worked-filled side l queues s s1 _ x y ys _ _ here left refl (
              subst
                (λ w.
                  Worked side l (replaced queues l (y ∷ ys)) s1 (level_loop r price l rounds s1 y)
                    w)
                (ap (λ n. sweep r price n s1.remaining (makers_of s1.book (y ∷ ys))) number
                  ∙ ap (sweep r price (add64 s.book.fill_sequence 1) s1.remaining) makers)
                rest))

  round-cases :
      (rounds : ℕ) (s : Run) (queues : ℕ → List ℕ) (x : ℕ) (xs : List ℕ)
      → IsBook s.book queues
      → Holds side s.book l
      → queues l ≡ x ∷ xs
      → s.remaining < 2 ^ 64
      → (0 < s.remaining
          → (order_at s.book x).quantity ≤ s.remaining
          → Outcome (suc rounds) s queues x xs)
      → Outcome (suc rounds) s queues x xs
  round-cases rounds s queues x xs v held here small filled = elim (dec_le s.remaining 0) [
    | yes h ↦
        let none : s.remaining ≡ 0 = omega (arith, h) in
        rw
          (
            level_loop-stop (suc rounds) s x (inr none),
            sweep_none r price s.book.fill_sequence s.remaining (makers_of s.book (x ∷ xs)) none,
          )
          (Worked-none side l queues s x xs v here none)
    | no h ↦
        let more : 0 < s.remaining = omega (arith, h) in
        elim (dec_le (order_at s.book x).quantity s.remaining) [
          | yes enough ↦ filled more enough
          | no part ↦ round-part rounds s queues x v held small more xs here (omega (arith, part))
        ]
  ]

  -- The loop does what the sweep of the level's makers says.
  pub level_loop-Worked :
      (rounds : ℕ) (s : Run) (queues : ℕ → List ℕ) (x : ℕ) (xs : List ℕ)
      → IsBook s.book queues
      → Holds side s.book l
      → queues l ≡ x ∷ xs
      → length xs < rounds
      → s.remaining < 2 ^ 64
      → Outcome rounds s queues x xs
  level_loop-Worked zero s queues x xs v held here fuel small = absurd (omega (arith, fuel))
  level_loop-Worked (suc rounds) s queues x [] v held here fuel small =
      round-cases rounds s queues x [] v held here small
        λ more enough. round-last rounds s queues x v held small more enough here
  level_loop-Worked (suc rounds) s queues x (y ∷ ys) v held here fuel small =
      let left = remove_first s.book queues v side l held x (y ∷ ys) here in
      let rest =
        level_loop-Worked rounds (after_filled r price l s x) (replaced queues l (y ∷ ys)) y ys
          left.book ((left.holds side l).1 (held, λ q. absurd (cc)))
          (replaced_same queues l (y ∷ ys)) (omega (arith, fuel)) (omega (arith, small)) in
      round-cases rounds s queues x (y ∷ ys) v held here small
        λ more enough. round-more rounds s queues x v held small more enough y ys here rest
