-- ===== src/Book/Matching/Complete.antt =====
-- The outer loop takes the tiers of the other side in their order.
use market_order_book_engine.Base.{
  ℕ, zero, suc, ◌+◌, ◌^◌, ◌<◌, ◌≡◌, ◌≢◌, ◌⊎◌, inl, inr, refl, ap, ◌∙◌, subst, List, [], ◌∷◌, arith,
  ℤ, ◌==◌, ltb, not, ◌&&◌, Bool-cases, length, true, false,
}
use market_order_book_engine.Types.{Side, opposite, OrderRequest}
use market_order_book_engine.Book.Table.{npos}
use market_order_book_engine.Book.State.{Book, level_at}
use market_order_book_engine.Book.Ladder.{ladder_top}
use market_order_book_engine.Book.Ladder.Write.{price_of}
use market_order_book_engine.Book.Links.Bounds.{length-queue, length-Distinct}
use market_order_book_engine.Book.Links.Chain.{first}
use market_order_book_engine.Book.Matching.{crosses, Run, level_loop, match_loop, match_order}
use market_order_book_engine.Book.Matching.Sweep.{Maker, Swept, makers_of, sweep, sweep_le}
use market_order_book_engine.Book.Matching.Level.{level_loop-Worked}
use market_order_book_engine.Book.Matching.Worked.{Worked}
use market_order_book_engine.Book.Matching.Tiers.{
  Tier, tier_of, tiers_of, Matched, match_tiers, Ranked, top-Ranked, top-none, Sorted-Distinct,
  goes_on, match_tiers-stop, match_tiers-more, match_tiers-part, sweep-part,
}
use market_order_book_engine.Book.Matching.Step.{other_tiers, Worked-Stocked, Ranked-rest}
use market_order_book_engine.Book.Whole.{IsBook, Stocked}
use market_order_book_engine.Book.Links.Cut.{All-map}
use market_order_book_engine.Book.Matching.Done.{Done, Done-stop, Done-part, Done-more}

List-cases : {A : Type 0} (xs : List A) → (xs ≡ []) ⊎ ((x : A) × (ys : List A) × (xs ≡ x ∷ ys))
List-cases [] = inl refl
List-cases (x ∷ xs) = inr (x, xs, refl)

module _ (r : OrderRequest) where
  abbrev other : Side
  other = opposite r.side

  match_loop-stop :
      (rounds : ℕ) (s : Run)
      → (s.remaining ≡ 0)
        ⊎ (ladder_top other s.book ≡ npos)
        ⊎ (crosses r (price_of s.book (ladder_top other s.book)) ≡ false)
      → match_loop r rounds s ≡ s
  unfolding match_loop
  match_loop-stop zero s h = refl
  match_loop-stop (suc rounds) s h =
      let top = ladder_top other s.book in
      let stop : (ltb 0 s.remaining && not (top == npos) && crosses r (price_of s.book top))
          ≡ false =
        ground (arith, h) in
      rw stop refl

  match_loop-step :
      (rounds k : ℕ) (s : Run)
      → 0 < s.remaining
      → ladder_top other s.book ≡ k
      → k ≢ npos
      → crosses r (price_of s.book k) ≡ true
      → match_loop r (suc rounds) s
        ≡ match_loop r rounds (
            level_loop r
              (price_of s.book k)
              k
              (length s.book.orders + 1)
              s
              (level_at s.book k).head)
  unfolding match_loop
  match_loop-step rounds k s more top there inside =
      let go : (ltb 0 s.remaining && not (k == npos) && crosses r (price_of s.book k)) ≡ true =
        ground (arith, more, there, inside) in
      rw (top, go) refl

  -- what the reference says of a run's tiers
  abbrev pub reference : Run → (ℕ → List ℕ) → List ℕ → Matched
  reference s queues ks = match_tiers r s.book.fill_sequence s.remaining (tiers_of s.book queues ks)

  -- a round of the loop at the best level
  module _ (rounds k : ℕ) (ks : List ℕ) (queues : ℕ → List ℕ) (s : Run) (v : IsBook s.book queues)
      (f : Stocked s.book queues) (h : Ranked other s.book (k ∷ ks))
      (small : s.remaining < 2 ^ 64) where
    abbrev price : ℤ
    price = price_of s.book k

    abbrev s1 : Run
    s1 = level_loop r price k (length s.book.orders + 1) s (level_at s.book k).head

    abbrev w : Swept
    w = sweep r price s.book.fill_sequence s.remaining (makers_of s.book (queues k))

    top : ladder_top other s.book ≡ k
    top = top-Ranked other s.book k ks (v.ladder other) h

    there : k ≢ npos
    there = let i = (v.queue other k h.held.0).inside in omega (arith, i, v.room)

    worked : Worked other k queues s s1 w
    worked = elim (List-cases (queues k)) [
      | inl e ↦ absurd (f other k h.held.0 e)
      | inr (x, xs, e) ↦
          let q = v.queue other k h.held.0 in
          let few = length-queue s.book k (queues k) q in
          let at_head : (level_at s.book k).head ≡ x = q.head ∙ ap (λ ys. first ys npos) e in
          let done =
            level_loop-Worked r price other k (length s.book.orders + 1) s queues x xs v h.held.0 e
              (omega (arith, few, ap length e)) small in
          rw (at_head, e) done
    ]

    -- the loops behind the sweep of a level that is used up
    abbrev Rest : Type 0
    Rest =
        IsBook s1.book worked.queues'
        → Stocked s1.book worked.queues'
        → Ranked other s1.book ks
        → Done r.side worked.queues' s1 (match_loop r rounds s1) (reference s1 worked.queues' ks)

    round-Done :
        Rest → Done r.side queues s (match_loop r (suc rounds) s) (reference s queues (k ∷ ks))
    round-Done rest = elim (Bool-cases (goes_on r s.remaining price)) [
      | inr e ↦
          rw
            (
              match_loop-stop (suc rounds) s (stops e),
              match_tiers-stop r s.book.fill_sequence s.remaining (tier_of s.book queues k)
                  (tiers_of s.book queues ks) e,
            )
            (Done-stop r queues (k ∷ ks) s v f h)
      | inl e ↦
          rw (match_loop-step rounds k s (ground (arith, e)) top there (ground (arith, e)))
            (elim (List-cases w.left) [
              | inl none ↦ used_up e none
              | inr (m, ms, some_left) ↦ in_part m ms e some_left
            ])
    ]
      where
        stops :
            goes_on r s.remaining price ≡ false
            → (s.remaining ≡ 0)
              ⊎ (ladder_top other s.book ≡ npos)
              ⊎ (crosses r (price_of s.book (ladder_top other s.book)) ≡ false)
        stops e = rw top (elim (Bool-cases (crosses r price)) [
          | inl c ↦ inl (ground (arith, e, c))
          | inr c ↦ inr (inr c)
        ])

        tier : Tier
        tier = tier_of s.book queues k

        tiers : List Tier
        tiers = tiers_of s.book queues ks

        used_up :
            goes_on r s.remaining price ≡ true
            → w.left ≡ []
            → Done r.side queues s (match_loop r rounds s1) (reference s queues (k ∷ ks))
        used_up e none =
            let d =
              rest worked.book (Worked-Stocked other k queues s s1 w v h.held.0 worked f)
                (Ranked-rest other k queues s s1 w v h.held.0 worked ks h none) in
            let next : reference s1 worked.queues' ks ≡ match_tiers r w.next w.remaining tiers =
              rw
                (
                  worked.next,
                  worked.remaining,
                  other_tiers other k queues s s1 w v h.held.0 worked ks h,
                )
                refl in
            rw (match_tiers-more r s.book.fill_sequence s.remaining tier tiers e none) (
              Done-more r k ks queues s s1 w v f h worked (match_loop r rounds s1)
                (match_tiers r w.next w.remaining tiers)
                (subst (λ d. Done r.side worked.queues' s1 (match_loop r rounds s1) d) next d))

        in_part :
            (m : Maker) (ms : List Maker)
            → goes_on r s.remaining price ≡ true
            → w.left ≡ m ∷ ms
            → Done r.side queues s (match_loop r rounds s1) (reference s queues (k ∷ ks))
        in_part m ms e some_left =
            let ended : s1.remaining ≡ 0 =
              worked.remaining
              ∙ sweep-part r s.book.fill_sequence s.remaining tier tiers m ms some_left in
            rw
              (
                match_loop-stop rounds s1 (inl ended),
                match_tiers-part r s.book.fill_sequence s.remaining tier tiers m ms e some_left,
              )
              (Done-part r k ks queues s s1 w v f h worked (λ q. absurd (cc)))

  match_loop-Done :
      (rounds : ℕ) (s : Run) (queues : ℕ → List ℕ) (ks : List ℕ)
      → IsBook s.book queues
      → Stocked s.book queues
      → Ranked other s.book ks
      → length ks < rounds
      → s.remaining < 2 ^ 64
      → Done r.side queues s (match_loop r rounds s) (reference s queues ks)
  unfolding match_tiers
  match_loop-Done zero s queues ks v f h fuel small = absurd (omega (arith, fuel))
  match_loop-Done (suc rounds) s queues [] v f h fuel small =
      rw (match_loop-stop (suc rounds) s (inr (inl (top-none other s.book (v.ladder other) h))))
        (Done-stop r queues [] s v f h)
  match_loop-Done (suc rounds) s queues (k ∷ ks) v f h fuel small =
      let u = worked rounds k ks queues s v f h small in
      round-Done rounds k ks queues s v f h small λ v1 f1 h1.
        match_loop-Done rounds (s1 rounds k ks queues s v f h small) u.queues' ks v1 f1 h1
          (omega (arith, fuel))
          (omega (
            arith,
            small,
            u.remaining,
            sweep_le r (price_of s.book k) s.book.fill_sequence s.remaining
                (makers_of s.book (queues k)),
          ))

-- On a whole book the incoming order is matched by price before time, as in the reference: the fills are the
-- reference's, first fill first and numbered from the book's counter on, the same quantity remains, and the
-- other side's levels hold what the reference leaves. The book is whole afterwards, and the levels of the
-- order's own side are as they were. The given number of rounds is enough.
pub match_order-Done :
    (b : Book) (r : OrderRequest) (queues : ℕ → List ℕ) (ks : List ℕ)
    → IsBook b queues
    → Stocked b queues
    → Ranked (opposite r.side) b ks
    → r.quantity < 2 ^ 64
    → Done r.side queues
        (record { book = b; remaining = r.quantity; fills = [] })
        (match_order b r)
        (match_tiers r b.fill_sequence r.quantity (tiers_of b queues ks))
unfolding match_order
match_order-Done b r queues ks v f h small =
    let within = All-map (λ k g. (v.queue (opposite r.side) k g).inside) ks h.held in
    match_loop-Done r (length b.levels + 1)
      (record { book = b; remaining = r.quantity; fills = [] }) queues ks v f h
      (omega (
        arith,
        length-Distinct (length b.levels) ks (Sorted-Distinct (opposite r.side) b ks h.sorted)
            within,
      ))
      small
