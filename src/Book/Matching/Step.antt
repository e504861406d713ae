-- ===== src/Book/Matching/Step.antt =====
-- A whole book after one of its levels is swept.
use market_order_book_engine.Base.{
  ℕ, ◌≡◌, ◌≢◌, inl, inr, refl, sym, ap, ◌∙◌, List, [], ◌∷◌, arith, ◌==◌, ==_iff, Bool-cases,
}
use market_order_book_engine.Types.{Side, opposite}
use market_order_book_engine.Book.Table.{npos}
use market_order_book_engine.Book.State.{level_at}
use market_order_book_engine.Book.Ladder.Swap.{Holds}
use market_order_book_engine.Book.Links.Chain.{Lacks}
use market_order_book_engine.Book.Links.Cut.{All-map, All-zip, Linked-within}
use market_order_book_engine.Book.Matching.{Run}
use market_order_book_engine.Book.Matching.Sweep.{Swept, makers_of, makers_of-same}
use market_order_book_engine.Book.Matching.Worked.{Worked}
use market_order_book_engine.Book.Matching.Tiers.{
  tier_of, tiers_of, tiers_of-same, Ranked, Sorted-same, Sorted-Lacks,
}
use market_order_book_engine.Book.Whole.{IsBook, Stocked}
use market_order_book_engine.Book.Whole.Queues.{Lodged-apart}
use market_order_book_engine.Book.Whole.Release.{opposite_ne}

module _ (side : Side) (k : ℕ) (queues : ℕ → List ℕ) (s s1 : Run) (w : Swept)
    (v : IsBook s.book queues) (held : Holds side s.book k) (u : Worked side k queues s s1 w) where
  -- another level is the same
  pub other_tier :
      (t : Side) (j : ℕ)
      → Holds t s.book j
      → j ≢ k
      → tier_of s1.book u.queues' j ≡ tier_of s.book queues j
  other_tier t j h ne =
      let apart =
        Lodged-apart s.book k j (queues k) (queues j) (λ e. ne (sym e)) (v.lodged side k held)
          (v.lodged t j h) in
      let makers = makers_of-same s.book s1.book (queues j) (
        All-zip u.makers (queues j)
          (Linked-within s.book.orders npos npos (queues j) (v.queue t j h).linked) apart) in
      rw (u.price j, u.elsewhere j ne, makers) refl

  pub other_level : (j : ℕ) → Holds (opposite side) s.book j → j ≢ k
  other_level j h e = opposite_ne side (
      sym (v.sided (opposite side) j h)
      ∙ ap (λ i. (level_at s.book i).side) e
      ∙ v.sided side k held)

  pub Worked-Stocked : Stocked s.book queues → Stocked s1.book u.queues'
  Worked-Stocked f t j h e =
      let (before, ne) = (u.holds t j).0 h in
      elim (Bool-cases (j == k)) [
        | inl q ↦
            let same : j ≡ k = (==_iff j k).0 q in
            ne (sym u.left ∙ ap (makers_of s1.book) (ap u.queues' (sym same) ∙ e)) same
        | inr q ↦ f t j before (sym (u.elsewhere j (ground (arith, q))) ∙ e)
      ]

  module _ (ks : List ℕ) (h : Ranked side s.book (k ∷ ks)) where
    others : Lacks k ks
    others = Sorted-Lacks side s.book k ks h.sorted.0

    -- the levels behind are the same
    pub other_tiers : tiers_of s1.book u.queues' ks ≡ tiers_of s.book queues ks
    other_tiers =
        tiers_of-same s.book s1.book queues u.queues' ks
          (All-zip (other_tier side) ks h.held.1 others)

    -- the level has left the ladder
    pub Ranked-rest : w.left ≡ [] → Ranked side s1.book ks
    Ranked-rest e = record {
      held = All-zip (λ j g ne. (u.holds side j).1 (g, λ _. ne)) ks h.held.1 others;
      all = λ j g.
          let (before, ne) = (u.holds side j).0 g in
          elim (h.all j before) [ inl q ↦ absurd (ne e q) | inr a ↦ a ];
      sorted = Sorted-same side s.book s1.book ks u.price h.sorted.1;
    }

    -- the level is still there
    pub Ranked-same : w.left ≢ [] → Ranked side s1.book (k ∷ ks)
    Ranked-same n = record {
      held = All-map (λ j g. (u.holds side j).1 (g, λ q. absurd (n q))) (k ∷ ks) h.held;
      all = λ j g. h.all j ((u.holds side j).0 g).0;
      sorted = Sorted-same side s.book s1.book (k ∷ ks) u.price h.sorted;
    }
