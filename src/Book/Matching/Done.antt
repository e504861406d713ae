-- ===== src/Book/Matching/Done.antt =====
-- What the outer loop makes of a run, level by level.
use market_order_book_engine.Base.{
  ℕ, ◌≡◌, ◌≢◌, ◌↔◌, refl, sym, ap, ◌∙◌, subst, List, [], ◌∷◌, ◌++◌, append_nil, append_assoc,
}
use market_order_book_engine.Types.{Side, buy, sell, opposite, OrderRequest}
use market_order_book_engine.Book.Ladder.Swap.{Holds}
use market_order_book_engine.Book.Ladder.Write.{price_of}
use market_order_book_engine.Book.Matching.{Run}
use market_order_book_engine.Book.Matching.Sweep.{Swept}
use market_order_book_engine.Book.Matching.Worked.{Worked}
use market_order_book_engine.Book.Matching.Tiers.{tier_of, tiers_of, Matched, Ranked}
use market_order_book_engine.Book.Matching.Step.{
  other_tier, other_level, other_tiers, Worked-Stocked, Ranked-same,
}
use market_order_book_engine.Book.Whole.{IsBook, Stocked}

-- The run `s'` is the run `s` after the levels `ks` of the other side are matched with the outcome `w`:
-- the book is whole, the tiers left are those of `w`, and the side of the order is as it was.
pub record Done (own : Side) (queues : ℕ → List ℕ) (s s' : Run) (w : Matched) : Type 0 where
  pub queues' : ℕ → List ℕ
  pub levels' : List ℕ
  pub book : IsBook s'.book queues'
  pub stocked : Stocked s'.book queues'
  pub ranked : Ranked (opposite own) s'.book levels'
  pub fills : s'.fills ≡ s.fills ++ w.fills
  pub remaining : s'.remaining ≡ w.remaining
  pub left : tiers_of s'.book queues' levels' ≡ w.left
  pub across : (k : ℕ) → Holds own s'.book k ↔ Holds own s.book k
  pub same : (k : ℕ) → Holds own s.book k → tier_of s'.book queues' k ≡ tier_of s.book queues k

twice_opposite : (side : Side) → opposite (opposite side) ≡ side
twice_opposite buy = refl
twice_opposite sell = refl

module _ (r : OrderRequest) where
  abbrev other : Side
  other = opposite r.side

  pub Done-stop :
      (queues : ℕ → List ℕ) (ks : List ℕ) (s : Run)
      → IsBook s.book queues
      → Stocked s.book queues
      → Ranked other s.book ks
      → Done r.side queues s s
          (record { fills = []; remaining = s.remaining; left = tiers_of s.book queues ks })
  Done-stop queues ks s v f h = record {
    queues' = queues;
    levels' = ks;
    book = v;
    stocked = f;
    ranked = h;
    fills = sym (append_nil s.fills);
    remaining = refl;
    left = refl;
    across = λ k. ((λ g. g), (λ g. g));
    same = λ k g. refl;
  }

  -- the best level is swept
  module _ (k : ℕ) (ks : List ℕ) (queues : ℕ → List ℕ) (s s1 : Run) (w : Swept)
      (v : IsBook s.book queues) (f : Stocked s.book queues) (h : Ranked other s.book (k ∷ ks))
      (u : Worked other k queues s s1 w) where
    apart : (j : ℕ) → Holds r.side s.book j → j ≢ k
    apart j g =
        other_level other k queues s s1 w v h.held.0 u j
          (subst (λ t. Holds t s.book j) (sym (twice_opposite r.side)) g)

    stays_across : (j : ℕ) → Holds r.side s1.book j ↔ Holds r.side s.book j
    stays_across j =
        ((λ g. ((u.holds r.side j).0 g).0), (λ g. (u.holds r.side j).1 (g, λ _. apart j g)))

    stays_same :
        (j : ℕ) → Holds r.side s.book j → tier_of s1.book u.queues' j ≡ tier_of s.book queues j
    stays_same j g = other_tier other k queues s s1 w v h.held.0 u r.side j g (apart j g)

    pub Done-part :
        w.left ≢ []
        → Done r.side queues s s1 (record {
          fills = w.fills ++ [];
          remaining = w.remaining;
          left = record { price = price_of s.book k; makers = w.left } ∷ tiers_of s.book queues ks;
        })
    Done-part n = record {
      queues' = u.queues';
      levels' = k ∷ ks;
      book = u.book;
      stocked = Worked-Stocked other k queues s s1 w v h.held.0 u f;
      ranked = Ranked-same other k queues s s1 w v h.held.0 u ks h n;
      fills = u.fills ∙ ap (λ fs. s.fills ++ fs) (sym (append_nil w.fills));
      remaining = u.remaining;
      left = rw (u.price k, u.left, other_tiers other k queues s s1 w v h.held.0 u ks h) refl;
      across = stays_across;
      same = stays_same;
    }

    pub Done-more :
        (s' : Run) (d : Matched)
        → Done r.side u.queues' s1 s' d
        → Done r.side queues s s'
            (record { fills = w.fills ++ d.fills; remaining = d.remaining; left = d.left })
    Done-more s' d m = record {
      queues' = m.queues';
      levels' = m.levels';
      book = m.book;
      stocked = m.stocked;
      ranked = m.ranked;
      fills = m.fills ∙ ap (λ fs. fs ++ d.fills) u.fills ∙ append_assoc s.fills w.fills d.fills;
      remaining = m.remaining;
      left = m.left;
      across = λ j. (
        (λ g. (stays_across j).0 ((m.across j).0 g)),
        (λ g. (m.across j).1 ((stays_across j).1 g)),
      );
      same = λ j g. m.same j ((stays_across j).1 g) ∙ stays_same j g;
    }
