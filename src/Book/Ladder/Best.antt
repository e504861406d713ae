-- ===== src/Book/Ladder/Best.antt =====
-- The top of a ladder.
use market_order_book_engine.Base.{
  ℕ, zero, suc, ◌<◌, ◌≡◌, ◌⊎◌, refl, subst, ◌==◌, ==_iff, arith, Bool-cases, inl, inr,
}
use market_order_book_engine.Types.{Side}
use market_order_book_engine.Book.Table.{npos}
use market_order_book_engine.Book.State.{Book}
use market_order_book_engine.Book.Ladder.{size_of, heap_at, ladder_top}
use market_order_book_engine.Book.Ladder.Swap.{Holds}
use market_order_book_engine.Book.Ladder.Order.{Behind, parent}
use market_order_book_engine.Book.Ladder.Write.{price_of, HasLadder}

-- The top is npos exactly for an empty ladder; else it is a level of the ladder, and no level of the
-- ladder has a price nearer to the top of the book.
pub ladder_top-Behind :
    (side : Side) (b : Book)
    → HasLadder side b
    → ((size_of side b ≡ 0) × (ladder_top side b ≡ npos))
      ⊎ (Holds side b (ladder_top side b)
          × ((l : ℕ)
              → Holds side b l
              → Behind side (price_of b l) (price_of b (ladder_top side b))))
unfolding ladder_top
ladder_top-Behind side b v = elim (Bool-cases (size_of side b == 0)) [
  | inl e ↦ rw e (inl ((==_iff (size_of side b) 0).0 e, refl))
  | inr e ↦ rw e (
      inr (
        (0, ground arith, refl),
        λ l (c, h, same).
            subst (λ k. Behind side (price_of b k) (price_of b (heap_at side b 0))) same
              (behind_root (suc c) c (omega arith) h),
      ))
]
  where
    behind_root :
        (k c : ℕ)
        → c < k
        → c < size_of side b
        → Behind side (price_of b (heap_at side b c)) (price_of b (heap_at side b 0))
    behind_root zero c f h = absurd (omega arith)
    behind_root (suc k) zero f h = omega arith
    behind_root (suc k) (suc c) f h =
        let up = behind_root k (parent (suc c)) (omega arith) (omega (arith, h)) in
        omega (arith, up, v.ordered (suc c) (omega arith) h)
