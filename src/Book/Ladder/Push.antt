-- ===== src/Book/Ladder/Push.antt =====
-- A level that joins a ladder.
use market_order_book_engine.Base.{
  ℕ, ◌+◌, ◌<◌, ◌≡◌, ◌≢◌, ◌↔◌, ◌⊎◌, sym, ap, ◌∙◌, add64, ◌==◌, arith, length, Bool-cases, inl, inr,
}
use market_order_book_engine.Types.{Side}
use market_order_book_engine.Book.State.{Book}
use market_order_book_engine.Book.Ladder.{heap_of, size_of, heap_at, ladder_push}
use market_order_book_engine.Book.Ladder.Frame.{Frame, ladder_push-Frame}
use market_order_book_engine.Book.Ladder.Swap.{Apart-trans, Holds}
use market_order_book_engine.Book.Ladder.Order.{parent, UpInv}
use market_order_book_engine.Book.Ladder.Up.{ladder_sift_up-Sifted}
use market_order_book_engine.Book.Ladder.Write.{
  price_of, HasLadder, rebase, Leaves, write_entry, Written, write_entry-Written,
}

module _ (side : Side) (b : Book) (index : ℕ) (v : HasLadder side b) where
  module _ (inside : index < length b.levels) (room : size_of side b < length (heap_of side b))
      (fresh : ¬ (Holds side b index)) where
    abbrev grown : Book
    grown = write_entry side b (add64 (size_of side b) 1) (size_of side b) index

    grown-Written : Written side b (add64 (size_of side b) 1) (size_of side b) index grown
    grown-Written = write_entry-Written side b _ (size_of side b) index room inside

    total : size_of side grown ≡ size_of side b + 1
    total = grown-Written.size ∙ omega (arith, v.place.small, room)

    other_entry : (c : ℕ) → c < size_of side b → heap_at side b c ≢ index
    other_entry c h same = fresh (c, h, same)

    -- the entry at the end of the heap, before it rises
    grown-UpInv : UpInv side (price_of b) grown (size_of side b)
    grown-UpInv =
        let w = grown-Written in
        let small = v.place.small in
        record {
          place = record {
            fits = omega (arith, total, w.room, room);
            small = omega (arith, small, w.room);
            inside = λ c h. ground (arith, w.entry c, total, v.place.inside c, w.count, inside);
            placed = λ c h. ground (
              arith,
              w.entry c,
              total,
              w.place (heap_at side grown c),
              v.place.placed c,
              other_entry c,
              small,
              room,
            );
          };
          prices = w.prices;
          within = omega (arith, total);
          edges = λ c p q r. ground (
            arith,
            total,
            ap (price_of b) (w.entry c),
            ap (price_of b) (w.entry (parent c)),
            v.ordered c,
          );
          bridged = λ c p q r t. omega (arith, total, q, r, t);
        }

    grown-Holds : (l : ℕ) → Holds side grown l ↔ (Holds side b l ⊎ (l ≡ index))
    grown-Holds l = (back, forth)
      where
        back : Holds side grown l → Holds side b l ⊎ (l ≡ index)
        back (c, h, e) = elim (Bool-cases (size_of side b == c)) [
          | inl d ↦ inr (sym e ∙ ground (arith, grown-Written.entry c, d))
          | inr d ↦
              inl (c, ground (arith, total), sym (ground (arith, grown-Written.entry c, d)) ∙ e)
        ]

        forth : Holds side b l ⊎ (l ≡ index) → Holds side grown l
        forth (inl (c, h, e)) = (c, omega (arith, total, h), ground (arith, grown-Written.entry c))
        forth (inr e) = (
          size_of side b,
          omega (arith, total),
          ground (arith, grown-Written.entry (size_of side b)),
        )

-- What `ladder_push` makes of a book: the level joins the ladder of the side, and nothing else is
-- touched.
pub record Pushed (side : Side) (index : ℕ) (b b' : Book) : Type 0 where
  pub ladder : HasLadder side b'
  pub size : size_of side b' ≡ size_of side b + 1
  pub holds : (l : ℕ) → Holds side b' l ↔ (Holds side b l ⊎ (l ≡ index))
  pub leaves : Leaves side index b b'

ladder_push_lem :
    (side : Side) (b : Book) (index : ℕ)
    → HasLadder side b
    → index < length b.levels
    → size_of side b < length (heap_of side b)
    → ¬ (Holds side b index)
    → Pushed side index b (ladder_push side b index)
unfolding ladder_push
ladder_push_lem side b index v inside room fresh =
    let w = grown-Written side b index v inside room fresh in
    let s =
      ladder_sift_up-Sifted side (price_of b) (grown side b index v inside room fresh)
        (size_of side b) (grown-UpInv side b index v inside room fresh) in
    let g = grown-Holds side b index v inside room fresh in
    record {
      ladder = rebase s.ladder;
      size = s.size ∙ total side b index v inside room fresh;
      holds = λ l. ((λ h. (g l).0 ((s.holds l).0 h)), λ h. (s.holds l).1 ((g l).1 h));
      leaves = record {
        apart = Apart-trans w.apart s.kept.apart;
        others = λ l n ne.
            let away : ¬ (Holds side (grown side b index v inside room fresh) l) =
              λ h. elim ((g l).0 h) [ inl k ↦ n k | inr k ↦ ne k ] in
            s.kept.others l away ∙ ground (arith, w.place l);
      };
    }

-- A level of the book that is not in the ladder of a side, whose heap has room, is entered in order:
-- the ladder then holds it and what it held before, no entry is ahead of its parent, each level
-- knows its place, and the other side's heap and the other levels' places stay, as does all
-- else in the book.
pub ladder_push-Pushed :
    (side : Side) (b : Book) (index : ℕ)
    → HasLadder side b
    → index < length b.levels
    → size_of side b < length (heap_of side b)
    → ¬ (Holds side b index)
    → Pushed side index b (ladder_push side b index) × Frame b (ladder_push side b index)
ladder_push-Pushed side b index v inside room fresh =
    (ladder_push_lem side b index v inside room fresh, ladder_push-Frame side b index)
