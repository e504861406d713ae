-- ===== src/Book/Ladder/Remove.antt =====
-- A level that leaves a ladder.
use market_order_book_engine.Base.{
  ℕ, ◌+◌, ◌<◌, ℤ, ◌≡◌, ◌≢◌, ◌↔◌, refl, sym, ap, ◌∙◌, sub64, ◌==◌, ==_iff, arith, length, get_or,
  if_both, Bool-cases, inl, inr,
}
use market_order_book_engine.Types.{Side}
use market_order_book_engine.Book.Table.{npos}
use market_order_book_engine.Book.State.{Book, Level, fresh_level, level_at}
use market_order_book_engine.Book.Ladder.{
  size_of, set_size, set_heap, set_heap_pos, heap_at, ladder_remove, refill, ladder_sift_up,
  ladder_sift_down,
}
use market_order_book_engine.Book.Ladder.Frame.{Frame, set_heap_pos-Frame, ladder_remove-Frame}
use market_order_book_engine.Book.Ladder.Swap.{
  Apart, Apart-trans, set_size-Apart, Holds, set_heap-Entered, set_heap_pos-Moved,
  heap_at_injective,
}
use market_order_book_engine.Book.Ladder.Order.{parent, IsLadder}
use market_order_book_engine.Book.Ladder.Up.{ladder_sift_up-Sifted}
use market_order_book_engine.Book.Ladder.Down.{Loose, ladder_sift_down-Settled}
use market_order_book_engine.Book.Ladder.Write.{
  price_of, HasLadder, rebase, size_of-set_size, heap_of-set_size, levels-set_size, Leaves,
  write_entry, Written, write_entry-Written,
}

-- A level's place is forgotten once it is out of the ladder.
forget_IsLadder :
    (side : Side) (price : ℕ → ℤ) (b : Book) (index : ℕ)
    → IsLadder side price b
    → index < length b.levels
    → ¬ (Holds side b index)
    → IsLadder side price (set_heap_pos b index npos)
forget_IsLadder side price b index v inside out =
    let m = set_heap_pos-Moved side b index npos inside in
    let b' = set_heap_pos b index npos in
    let entry : (c : ℕ) → heap_at side b' c ≡ heap_at side b c =
      λ c. ap (λ xs. get_or xs c 0) m.heap in
    record {
      place = record {
        fits = omega (arith, v.place.fits, m.size, ap length m.heap);
        small = omega (arith, v.place.small, ap length m.heap);
        inside = λ c h. ground (arith, entry c, m.size, m.count, v.place.inside c);
        placed = λ c h.
            let other : heap_at side b c ≢ index = λ e. out (c, omega (arith, h, m.size), e) in
            ground (arith, entry c, m.size, m.place (heap_at side b' c), v.place.placed c);
      };
      prices = λ l. ap Level.price ((set_heap_pos-Frame b index npos).level l) ∙ v.prices l;
      ordered = λ c p q.
          ground (arith, m.size, ap price (entry c), ap price (entry (parent c)), v.ordered c);
    }

module _ (side : Side) (b : Book) (index p : ℕ) (v : HasLadder side b) (within : p < size_of side b)
    (here : heap_at side b p ≡ index) where
  abbrev last : ℕ
  last = sub64 (size_of side b) 1

  last_suc : last + 1 ≡ size_of side b
  last_suc = omega (arith, within, v.place.fits, v.place.small)

  -- the last entry, in the place of the one that leaves, before it is sifted
  module _ (inner : p ≢ last) where
    abbrev refilled : Book
    refilled = write_entry side b last p (heap_at side b last)

    refilled-Written : Written side b last p (heap_at side b last) refilled
    refilled-Written =
        write_entry-Written side b last p (heap_at side b last)
          (omega (arith, within, v.place.fits)) (v.place.inside last (omega (arith, last_suc)))

    refilled-Loose : Loose side (price_of b) refilled p
    refilled-Loose =
        let w = refilled-Written in
        record {
          place = record {
            fits = omega (arith, w.size, last_suc, w.room, v.place.fits);
            small = omega (arith, v.place.small, w.room);
            inside = λ c h. ground (
              arith,
              w.entry c,
              w.size,
              last_suc,
              v.place.inside c,
              v.place.inside last,
              w.count,
            );
            placed = λ c h. ground (
              arith,
              w.entry c,
              w.size,
              last_suc,
              w.place (heap_at side refilled c),
              v.place.placed c,
              heap_at_injective v.place c last,
              v.place.fits,
              v.place.small,
            );
          };
          prices = w.prices;
          within = omega (arith, w.size, last_suc, within, inner);
          edges = λ c q r s t. ground (
            arith,
            w.size,
            last_suc,
            ap (price_of b) (w.entry c),
            ap (price_of b) (w.entry (parent c)),
            v.ordered c,
          );
          bridged = λ c q r s t. ground (
            arith,
            w.size,
            last_suc,
            ap (price_of b) (w.entry c),
            ap (price_of b) (w.entry (parent p)),
            v.ordered c,
            v.ordered p,
          );
        }

    refilled-Holds : (l : ℕ) → Holds side refilled l ↔ (Holds side b l × (l ≢ index))
    refilled-Holds l = (back, forth)
      where
        back : Holds side refilled l → Holds side b l × (l ≢ index)
        back (c, h, e) = elim (Bool-cases (p == c)) [
          | inl d ↦
              let same : heap_at side b last ≡ l =
                sym (ground (arith, refilled-Written.entry c, d)) ∙ e in
              (
                (last, omega (arith, last_suc), same),
                λ q. inner (
                    heap_at_injective v.place p last within (omega (arith, last_suc))
                      (here ∙ sym q ∙ sym same)),
              )
          | inr d ↦
              let same : heap_at side b c ≡ l =
                sym (ground (arith, refilled-Written.entry c, d)) ∙ e in
              let inside : c < size_of side b = omega (arith, last_suc, refilled-Written.size, h) in
              (
                (c, inside, same),
                λ q. absurd (
                    ground (
                      arith,
                      heap_at_injective v.place p c within inside (here ∙ sym q ∙ sym same),
                      d,
                    )),
              )
        ]

        forth : Holds side b l × (l ≢ index) → Holds side refilled l
        forth ((c, h, e), ne) = elim (Bool-cases (c == last)) [
          | inl d ↦ (
            p,
            omega (arith, last_suc, refilled-Written.size, within, inner),
            ground (arith, refilled-Written.entry p, ap (heap_at side b) ((==_iff c last).0 d), e),
          )
          | inr d ↦
              let other : p ≢ c = λ q. ne (sym e ∙ ap (heap_at side b) (sym q) ∙ here) in
              (
                c,
                ground (arith, last_suc, refilled-Written.size),
                ground (arith, refilled-Written.entry c, e),
              )
        ]

  -- The ladder without the level, which has not yet forgotten its place.
  record Cut (b' : Book) : Type 0 where
    ladder : IsLadder side (price_of b) b'
    size : size_of side b' ≡ last
    holds : (l : ℕ) → Holds side b' l ↔ (Holds side b l × (l ≢ index))
    apart : Apart side b b'
    others : (l : ℕ) → ¬ (Holds side b l) → (level_at b' l).heap_pos ≡ (level_at b l).heap_pos
    count : length b'.levels ≡ length b.levels

  -- the last level leaves
  shrunk-Cut : p ≡ last → Cut (set_size side b last)
  shrunk-Cut e =
      let b1 = set_size side b last in
      let size1 = size_of-set_size side b last in
      let heap1 = heap_of-set_size side b last in
      let levels1 = levels-set_size side b last in
      let entry : (c : ℕ) → heap_at side b1 c ≡ heap_at side b c =
        λ c. ap (λ xs. get_or xs c 0) heap1 in
      let level : (l : ℕ) → level_at b1 l ≡ level_at b l =
        λ l. ap (λ ls. get_or ls l fresh_level) levels1 in
      record {
        ladder = record {
          place = record {
            fits = omega (arith, v.place.fits, size1, last_suc, ap length heap1);
            small = omega (arith, v.place.small, ap length heap1);
            inside = λ c h.
                ground (arith, entry c, size1, last_suc, v.place.inside c, ap length levels1);
            placed = λ c h.
                ap Level.heap_pos (level (heap_at side b1 c))
                ∙ ap (λ l. (level_at b l).heap_pos) (entry c)
                ∙ v.place.placed c (omega (arith, h, size1, last_suc));
          };
          prices = λ l. ap Level.price (level l);
          ordered = λ c q r. ground (
            arith,
            size1,
            last_suc,
            ap (price_of b) (entry c),
            ap (price_of b) (entry (parent c)),
            v.ordered c,
          );
        };
        size = size1;
        holds = λ l. (
          (λ (c, h, same).
              let same' : heap_at side b c ≡ l = sym (entry c) ∙ same in
              let inside : c < size_of side b = omega (arith, h, size1, last_suc) in
              (
                (c, inside, same'),
                λ q. absurd (
                    omega (
                      arith,
                      h,
                      size1,
                      e,
                      heap_at_injective v.place p c within inside (here ∙ sym q ∙ sym same'),
                    )),
              )),
          λ ((c, h, same), ne).
              let other : p ≢ c = λ q. ne (sym same ∙ ap (heap_at side b) (sym q) ∙ here) in
              (c, ground (arith, e, size1, last_suc), entry c ∙ same),
        );
        apart = set_size-Apart side b last;
        others = λ l n. ap Level.heap_pos (level l);
        count = ap length levels1;
      }

  refill_lem :
      (inner : p ≢ last)
      → refill side (set_size side b last) p last
        ≡ ladder_sift_up side (ladder_sift_down side (refilled inner) p) p
  unfolding refill
  refill_lem inner =
      let b1 = set_size side b last in
      let x = heap_at side b last in
      let heap1 = heap_of-set_size side b last in
      let entry =
        set_heap-Entered side b1 p x (omega (arith, within, v.place.fits, ap length heap1)) in
      let sifted = λ (y z : ℕ).
        ladder_sift_up side (ladder_sift_down side (set_heap_pos (set_heap side b1 p y) z p) p) p in
      ap (λ y. sifted y (heap_at side (set_heap side b1 p y) p)) (ap (λ xs. get_or xs last 0) heap1)
      ∙ ap (sifted x) (ground (arith, entry.entry p))

  -- the last level moves to the place of the one that leaves
  refill-Cut : p ≢ last → Cut (refill side (set_size side b last) p last)
  refill-Cut inner =
      let w = refilled-Written inner in
      let down =
        ladder_sift_down-Settled side (price_of b) (refilled inner) p (refilled-Loose inner) in
      let up =
        ladder_sift_up-Sifted side (price_of b) (ladder_sift_down side (refilled inner) p) p
          down.rising in
      rw (refill_lem inner) (record {
        ladder = up.ladder;
        size = up.size ∙ down.size ∙ w.size;
        holds = λ l. (
          (λ h. (refilled-Holds inner l).0 ((down.holds l).0 ((up.holds l).0 h))),
          λ h. (up.holds l).1 ((down.holds l).1 ((refilled-Holds inner l).1 h)),
        );
        apart = Apart-trans w.apart (Apart-trans down.kept.apart up.kept.apart);
        others = λ l n.
            let out : ¬ (Holds side (refilled inner) l) = λ h. n ((refilled-Holds inner l).0 h).0 in
            let moved : heap_at side b last ≢ l = λ q. n (last, omega (arith, last_suc), q) in
            up.kept.others l (λ h. out ((down.holds l).0 h))
            ∙ down.kept.others l out
            ∙ ground (arith, w.place l);
        count = up.kept.count ∙ down.kept.count ∙ w.count;
      })

-- What `ladder_remove` makes of a book: the level leaves the ladder of the side, and nothing else is
-- touched.
pub record Removed (side : Side) (index : ℕ) (b b' : Book) : Type 0 where
  pub ladder : HasLadder side b'
  pub size : size_of side b' + 1 ≡ size_of side b
  pub holds : (l : ℕ) → Holds side b' l ↔ (Holds side b l × (l ≢ index))
  pub leaves : Leaves side index b b'

forget_Removed :
    (side : Side) (b : Book) (index p : ℕ) (v : HasLadder side b) (within : p < size_of side b)
    (here : heap_at side b p ≡ index) (b' : Book)
    → Cut side b index p v within here b'
    → Removed side index b (set_heap_pos b' index npos)
forget_Removed side b index p v within here b' cut =
    let inside : index < length b'.levels =
      omega (arith, v.place.inside p within, here, cut.count) in
    let out : ¬ (Holds side b' index) = λ h. ((cut.holds index).0 h).1 refl in
    let m = set_heap_pos-Moved side b' index npos inside in
    let entry : (c : ℕ) → heap_at side (set_heap_pos b' index npos) c ≡ heap_at side b' c =
      λ c. ap (λ xs. get_or xs c 0) m.heap in
    record {
      ladder = rebase (forget_IsLadder side (price_of b) b' index cut.ladder inside out);
      size = omega (arith, m.size, cut.size, last_suc side b index p v within here);
      holds = λ l. (
        (λ (c, h, e). (cut.holds l).0 (c, omega (arith, h, m.size), sym (entry c) ∙ e)),
        λ h. let (c, q, e) = (cut.holds l).1 h in (c, omega (arith, q, m.size), entry c ∙ e),
      );
      leaves = record {
        apart = Apart-trans cut.apart m.apart;
        others = λ l n ne. ground (arith, m.place l, cut.others l n);
      };
    }

ladder_remove_lem :
    (side : Side) (b : Book) (index : ℕ)
    → HasLadder side b
    → Holds side b index
    → Removed side index b (ladder_remove side b index)
unfolding ladder_remove
ladder_remove_lem side b index v (p, within, here) =
    let pos = (level_at b index).heap_pos in
    let at_p : pos ≡ p = ap (λ l. (level_at b l).heap_pos) (sym here) ∙ v.place.placed p within in
    let inside : pos < size_of side b = omega (arith, at_p, within) in
    let there : heap_at side b pos ≡ index = ap (heap_at side b) at_p ∙ here in
    let last = sub64 (size_of side b) 1 in
    if_both (λ (b' : Book). Removed side index b (set_heap_pos b' index npos)) (pos == last)
      (λ e.
        forget_Removed side b index pos v inside there (set_size side b last)
          (shrunk-Cut side b index pos v inside there ((==_iff pos last).0 e)))
      λ e.
        forget_Removed side b index pos v inside there (refill side (set_size side b last) pos last)
          (refill-Cut side b index pos v inside there (ground arith))

-- A level of the ladder is taken out of it, wherever it stands: the ladder then holds its other
-- levels in order, and the other side's heap and the places of levels outside the ladder stay, as does all
-- else in the book.
pub ladder_remove-Removed :
    (side : Side) (b : Book) (index : ℕ)
    → HasLadder side b
    → Holds side b index
    → Removed side index b (ladder_remove side b index) × Frame b (ladder_remove side b index)
ladder_remove-Removed side b index v held =
    (ladder_remove_lem side b index v held, ladder_remove-Frame side b index)
