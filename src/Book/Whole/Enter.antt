-- ===== src/Book/Whole/Enter.antt =====
-- A whole book after a level that was in no ladder is written, and after `ladder_push` has entered it.
use market_order_book_engine.Base.{
  ℕ, ◌≤◌, ◌<◌, ◌≡◌, ◌↔◌, ◌⊎◌, inl, inr, refl, sym, ap, ◌∙◌, subst, List, [], arith, length,
}
use market_order_book_engine.Types.{Side, buy, sell, opposite}
use market_order_book_engine.Book.Table.{npos}
use market_order_book_engine.Book.State.{Book, Level, level_at, set_level}
use market_order_book_engine.Book.State.Touched.{Touched, set_level-Touched}
use market_order_book_engine.Book.Ladder.{heap_of, size_of, ladder_push}
use market_order_book_engine.Book.Ladder.Frame.{Frame}
use market_order_book_engine.Book.Ladder.Swap.{Holds}
use market_order_book_engine.Book.Ladder.Write.{HasLadder}
use market_order_book_engine.Book.Ladder.Push.{Pushed, ladder_push-Pushed}
use market_order_book_engine.Book.Links.Fifo.{IsQueue}
use market_order_book_engine.Book.Whole.{IsBook}
use market_order_book_engine.Book.Whole.Kin.{SameLadder, HasLadder-same, Holds-same}
use market_order_book_engine.Book.Whole.Queues.{IsManned, IsManned-same}
use market_order_book_engine.Book.Whole.Changes.{manned, ends_of}
use market_order_book_engine.Book.Whole.Leave.{replaced, replaced_same, replaced_other}
use market_order_book_engine.Book.Whole.Release.{side_cases, opposite_ne, same_orders}

-- A level that is in no ladder is written.
module _ (b : Book) (queues : ℕ → List ℕ) (v : IsBook b queues) (l : ℕ)
    (inside : l < length b.levels) (fresh : (s : Side) → ¬ (Holds s b l)) (level : Level) where
  abbrev b1 : Book
  b1 = set_level b l level

  written : Touched l (λ x w. w) (λ w. level) b b1
  written = set_level-Touched b (λ w. level) inside

  other : (s : Side) (k : ℕ) → Holds s b k → level_at b1 k ≡ level_at b k
  other s k h = written.others k (λ e. fresh s (subst (Holds s b) e h))

  same : (s : Side) → SameLadder s b b1
  same s = record {
    heap = heap s;
    size = size s;
    count = written.levels;
    price = λ k h. ap Level.price (other s k h);
    place = λ k h. ap Level.heap_pos (other s k h);
  }
    where
      heap : (s : Side) → heap_of s b1 ≡ heap_of s b
      heap buy = refl
      heap sell = refl

      size : (s : Side) → size_of s b1 ≡ size_of s b
      size buy = refl
      size sell = refl

  pub set_level-Holds : (s : Side) (k : ℕ) → Holds s b1 k ↔ Holds s b k
  set_level-Holds s k = Holds-same (same s) k

  pub set_level-IsBook : IsBook b1 queues
  set_level-IsBook = record {
    room = omega (arith, v.room, written.levels);
    ladder = λ s. HasLadder-same (same s) (v.ladder s);
    sided =
        λ s k h. let g = (set_level-Holds s k).0 h in ap Level.side (other s k g) ∙ v.sided s k g;
    queue = λ s k h. (kept s k h).0;
    lodged = λ s k h. (kept s k h).1;
  }
    where
      kept : (s : Side) (k : ℕ) → Holds s b1 k → IsManned b1 k (queues k)
      kept s k h =
          let g = (set_level-Holds s k).0 h in
          IsManned-same b b1 k (queues k) refl written.levels (ends_of b b1 k (other s k g))
            (same_orders b b1 refl (queues k)) (manned v s k g)

-- A level without orders enters the ladder of its side.
module _ (b : Book) (queues : ℕ → List ℕ) (v : IsBook b queues) (small : length b.orders ≤ npos)
    (side : Side) (l : ℕ) (inside : l < length b.levels)
    (room : size_of side b < length (heap_of side b)) (fresh : (s : Side) → ¬ (Holds s b l))
    (own : (level_at b l).side ≡ side)
    (void : ((level_at b l).head ≡ npos)
      × ((level_at b l).tail ≡ npos)
      × ((level_at b l).order_count ≡ 0)
      × ((level_at b l).total_quantity ≡ 0)) where
  abbrev b2 : Book
  b2 = ladder_push side b l

  pushed : Pushed side l b b2
  pushed = (ladder_push-Pushed side b l (v.ladder side) inside room (fresh side)).0

  frame : Frame b b2
  frame = (ladder_push-Pushed side b l (v.ladder side) inside room (fresh side)).1

  other_side : (k : ℕ) → Holds (opposite side) b k → ¬ (Holds side b k)
  other_side k h g = opposite_ne side (sym (v.sided (opposite side) k h) ∙ v.sided side k g)

  across : SameLadder (opposite side) b b2
  across = record {
    heap = pushed.leaves.apart.heap;
    size = pushed.leaves.apart.size;
    count = frame.count;
    price = λ k h. ap Level.price (frame.level k);
    place = λ k h.
        pushed.leaves.others k (other_side k h)
          (λ e. fresh (opposite side) (subst (Holds (opposite side) b) e h));
  }

  ladders : (s : Side) → HasLadder s b2
  ladders s = elim (side_cases s side) [
    | inl e ↦ subst (λ t. HasLadder t b2) (sym e) pushed.ladder
    | inr e ↦ subst (λ t. HasLadder t b2) (sym e) (HasLadder-same across (v.ladder (opposite side)))
  ]

  -- The ladders hold that level besides those before.
  pub ladder_push-Holds : (s : Side) (k : ℕ) → Holds s b2 k ↔ (Holds s b k ⊎ ((s ≡ side) × (k ≡ l)))
  ladder_push-Holds s k = elim (side_cases s side) [
    | inl e ↦
        subst (λ t. Holds t b2 k ↔ (Holds t b k ⊎ ((t ≡ side) × (k ≡ l)))) (sym e)
          (
            (λ h. elim ((pushed.holds k).0 h) [ inl g ↦ inl g | inr q ↦ inr (refl, q) ]),
            (λ h. elim h [
              | inl g ↦ (pushed.holds k).1 (inl g)
              | inr (_, q) ↦ (pushed.holds k).1 (inr q)
            ]),
          )
    | inr e ↦
        subst (λ t. Holds t b2 k ↔ (Holds t b k ⊎ ((t ≡ side) × (k ≡ l)))) (sym e)
          (
            (λ h. inl ((Holds-same across k).0 h)),
            (λ h. elim h [
              | inl g ↦ (Holds-same across k).1 g
              | inr (q, _) ↦ absurd (opposite_ne side q)
            ]),
          )
  ]

  pub ladder_push-IsBook : IsBook b2 (replaced queues l [])
  ladder_push-IsBook = record {
    room = omega (arith, v.room, frame.count);
    ladder = ladders;
    sided = λ s k h. ap Level.side (frame.level k) ∙ (elim ((ladder_push-Holds s k).0 h) [
      | inl g ↦ v.sided s k g
      | inr (e, q) ↦ ap (λ i. (level_at b i).side) q ∙ own ∙ sym e
    ]);
    queue = λ s k h. (kept s k h).0;
    lodged = λ s k h. (kept s k h).1;
  }
    where
      empty_queue : IsQueue b2 l []
      empty_queue = record {
        inside = omega (arith, inside, frame.count);
        small = omega (arith, small, ap length frame.orders);
        linked = tt;
        distinct = tt;
        head = ap Level.head (frame.level l) ∙ void.0;
        tail = ap Level.tail (frame.level l) ∙ void.1;
        count = ap Level.order_count (frame.level l) ∙ void.2;
        total = ap Level.total_quantity (frame.level l) ∙ void.3;
      }

      kept : (s : Side) (k : ℕ) → Holds s b2 k → IsManned b2 k (replaced queues l [] k)
      kept s k h = elim ((ladder_push-Holds s k).0 h) [
        | inr (e, q) ↦
            subst (λ j. IsManned b2 j (replaced queues l [] j)) (sym q)
              (subst (IsManned b2 l) (sym (replaced_same queues l [])) (empty_queue, tt))
        | inl g ↦
            subst (IsManned b2 k)
              (sym (replaced_other queues l k [] (λ e. fresh s (subst (Holds s b) e g))))
              (IsManned-same b b2 k (queues k) (ap length frame.orders) frame.count
                (record {
                  head = ap Level.head (frame.level k);
                  tail = ap Level.tail (frame.level k);
                  count = ap Level.order_count (frame.level k);
                  total = ap Level.total_quantity (frame.level k);
                })
                (same_orders b b2 frame.orders (queues k)) (manned v s k g))
      ]
