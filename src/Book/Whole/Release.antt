-- ===== src/Book/Whole/Release.antt =====
-- A whole book after `release_level`.
use market_order_book_engine.Base.{
  ℕ, ◌+◌, ◌<◌, ◌≡◌, ◌≢◌, ◌↔◌, ◌⊎◌, inl, inr, refl, sym, ap, ◌∙◌, subst, List, All, arith, length,
  get_or, false,
}
use market_order_book_engine.Types.{Side, buy, sell, opposite}
use market_order_book_engine.Book.State.{Book, Level, fresh_order, level_at}
use market_order_book_engine.Book.State.Touched.{set_level-Touched}
use market_order_book_engine.Book.Ladder.{size_of, ladder_remove}
use market_order_book_engine.Book.Ladder.Frame.{Frame}
use market_order_book_engine.Book.Ladder.Swap.{Holds}
use market_order_book_engine.Book.Ladder.Write.{HasLadder}
use market_order_book_engine.Book.Ladder.Remove.{Removed, ladder_remove-Removed}
use market_order_book_engine.Book.Links.{release_level, erase_level_lookup, give_back_level}
use market_order_book_engine.Book.Whole.{IsBook}
use market_order_book_engine.Book.Whole.Kin.{
  SameLadder, HasLadder-same, Holds-same, Kin, Kin-trans, Touched-Kin,
}
use market_order_book_engine.Book.Whole.Queues.{SameOrder, IsManned, IsManned-same}
use market_order_book_engine.Book.Whole.Changes.{
  Kin-IsBook, Kin-Holds, manned, SamePools, pools_same, SamePools-Kin, SamePools-IsBook, ends_of,
  order_of, All-all,
}

pub side_cases : (s side : Side) → (s ≡ side) ⊎ (s ≡ opposite side)
side_cases buy buy = inl refl
side_cases buy sell = inr refl
side_cases sell buy = inr refl
side_cases sell sell = inl refl

pub opposite_ne : (side : Side) → opposite side ≢ side
opposite_ne buy e = absurd (cc)
opposite_ne sell e = absurd (cc)

pub same_orders : (b b' : Book) → b'.orders ≡ b.orders → (xs : List ℕ) → All (SameOrder b b') xs
same_orders b b' e xs =
    All-all (SameOrder b b') (λ x. order_of b b' x (ap (λ os. get_or os x fresh_order) e)) xs

-- The level has left the ladder of the side, and the book is whole.
pub record Without (side : Side) (l : ℕ) (queues : ℕ → List ℕ) (b b' : Book) : Type 0 where
  pub book : IsBook b' queues
  pub holds : (s : Side) (k : ℕ) → Holds s b' k ↔ (Holds s b k × (k ≢ l))
  pub size : size_of side b' + 1 ≡ size_of side b
  pub orders : b'.orders ≡ b.orders
  pub count : length b'.levels ≡ length b.levels
  pub price : (k : ℕ) → (level_at b' k).price ≡ (level_at b k).price

module _ (b : Book) (queues : ℕ → List ℕ) (v : IsBook b queues) (side : Side) (l : ℕ)
    (held : Holds side b l) where
  abbrev b1 : Book
  b1 = ladder_remove side b l

  removed : Removed side l b b1
  removed = (ladder_remove-Removed side b l (v.ladder side) held).0

  frame : Frame b b1
  frame = (ladder_remove-Removed side b l (v.ladder side) held).1

  -- a level of the other side
  other_side : (k : ℕ) → Holds (opposite side) b k → ¬ (Holds side b k)
  other_side k h g = opposite_ne side (sym (v.sided (opposite side) k h) ∙ v.sided side k g)

  other_level : (k : ℕ) → Holds (opposite side) b k → k ≢ l
  other_level k h e = other_side k h (subst (Holds side b) (sym e) held)

  across : SameLadder (opposite side) b b1
  across = record {
    heap = removed.leaves.apart.heap;
    size = removed.leaves.apart.size;
    count = frame.count;
    price = λ k h. ap Level.price (frame.level k);
    place = λ k h. removed.leaves.others k (other_side k h) (other_level k h);
  }

  ladders : (s : Side) → HasLadder s b1
  ladders s = elim (side_cases s side) [
    | inl e ↦ subst (λ t. HasLadder t b1) (sym e) removed.ladder
    | inr e ↦ subst (λ t. HasLadder t b1) (sym e) (HasLadder-same across (v.ladder (opposite side)))
  ]

  holders : (s : Side) (k : ℕ) → Holds s b1 k ↔ (Holds s b k × (k ≢ l))
  holders s k = elim (side_cases s side) [
    | inl e ↦ subst (λ t. Holds t b1 k ↔ (Holds t b k × (k ≢ l))) (sym e) (removed.holds k)
    | inr e ↦
        subst (λ t. Holds t b1 k ↔ (Holds t b k × (k ≢ l))) (sym e)
          (
            (λ h. let g = (Holds-same across k).0 h in (g, other_level k g)),
            (λ (h, ne). (Holds-same across k).1 h),
          )
  ]

  ladder_remove-Without : Without side l queues b b1
  ladder_remove-Without = record {
    book = record {
      room = omega (arith, v.room, frame.count);
      ladder = ladders;
      sided = λ s k h. ap Level.side (frame.level k) ∙ v.sided s k ((holders s k).0 h).0;
      queue = λ s k h. (kept s k h).0;
      lodged = λ s k h. (kept s k h).1;
    };
    holds = holders;
    size = removed.size;
    orders = frame.orders;
    count = frame.count;
    price = λ k. ap Level.price (frame.level k);
  }
    where
      kept : (s : Side) (k : ℕ) → Holds s b1 k → IsManned b1 k (queues k)
      kept s k h =
          IsManned-same b b1 k (queues k) (ap length frame.orders) frame.count
            (record {
              head = ap Level.head (frame.level k);
              tail = ap Level.tail (frame.level k);
              count = ap Level.order_count (frame.level k);
              total = ap Level.total_quantity (frame.level k);
            })
            (same_orders b b1 frame.orders (queues k)) (manned v s k ((holders s k).0 h).0)

-- The level goes back on the free list.
give_back-Kin : (b : Book) (l : ℕ) → l < length b.levels → Kin b (give_back_level b l)
give_back-Kin b l h =
    Kin-trans
      (Touched-Kin
        (set_level-Touched b (λ v. record v { active = false; next_free = b.free_level }) h) refl
        refl refl)
      (SamePools-Kin (pools_same _ (give_back_level b l) refl refl refl refl refl refl))

give_back-Without :
    (b b1 : Book) (queues : ℕ → List ℕ) (side : Side) (l : ℕ)
    → l < length b1.levels
    → Without side l queues b b1
    → Without side l queues b (give_back_level b1 l)
give_back-Without b b1 queues side l inside w =
    let kin = give_back-Kin b1 l inside in
    let t =
      set_level-Touched b1 (λ v. record v { active = false; next_free = b1.free_level }) inside in
    let b2 = give_back_level b1 l in
    record {
      book = Kin-IsBook queues queues kin w.book λ s k h.
          IsManned-same b1 b2 k (queues k) refl kin.count
            (ends_of b1 b2 k (t.others k ((w.holds s k).0 h).1)) (same_orders b1 b2 refl (queues k))
            (manned w.book s k h);
      holds = λ s k. (
        (λ h. (w.holds s k).0 ((Kin-Holds kin s k).0 h)),
        (λ h. (Kin-Holds kin s k).1 ((w.holds s k).1 h)),
      );
      size = omega (arith, w.size, kin.size side);
      orders = w.orders;
      count = kin.count ∙ w.count;
      price = λ k. kin.price k ∙ w.price k;
    }

SamePools-Without :
    (b b1 b2 : Book) (queues : ℕ → List ℕ) (side : Side) (l : ℕ)
    → SamePools b1 b2
    → Without side l queues b b1
    → Without side l queues b b2
SamePools-Without b b1 b2 queues side l s w =
    let kin = SamePools-Kin s in
    record {
      book = SamePools-IsBook queues s w.book;
      holds = λ t k. (
        (λ h. (w.holds t k).0 ((Kin-Holds kin t k).0 h)),
        (λ h. (Kin-Holds kin t k).1 ((w.holds t k).1 h)),
      );
      size = omega (arith, w.size, kin.size side);
      orders = s.orders ∙ w.orders;
      count = kin.count ∙ w.count;
      price = λ k. kin.price k ∙ w.price k;
    }

-- A level of a ladder is released: it leaves the ladder of its side and the book stays whole.
pub release_level-Without :
    (b : Book) (queues : ℕ → List ℕ) (side : Side) (l : ℕ)
    → IsBook b queues
    → Holds side b l
    → Without side l queues b (release_level b l)
unfolding release_level erase_level_lookup
release_level-Without b queues side l v held = rw (v.sided side l held) (
    let b1 = ladder_remove side b l in
    let w = ladder_remove-Without b queues v side l held in
    let level = level_at b1 l in
    give_back-Without b (erase_level_lookup b1 level.side level.price) queues side l
      (omega (arith, (v.queue side l held).inside, w.count))
      (SamePools-Without b b1 _ queues side l (pools_same b1 _ refl refl refl refl refl refl) w))
