-- ===== src/Book/Whole/Unlink.antt =====
-- A whole book after `unlink` and `free_order_slot`: an order has left it.
use market_order_book_engine.Base.{
  ℕ, ◌+◌, ◌≤◌, ◌<◌, if◌then◌else◌, ◌≡◌, ◌≢◌, ◌↔◌, refl, sym, ap, ◌∙◌, subst, List, [], ◌∷◌, ◌++◌,
  All, arith, length, get_or, true, false, ◌==◌,
}
use market_order_book_engine.Types.{Side}
use market_order_book_engine.Book.Table.{npos}
use market_order_book_engine.Book.State.{Book, Order, fresh_order, order_at, level_at, set_order}
use market_order_book_engine.Book.State.Touched.{Touched, set_order-Touched}
use market_order_book_engine.Book.Ladder.{size_of}
use market_order_book_engine.Book.Ladder.Swap.{Holds}
use market_order_book_engine.Book.Links.{leave_queue, release_level, unlink, free_order_slot}
use market_order_book_engine.Book.Links.Chain.{Lacks}
use market_order_book_engine.Book.Links.Fifo.{IsQueue}
use market_order_book_engine.Book.Links.Bounds.{length-queue}
use market_order_book_engine.Book.Links.Cut.{All-zip, Linked-within, if_other}
use market_order_book_engine.Book.Whole.{IsBook}
use market_order_book_engine.Book.Whole.Kin.{Kin, Touched-Kin}
use market_order_book_engine.Book.Whole.Queues.{IsManned-same}
use market_order_book_engine.Book.Whole.Changes.{
  Kin-IsBook, Kin-Holds, manned, SamePools, pools_same, SamePools-Kin, SamePools-IsBook, ends_of,
  order_of,
}
use market_order_book_engine.Book.Whole.Leave.{
  replaced, replaced_same, leave_queue-Kin, leave_queue-IsBook, leave_queue-Lacks,
  leave_queue-makers, leave_queue-lengths,
}
use market_order_book_engine.Book.Whole.Release.{release_level-Without}

-- 1 if nothing is left
abbrev pub gone : {A : Type 0} → List A → ℕ
gone [] = 1
gone (x ∷ xs) = 0

-- The id and the quantity of an order are the same.
abbrev pub SameMaker : Book → Book → ℕ → Type 0
SameMaker b b' x =
    ((order_at b' x).id ≡ (order_at b x).id) × ((order_at b' x).quantity ≡ (order_at b x).quantity)

-- The order `o` has left the level `l` of the side, which keeps the queue `rest`: with no order left,
-- the level is gone from the ladder.
pub record Left (side : Side) (l o : ℕ) (queues : ℕ → List ℕ) (rest : List ℕ) (b b' : Book)
    : Type 0 where
  pub book : IsBook b' (replaced queues l rest)
  pub holds : (s : Side) (k : ℕ) → Holds s b' k ↔ (Holds s b k × (rest ≡ [] → k ≢ l))
  pub size : size_of side b' + gone rest ≡ size_of side b
  pub pool : length b'.orders ≡ length b.orders
  pub count : length b'.levels ≡ length b.levels
  pub price : (k : ℕ) → (level_at b' k).price ≡ (level_at b k).price
  pub makers : (x : ℕ) → x < length b.orders → x ≢ o → SameMaker b b' x
  pub out : (s : Side) (k : ℕ) → Holds s b' k → Lacks o (replaced queues l rest k)

module _ (side : Side) (l o : ℕ) (queues : ℕ → List ℕ) (rest : List ℕ) (b b1 : Book)
    (w : Left side l o queues rest b b1) where
  -- changes of the free lists and of the tables
  pub SamePools-Left : (b2 : Book) → SamePools b1 b2 → Left side l o queues rest b b2
  SamePools-Left b2 s =
      let kin = SamePools-Kin s in
      record {
        book = SamePools-IsBook (replaced queues l rest) s w.book;
        holds = λ t k. (
          (λ h. (w.holds t k).0 ((Kin-Holds kin t k).0 h)),
          (λ h. (Kin-Holds kin t k).1 ((w.holds t k).1 h)),
        );
        size = omega (arith, w.size, kin.size side);
        pool = ap length s.orders ∙ w.pool;
        count = kin.count ∙ w.count;
        price = λ k. kin.price k ∙ w.price k;
        makers = λ x h ne.
            let m = w.makers x h ne in
            let e = ap (λ os. get_or os x fresh_order) s.orders in
            (ap Order.id e ∙ m.0, ap Order.quantity e ∙ m.1);
        out = λ t k h. w.out t k ((Kin-Holds kin t k).0 h);
      }

  -- The order that left is written.
  pub set_order-Left :
      (f : Order → Order)
      → o < length b.orders
      → Left side l o queues rest b (set_order b1 o (f (order_at b1 o)))
  set_order-Left f inside =
      let b2 = set_order b1 o (f (order_at b1 o)) in
      let t : Touched l (λ x v. if o == x then f v else v) (λ v. v) b1 b2 =
        set_order-Touched b1 o f (omega (arith, inside, w.pool)) in
      let kin : Kin b1 b2 = Touched-Kin t refl refl refl in
      let other : (x : ℕ) → x < length b1.orders → x ≢ o → order_at b2 x ≡ order_at b1 x =
        λ x h ne. t.order x h ∙ if_other o x _ _ (λ e. ne (sym e)) in
      record {
        book = Kin-IsBook (replaced queues l rest) (replaced queues l rest) kin w.book λ s k h.
            let (q, m) = manned w.book s k h in
            IsManned-same b1 b2 k _ t.count t.levels (ends_of b1 b2 k refl)
              (All-zip (λ x i ne. order_of b1 b2 x (other x i ne)) _
                (Linked-within b1.orders npos npos _ q.linked) (w.out s k h))
              (q, m);
        holds = λ t k. (
          (λ h. (w.holds t k).0 ((Kin-Holds kin t k).0 h)),
          (λ h. (Kin-Holds kin t k).1 ((w.holds t k).1 h)),
        );
        size = omega (arith, w.size, kin.size side);
        pool = t.count ∙ w.pool;
        count = t.levels ∙ w.count;
        price = λ k. kin.price k ∙ w.price k;
        makers = λ x h ne.
            let m = w.makers x h ne in
            let e = other x (omega (arith, h, w.pool)) ne in
            (ap Order.id e ∙ m.0, ap Order.quantity e ∙ m.1);
        out = λ t k h. w.out t k ((Kin-Holds kin t k).0 h);
      }

-- The slot of the order that left goes back on the free list.
pub free_order_slot-Left :
    (side : Side) (l o : ℕ) (queues : ℕ → List ℕ) (rest : List ℕ) (b b1 : Book)
    → Left side l o queues rest b b1
    → o < length b.orders
    → Left side l o queues rest b (free_order_slot b1 o)
unfolding free_order_slot
free_order_slot-Left side l o queues rest b b1 w inside =
    SamePools-Left side l o queues rest b _
      (set_order-Left side l o queues rest b b1 w
        (λ v. record v { active = false; next_free = b1.free_order }) inside)
      (free_order_slot b1 o) (pools_same _ _ refl refl refl refl refl refl)

module _ (b : Book) (queues : ℕ → List ℕ) (v : IsBook b queues) (o : ℕ) (side : Side)
    (held : Holds side b (order_at b o).level) (ys zs : List ℕ)
    (here : queues (order_at b o).level ≡ ys ++ o ∷ zs) where
  abbrev l : ℕ
  l = (order_at b o).level

  abbrev b1 : Book
  b1 = leave_queue b o

  kin : Kin b b1
  kin = leave_queue-Kin b queues v o side held ys zs here

  whole : IsBook b1 (replaced queues l (ys ++ zs))
  whole = leave_queue-IsBook b queues v o side held ys zs here

  held1 : Holds side b1 l
  held1 = (Kin-Holds kin side l).1 held

  queue : IsQueue b1 l (ys ++ zs)
  queue = subst (IsQueue b1 l) (replaced_same queues l (ys ++ zs)) (whole.queue side l held1)

  pub unlink-Left : Left side l o queues (ys ++ zs) b (unlink b o)
  unfolding unlink
  unlink-Left = cases (ys ++ zs) refl
    where
      few : length (ys ++ zs) ≤ length b1.orders
      few = length-queue b1 l (ys ++ zs) queue

      lengths : (length b1.orders ≡ length b.orders) × (length b1.levels ≡ length b.levels)
      lengths = leave_queue-lengths b queues v o side held ys zs here

      cases :
          (rest : List ℕ)
          → ys ++ zs ≡ rest
          → Left side l o queues rest b
              (if (level_at b1 l).order_count == 0 then release_level b1 l else b1)
      cases [] e =
          let none_left : ((level_at b1 l).order_count == 0) ≡ true =
            ground (arith, queue.count, ap length e) in
          let w = release_level-Without b1 (replaced queues l (ys ++ zs)) side l whole held1 in
          rw none_left record {
            book = subst (λ xs. IsBook (release_level b1 l) (replaced queues l xs)) e w.book;
            holds = λ s k. (
              (λ h. let g = (w.holds s k).0 h in ((Kin-Holds kin s k).0 g.0, λ _. g.1)),
              (λ (h, ne). (w.holds s k).1 ((Kin-Holds kin s k).1 h, ne refl)),
            );
            size = omega (arith, w.size, kin.size side);
            pool = ap length w.orders ∙ lengths.0;
            count = w.count ∙ lengths.1;
            price = λ k. w.price k ∙ kin.price k;
            makers = λ x h ne.
                let m = leave_queue-makers b queues v o side held ys zs here x h in
                let q = ap (λ os. get_or os x fresh_order) w.orders in
                (ap Order.id q ∙ m.0, ap Order.quantity q ∙ m.1);
            out = λ s k h.
                subst (λ xs. Lacks o (replaced queues l xs k)) e
                  (leave_queue-Lacks b queues v o side held ys zs here s k
                    ((Kin-Holds kin s k).0 ((w.holds s k).0 h).0));
          }
      cases (x ∷ xs) e =
          let some_left : ((level_at b1 l).order_count == 0) ≡ false =
            ground (arith, queue.count, ap length e, few, queue.small) in
          rw some_left record {
            book = subst (λ xs. IsBook b1 (replaced queues l xs)) e whole;
            holds = λ s k. (
              (λ h. ((Kin-Holds kin s k).0 h, λ q. absurd (cc))),
              (λ (h, ne). (Kin-Holds kin s k).1 h),
            );
            size = omega (arith, kin.size side);
            pool = lengths.0;
            count = lengths.1;
            price = kin.price;
            makers = λ x h ne. leave_queue-makers b queues v o side held ys zs here x h;
            out = λ s k h.
                subst (λ xs. Lacks o (replaced queues l xs k)) e
                  (leave_queue-Lacks b queues v o side held ys zs here s k
                    ((Kin-Holds kin s k).0 h));
          }

  pub in_pool : o < length b.orders
  in_pool = member ys (
      Linked-within b.orders npos npos (ys ++ o ∷ zs)
        (subst (IsQueue b l) here (v.queue side l held)).linked)
    where
      member : (ys : List ℕ) → All (λ x. x < length b.orders) (ys ++ o ∷ zs) → o < length b.orders
      member [] h = h.0
      member (y ∷ ys) h = member ys h.1

  -- The order leaves the book, wherever it stands in its queue.
  pub leaves-Left : Left side l o queues (ys ++ zs) b (free_order_slot (unlink b o) o)
  leaves-Left = free_order_slot-Left side l o queues (ys ++ zs) b (unlink b o) unlink-Left in_pool

-- The same of a book with the same pools.
pub Left-SamePools :
    (side : Side) (l o : ℕ) (queues : ℕ → List ℕ) (rest : List ℕ) (b b1 b2 : Book)
    → SamePools b b1
    → Left side l o queues rest b1 b2
    → Left side l o queues rest b b2
Left-SamePools side l o queues rest b b1 b2 s w =
    let kin = SamePools-Kin s in
    record {
      book = w.book;
      holds = λ t k. (
        (λ h. let g = (w.holds t k).0 h in ((Kin-Holds kin t k).0 g.0, g.1)),
        (λ (h, ne). (w.holds t k).1 ((Kin-Holds kin t k).1 h, ne)),
      );
      size = omega (arith, w.size, kin.size side);
      pool = w.pool ∙ ap length s.orders;
      count = w.count ∙ kin.count;
      price = λ k. w.price k ∙ kin.price k;
      makers = λ x h ne.
          let m = w.makers x (omega (arith, h, ap length s.orders)) ne in
          let q = ap (λ os. get_or os x fresh_order) s.orders in
          (m.0 ∙ ap Order.id q, m.1 ∙ ap Order.quantity q);
      out = w.out;
    }
