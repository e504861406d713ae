-- ===== src/Book/Whole/Reduce.antt =====
-- A whole book after an order of it and the total of its level are made smaller.
use market_order_book_engine.Base.{
  ℕ, ◌+◌, ◌^◌, ◌≤◌, ◌<◌, ◌≡◌, ◌≢◌, refl, sym, ap, ◌∙◌, subst, List, ◌∷◌, ◌++◌, All, arith, length,
  true, ◌==◌, ==_iff, if◌then◌else◌, if_both, sub64, Bool-cases, inl, inr,
}
use market_order_book_engine.Types.{Side}
use market_order_book_engine.Book.Table.{npos}
use market_order_book_engine.Book.State.{
  Book, Order, Level, order_at, level_at, set_order, set_level,
}
use market_order_book_engine.Book.State.Touched.{
  Touched, Touched-trans, set_order-Touched, set_level-Touched,
}
use market_order_book_engine.Book.Ladder.Swap.{Holds}
use market_order_book_engine.Book.Links.Chain.{Lacks, Linked-same}
use market_order_book_engine.Book.Links.Fifo.{IsQueue, quantity_of}
use market_order_book_engine.Book.Links.Cut.{
  All-map, All-zip, All-split, Linked-within, Distinct-Around, Linked-Parts, quantity_of-append,
  if_other,
}
use market_order_book_engine.Book.Links.Remove.{quantity_of-same}
use market_order_book_engine.Book.Whole.{IsBook, Lodged}
use market_order_book_engine.Book.Whole.Kin.{Kin, Touched-Kin}
use market_order_book_engine.Book.Whole.Queues.{IsManned, IsManned-same, Lodged-apart}
use market_order_book_engine.Book.Whole.Changes.{Kin-IsBook, manned, ends_of, order_of}
use market_order_book_engine.Book.Whole.Unlink.{SameMaker}

-- both writes
abbrev pub reduced : Book → ℕ → ℕ → ℕ → Book
reduced b l o t =
    let b1 = set_order b o (record (order_at b o) { quantity = sub64 (order_at b o).quantity t }) in
    set_level b1 l
      (record (level_at b1 l) { total_quantity = sub64 (level_at b1 l).total_quantity t })

-- The order `o` has `t` less, and the book is whole with the same queues.
pub record Reduced (o t : ℕ) (queues : ℕ → List ℕ) (b b' : Book) : Type 0 where
  pub book : IsBook b' queues
  pub kin : Kin b b'
  pub pool : length b'.orders ≡ length b.orders
  pub others : (x : ℕ) → x < length b.orders → x ≢ o → SameMaker b b' x
  pub id : (order_at b' o).id ≡ (order_at b o).id
  pub quantity : (order_at b' o).quantity + t ≡ (order_at b o).quantity

module _ (b : Book) (queues : ℕ → List ℕ) (v : IsBook b queues) (o : ℕ) (side : Side)
    (held : Holds side b (order_at b o).level) (ys zs : List ℕ)
    (here : queues (order_at b o).level ≡ ys ++ o ∷ zs) (t : ℕ)
    (part : t ≤ (order_at b o).quantity) where
  abbrev l : ℕ
  l = (order_at b o).level

  abbrev b' : Book
  b' = reduced b l o t

  queue : IsQueue b l (ys ++ o ∷ zs)
  queue = subst (IsQueue b l) here (v.queue side l held)

  lodged : All (Lodged b l) (ys ++ o ∷ zs)
  lodged = subst (All (Lodged b l)) here (v.lodged side l held)

  inside : o < length b.orders
  inside = (Linked-Parts b.orders o npos npos ys zs queue.linked).inside

  small : (order_at b o).quantity < 2 ^ 64
  small = (All-split (Lodged b l) ys (o ∷ zs) lodged).1.0.quantity

  change :
      Touched l
        (λ x w. if o == x then record w { quantity = sub64 w.quantity t } else w)
        (λ w. record w { total_quantity = sub64 w.total_quantity t })
        b
        b'
  change =
      Touched-trans (set_order-Touched b o (λ w. record w { quantity = sub64 w.quantity t }) inside)
        (set_level-Touched (set_order b o _)
          (λ w. record w { total_quantity = sub64 w.total_quantity t }) queue.inside)

  other : (x : ℕ) → x < length b.orders → x ≢ o → order_at b' x ≡ order_at b x
  other x h ne = change.order x h ∙ if_other o x _ _ (λ e. ne (sym e))

  mine : order_at b' o ≡ record (order_at b o) { quantity = sub64 (order_at b o).quantity t }
  mine = let same : (o == o) ≡ true = ground arith in change.order o inside ∙ rw same refl

  keeps :
      {A : Type 0} (x : ℕ) (p : Order → A)
      → x < length b.orders
      → p (record (order_at b x) { quantity = sub64 (order_at b x).quantity t }) ≡ p (order_at b x)
      → p (order_at b' x) ≡ p (order_at b x)
  keeps x p h e =
      ap p (change.order x h)
      ∙ if_both (λ (w : Order). p w ≡ p (order_at b x)) (o == x) (λ _. e) (λ _. refl)

  same_links :
      (x : ℕ)
      → x < length b.orders
      → ((order_at b' x).prev ≡ (order_at b x).prev) × ((order_at b' x).next ≡ (order_at b x).next)
  same_links x h = (keeps x Order.prev h refl, keeps x Order.next h refl)

  still : (x : ℕ) → x < length b.orders → Lodged b l x → Lodged b' l x
  still x h w = record {
    level = keeps x Order.level h refl ∙ w.level;
    quantity = elim (Bool-cases (o == x)) [
      | inl e ↦
          subst (λ k. (order_at b' k).quantity < 2 ^ 64) ((==_iff o x).0 e)
            (omega (arith, ap Order.quantity mine, small, part))
      | inr e ↦ omega (arith, ap Order.quantity (other x h (ground (arith, e))), w.quantity)
    ];
    active = keeps x Order.active h refl ∙ w.active;
  }

  within : All (λ x. x < length b.orders) (ys ++ o ∷ zs)
  within = Linked-within b.orders npos npos (ys ++ o ∷ zs) queue.linked

  same_quantity :
      (xs : List ℕ)
      → All (λ x. x < length b.orders) xs
      → Lacks o xs
      → quantity_of b'.orders xs ≡ quantity_of b.orders xs
  same_quantity xs h out =
      quantity_of-same b.orders b'.orders xs
        (All-zip (λ x i ne. ap Order.quantity (other x i ne)) xs h out)

  less : quantity_of b'.orders (ys ++ o ∷ zs) + t ≡ quantity_of b.orders (ys ++ o ∷ zs)
  less =
      let a = Distinct-Around o ys zs queue.distinct in
      let (front, (_, back)) = All-split (λ x. x < length b.orders) ys (o ∷ zs) within in
      omega (
        arith,
        quantity_of-append b'.orders ys (o ∷ zs),
        quantity_of-append b.orders ys (o ∷ zs),
        same_quantity ys front a.before,
        same_quantity zs back a.behind,
        ap Order.quantity mine,
        small,
        part,
      )

  own_queue : IsManned b' l (ys ++ o ∷ zs)
  own_queue = (
    record {
      inside = omega (arith, queue.inside, change.levels);
      small = omega (arith, queue.small, change.count);
      linked =
          Linked-same b.orders b'.orders npos npos (ys ++ o ∷ zs) change.count
            (All-map same_links (ys ++ o ∷ zs) within) queue.linked;
      distinct = queue.distinct;
      head = ap Level.head change.level ∙ queue.head;
      tail = ap Level.tail change.level ∙ queue.tail;
      count = ap Level.order_count change.level ∙ queue.count;
      total = omega (arith, ap Level.total_quantity change.level, queue.total, less, small, part);
    },
    All-zip still (ys ++ o ∷ zs) within lodged,
  )

  other_queue : (s : Side) (k : ℕ) → Holds s b k → k ≢ l → IsManned b' k (queues k)
  other_queue s k h ne =
      let out =
        (All-split (λ y. Lacks y (queues k)) ys (o ∷ zs)
          (Lodged-apart b k l (queues k) (ys ++ o ∷ zs) ne (v.lodged s k h) lodged)).1.0 in
      IsManned-same b b' k (queues k) change.count change.levels
        (ends_of b b' k (change.others k ne))
        (All-zip (λ x i n. order_of b b' x (other x i n)) (queues k)
          (Linked-within b.orders npos npos (queues k) (v.queue s k h).linked) out)
        (manned v s k h)

  pub reduced-Reduced : Reduced o t queues b (reduced b l o t)
  reduced-Reduced =
      let kin : Kin b b' = Touched-Kin change refl refl refl in
      record {
        book = Kin-IsBook queues queues kin v λ s k h. elim (Bool-cases (k == l)) [
          | inl e ↦
              subst (λ j. IsManned b' j (queues j)) (sym ((==_iff k l).0 e))
                (subst (IsManned b' l) (sym here) own_queue)
          | inr e ↦ other_queue s k h (ground (arith, e))
        ];
        kin = kin;
        pool = change.count;
        others = λ x h ne. (ap Order.id (other x h ne), ap Order.quantity (other x h ne));
        id = ap Order.id mine;
        quantity = omega (arith, ap Order.quantity mine, small, part);
      }
