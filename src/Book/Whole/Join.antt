-- ===== src/Book/Whole/Join.antt =====
-- A whole book after `link_tail`: an order that was in no queue has joined one.
use market_order_book_engine.Base.{
  ℕ, ◌≤◌, ◌<◌, ◌≡◌, ◌≢◌, ◌⊎◌, inl, inr, refl, sym, ap, ◌∙◌, subst, List, [], ◌∷◌, ◌++◌, All,
  All-append, arith, length, not, ◌==◌, ==_iff, if◌then◌else◌, if_both, add64, Bool-cases,
}
use market_order_book_engine.Types.{Side}
use market_order_book_engine.Book.Table.{npos}
use market_order_book_engine.Book.State.{
  Book, Order, Level, order_at, level_at, set_order, set_level,
}
use market_order_book_engine.Book.State.Touched.{
  Touched, Touched-trans, set_order-Touched, set_level-Touched,
}
use market_order_book_engine.Book.Ladder.Swap.{Holds}
use market_order_book_engine.Book.Links.{link_tail}
use market_order_book_engine.Book.Links.Chain.{last, Lacks}
use market_order_book_engine.Book.Links.Fifo.{IsQueue, last_in}
use market_order_book_engine.Book.Links.Append.{link_tail-IsQueue}
use market_order_book_engine.Book.Links.Leave.{IsLink, link-Touched}
use market_order_book_engine.Book.Links.Cut.{All-map, All-zip, last-All, Linked-within}
use market_order_book_engine.Book.Whole.{IsBook, Lodged}
use market_order_book_engine.Book.Whole.Kin.{Kin, Touched-Kin}
use market_order_book_engine.Book.Whole.Queues.{IsManned, Lodged-apart}
use market_order_book_engine.Book.Whole.Changes.{Kin-IsBook}
use market_order_book_engine.Book.Whole.Leave.{replaced}
use market_order_book_engine.Book.Whole.Unlink.{SameMaker}

-- the writes of `link_tail` in a book whose level `l` has the tail `t`
abbrev joined : ℕ → ℕ → ℕ → Order → Order
joined o t x v =
    let w : Order = if o == x then record v { prev = t; next = npos } else v in
    if t == x then record w { next = o } else w

abbrev grown : ℕ → ℕ → ℕ → Level → Level
grown o t q v =
    let w : Level = if t == npos then record v { head = o } else v in
    record w {
      tail = o;
      total_quantity = add64 w.total_quantity q;
      order_count = add64 w.order_count 1;
    }

module _ (b : Book) (o l : ℕ) (small : length b.orders ≤ npos) (inside : o < length b.orders)
    (level : l < length b.levels) (link : IsLink (level_at b l).tail b) where
  abbrev t : ℕ
  t = (level_at b l).tail

  abbrev b1 : Book
  b1 = set_order b o (record (order_at b o) { prev = t; next = npos })

  step1 : Touched l (λ x v. if o == x then record v { prev = t; next = npos } else v) (λ v. v) b b1
  step1 = set_order-Touched b o (λ v. record v { prev = t; next = npos }) inside

  abbrev b2 : Book
  b2 =
      if not (t == npos)
      then set_order b1 t (record (order_at b1 t) { next = o })
      else set_level b1 l (record (level_at b1 l) { head = o })

  step2 :
      Touched l
        (λ x v. if t == x then record v { next = o } else v)
        (λ v. if t == npos then record v { head = o } else v)
        b1
        b2
  step2 =
      link-Touched l b1 (omega (arith, step1.count, small)) level t (λ v. record v { next = o })
        (λ v. record v { head = o }) (subst (λ k. (t ≡ npos) ⊎ (t < k)) (sym step1.count) link)

  link_tail-Touched :
      Touched l (joined o t) (grown o t (order_at b2 o).quantity) b (link_tail b o l)
  unfolding link_tail
  link_tail-Touched = Touched-trans step1 (
      Touched-trans step2 (
        set_level-Touched b2
          (λ v. record v {
            tail = o;
            total_quantity = add64 v.total_quantity (order_at b2 o).quantity;
            order_count = add64 v.order_count 1;
          })
          (omega (arith, step2.levels, level))))

  -- what the order's links are not part of is the same
  link_tail-keeps :
      {A : Type 0} (p : Order → A)
      → ((v : Order) (a c : ℕ) → p (record v { prev = a; next = c }) ≡ p v)
      → ((v : Order) (c : ℕ) → p (record v { next = c }) ≡ p v)
      → (x : ℕ) → x < length b.orders
      → p (order_at (link_tail b o l) x) ≡ p (order_at b x)
  link_tail-keeps p e f x h =
      ap p (link_tail-Touched.order x h)
      ∙ if_both (λ (w : Order). p w ≡ p (order_at b x)) (t == x) (λ _. f _ o ∙ first) (λ _. first)
    where
      first :
          p (if o == x then record (order_at b x) { prev = t; next = npos } else order_at b x)
          ≡ p (order_at b x)
      first = if_both (λ (w : Order). p w ≡ p (order_at b x)) (o == x) (λ _. e _ t npos) (λ _. refl)

  link_tail-Kin : Kin b (link_tail b o l)
  link_tail-Kin =
      Touched-Kin link_tail-Touched (same Level.price (λ v a c d e. refl))
        (same Level.heap_pos (λ v a c d e. refl)) (same Level.side (λ v a c d e. refl))
    where
      same :
          {A : Type 0} (p : Level → A)
          → ((v : Level) (a c d e : ℕ)
              → p (record v { head = a; tail = c; total_quantity = d; order_count = e }) ≡ p v)
          → p (grown o t (order_at b2 o).quantity (level_at b l)) ≡ p (level_at b l)
      same p f = elim (Bool-cases (t == npos)) [
        | inl e ↦ rw e (f (level_at b l) o o _ _)
        | inr e ↦ rw e (f (level_at b l) (level_at b l).head o _ _)
      ]

module _ (b : Book) (queues : ℕ → List ℕ) (v : IsBook b queues) (side : Side) (l : ℕ)
    (held : Holds side b l) (o : ℕ) (inside : o < length b.orders) (own : Lodged b l o)
    (out : (s : Side) (k : ℕ) → Holds s b k → Lacks o (queues k)) where
  queue : IsQueue b l (queues l)
  queue = v.queue side l held

  within : (s : Side) (k : ℕ) → Holds s b k → All (λ x. x < length b.orders) (queues k)
  within s k h = let q = v.queue s k h in Linked-within b.orders npos npos (queues k) q.linked

  link : IsLink (level_at b l).tail b
  link = subst (λ i. IsLink i b) (sym queue.tail) (last_in b.orders npos (queues l) queue.linked)

  pub link_tail-same : Kin b (link_tail b o l)
  link_tail-same = link_tail-Kin b o l queue.small inside queue.inside link

  still : (k x : ℕ) → x < length b.orders → Lodged b k x → Lodged (link_tail b o l) k x
  still k x h w =
      let quantity =
        link_tail-keeps b o l queue.small inside queue.inside link Order.quantity (λ v a c. refl)
          (λ v c. refl) x h in
      record {
        level =
            link_tail-keeps b o l queue.small inside queue.inside link Order.level (λ v a c. refl)
              (λ v c. refl) x h
            ∙ w.level;
        quantity = omega (arith, quantity, w.quantity);
        active =
            link_tail-keeps b o l queue.small inside queue.inside link Order.active (λ v a c. refl)
              (λ v c. refl) x h
            ∙ w.active;
      }

  joins :
      IsQueue (link_tail b o l) l (queues l ++ o ∷ [])
      × ((k : ℕ) (ys : List ℕ)
          → k ≢ l
          → IsQueue b k ys
          → Lacks o ys
          → Lacks (last npos (queues l)) ys
          → IsQueue (link_tail b o l) k ys)
  joins = link_tail-IsQueue b o l (queues l) queue inside (out side l held)

  -- the last order of the level is not one of another level
  end_Lacks : (s : Side) (k : ℕ) → Holds s b k → k ≢ l → Lacks (last npos (queues l)) (queues k)
  end_Lacks s k h ne =
      last-All (λ y. Lacks y (queues k)) npos (queues l)
        (All-map (λ x i. omega (arith, i, queue.small)) (queues k) (within s k h))
        (Lodged-apart b k l (queues k) (queues l) ne (v.lodged s k h) (v.lodged side l held))

  -- The order joins the queue of its level, and the book stays whole.
  pub link_tail-IsBook : IsBook (link_tail b o l) (replaced queues l (queues l ++ o ∷ []))
  link_tail-IsBook = Kin-IsBook queues _ link_tail-same v λ s k h.
      if_both (IsManned (link_tail b o l) k) (k == l)
        (λ e.
          subst (λ j. IsManned (link_tail b o l) j (queues l ++ o ∷ [])) (sym ((==_iff k l).0 e))
            (joins.0, mine))
        λ e.
          let ne : k ≢ l = ground (arith, e) in
          (
            joins.1 k (queues k) ne (v.queue s k h) (out s k h) (end_Lacks s k h ne),
            All-zip (still k) (queues k) (within s k h) (v.lodged s k h),
          )
    where
      mine : All (Lodged (link_tail b o l) l) (queues l ++ o ∷ [])
      mine =
          All-append (Lodged (link_tail b o l) l) (queues l) (o ∷ [])
            (All-zip (still l) (queues l) (within side l held) (v.lodged side l held))
            (still l o inside own, tt)

  -- The orders keep their ids and quantities.
  pub link_tail-makers : (x : ℕ) → x < length b.orders → SameMaker b (link_tail b o l) x
  link_tail-makers x h = (
    link_tail-keeps b o l queue.small inside queue.inside link Order.id (λ v a c. refl)
        (λ v c. refl) x h,
    link_tail-keeps b o l queue.small inside queue.inside link Order.quantity (λ v a c. refl)
        (λ v c. refl) x h,
  )

  pub link_tail-pool : length (link_tail b o l).orders ≡ length b.orders
  link_tail-pool = (link_tail-Touched b o l queue.small inside queue.inside link).count

  pub link_tail-Lodged : Lodged (link_tail b o l) l o
  link_tail-Lodged = still l o inside own
