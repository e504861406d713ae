-- ===== src/Book/Links/Leave.antt =====
-- What `leave_queue` makes of the orders and of the level.
use market_order_book_engine.Base.{
  ℕ, ◌≤◌, ◌<◌, ◌≡◌, ◌≢◌, ◌⊎◌, refl, sym, ◌∙◌, subst, Bool, true, false, not, arith, length, ◌==◌,
  if◌then◌else◌, Bool-cases, inl, inr, sub64,
}
use market_order_book_engine.Book.Table.{npos}
use market_order_book_engine.Book.State.{
  Order, Level, Book, order_at, level_at, set_order, set_level,
}
use market_order_book_engine.Book.State.Touched.{
  Touched, Touched-trans, Touched-as, set_order-Touched, set_level-Touched,
}
use market_order_book_engine.Book.Links.{leave_queue}

-- an index of an order, or none
abbrev pub IsLink : ℕ → Book → Type 0
IsLink i b = (i ≡ npos) ⊎ (i < length b.orders)

module _ (l : ℕ) (b : Book) (small : length b.orders ≤ npos) (level : l < length b.levels) where
  -- a write of an order that is linked, or else of the level
  pub link-Touched :
      (i : ℕ) (f : Order → Order) (g : Level → Level)
      → IsLink i b
      → Touched l
          (λ x v. if i == x then f v else v)
          (λ v. if i == npos then g v else v)
          b
          (if not (i == npos)
            then set_order b i (f (order_at b i))
            else set_level b l (g (level_at b l)))
  link-Touched i f g at = elim (Bool-cases (i == npos)) [
    | inl e ↦ rw e (
        Touched-as (set_level-Touched b g level) (λ x h. unread x (ground (arith, e, h, small)))
          refl)
    | inr e ↦ rw e (set_order-Touched b i f (ground (arith, at, e)))
  ]
    where
      unread :
          (x : ℕ)
          → (i == x) ≡ false
          → order_at b x ≡ (if i == x then f (order_at b x) else order_at b x)
      unread x e = rw e refl

-- the changes of `leave_queue` for the order `o` with the links `p` and `n`, of quantity `q`
abbrev pub relinked : ℕ → ℕ → ℕ → ℕ → Order → Order
relinked o p n x v =
    if o == x
    then record v { prev = npos; next = npos }
    else record v { prev = if n == x then p else v.prev; next = if p == x then n else v.next }

abbrev pub shortened : ℕ → ℕ → ℕ → Level → Level
shortened p n q v = record v {
  head = if p == npos then n else v.head;
  tail = if n == npos then p else v.tail;
  total_quantity = sub64 v.total_quantity q;
  order_count = sub64 v.order_count 1;
}

-- the three writes of an order in one
relinked_lem :
    (p n : ℕ) (at_o at_n at_p : Bool) (v : Order)
    → (let v1 : Order = if at_p then record v { next = n } else v in
        let v2 : Order = if at_n then record v1 { prev = p } else v1 in
        if at_o then record v2 { prev = npos; next = npos } else v2)
      ≡ (if at_o
          then record v { prev = npos; next = npos }
          else record v { prev = if at_n then p else v.prev; next = if at_p then n else v.next })
relinked_lem p n true true true v = refl
relinked_lem p n true true false v = refl
relinked_lem p n true false true v = refl
relinked_lem p n true false false v = refl
relinked_lem p n false true true v = refl
relinked_lem p n false true false v = refl
relinked_lem p n false false true v = refl
relinked_lem p n false false false v = refl

shortened_lem :
    (p n q : ℕ) (no_p no_n : Bool) (v : Level)
    → (let v1 : Level = if no_p then record v { head = n } else v in
        let v2 : Level = if no_n then record v1 { tail = p } else v1 in
        record v2 {
          total_quantity = sub64 v2.total_quantity q;
          order_count = sub64 v2.order_count 1;
        })
      ≡ record v {
        head = if no_p then n else v.head;
        tail = if no_n then p else v.tail;
        total_quantity = sub64 v.total_quantity q;
        order_count = sub64 v.order_count 1;
      }
shortened_lem p n q true true v = refl
shortened_lem p n q true false v = refl
shortened_lem p n q false true v = refl
shortened_lem p n q false false v = refl

module _ (b : Book) (o : ℕ) (small : length b.orders ≤ npos) (inside : o < length b.orders)
    (level : (order_at b o).level < length b.levels) (prev : IsLink (order_at b o).prev b)
    (next : IsLink (order_at b o).next b) (apart_prev : (order_at b o).prev ≢ o)
    (apart_next : (order_at b o).next ≢ o) where
  abbrev l : ℕ
  l = (order_at b o).level

  abbrev o1 : Order
  o1 = order_at b o

  abbrev b1 : Book
  b1 =
      if not (o1.prev == npos)
      then set_order b o1.prev (record (order_at b o1.prev) { next = o1.next })
      else set_level b l (record (level_at b l) { head = o1.next })

  step1 :
      Touched l
        (λ x v. if o1.prev == x then record v { next = o1.next } else v)
        (λ v. if o1.prev == npos then record v { head = o1.next } else v)
        b
        b1
  step1 =
      link-Touched l b small level o1.prev (λ v. record v { next = o1.next })
        (λ v. record v { head = o1.next }) prev

  unequal : (x y : ℕ) → x ≢ y → (x == y) ≡ false
  unequal x y h = ground (arith, h)

  same1 : order_at b1 o ≡ o1
  same1 = step1.order o inside ∙ rw (unequal o1.prev o apart_prev) refl

  abbrev b2 : Book
  b2 =
      let o2 = order_at b1 o in
      if not (o2.next == npos)
      then set_order b1 o2.next (record (order_at b1 o2.next) { prev = o2.prev })
      else set_level b1 l (record (level_at b1 l) { tail = o2.prev })

  step2 :
      Touched l
        (λ x v. if o1.next == x then record v { prev = o1.prev } else v)
        (λ v. if o1.next == npos then record v { tail = o1.prev } else v)
        b1
        b2
  step2 =
      let o2 = order_at b1 o in
      subst
        (λ (w : Order).
          Touched l (λ x v. if w.next == x then record v { prev = w.prev } else v)
            (λ v. if w.next == npos then record v { tail = w.prev } else v) b1 b2)
        same1
        (link-Touched l b1 (omega (arith, step1.count, small)) (omega (arith, step1.levels, level))
          o2.next (λ v. record v { prev = o2.prev }) (λ v. record v { tail = o2.prev })
          (subst (λ (w : Order). IsLink w.next b1) (sym same1)
            (subst (λ k. (o1.next ≡ npos) ⊎ (o1.next < k)) (sym step1.count) next)))

  same2 : order_at b2 o ≡ o1
  same2 =
      step2.order o (omega (arith, step1.count, inside)) ∙ rw (unequal o1.next o apart_next) same1

  abbrev b3 : Book
  b3 =
      let level = level_at b2 l in
      set_level b2 l (record level {
        total_quantity = sub64 level.total_quantity (order_at b2 o).quantity;
        order_count = sub64 level.order_count 1;
      })

  step3 :
      Touched l
        (λ x v. v)
        (λ v. record v {
          total_quantity = sub64 v.total_quantity o1.quantity;
          order_count = sub64 v.order_count 1;
        })
        b2
        b3
  step3 =
      subst
        (λ (w : Order).
          Touched l (λ x v. v)
            (λ v. record v {
              total_quantity = sub64 v.total_quantity w.quantity;
              order_count = sub64 v.order_count 1;
            })
            b2 b3)
        same2
        (set_level-Touched b2
          (λ v. record v {
            total_quantity = sub64 v.total_quantity (order_at b2 o).quantity;
            order_count = sub64 v.order_count 1;
          })
          (omega (arith, step1.levels, step2.levels, level)))

  step4 :
      Touched l
        (λ x v. if o == x then record v { prev = npos; next = npos } else v)
        (λ v. v)
        b3
        (set_order b3 o (record (order_at b3 o) { prev = npos; next = npos }))
  step4 =
      set_order-Touched b3 o (λ v. record v { prev = npos; next = npos })
        (omega (arith, step3.count, step2.count, step1.count, inside))

  pub leave_queue-Touched :
      Touched l
        (relinked o o1.prev o1.next)
        (shortened o1.prev o1.next o1.quantity)
        b
        (leave_queue b o)
  unfolding leave_queue
  leave_queue-Touched =
      Touched-as (Touched-trans step1 (Touched-trans step2 (Touched-trans step3 step4)))
        (λ x h. relinked_lem o1.prev o1.next (o == x) (o1.next == x) (o1.prev == x) (order_at b x))
        (shortened_lem o1.prev o1.next o1.quantity (o1.prev == npos) (o1.next == npos)
          (level_at b l))
