-- ===== src/Book/Links/Remove.antt =====
-- `leave_queue` takes an order out of the queue of its level.
use market_order_book_engine.Base.{
  ℕ, ◌^◌, ◌%◌, ◌<◌, ◌≡◌, ◌≢◌, inl, inr, refl, sym, ap, ◌∙◌, subst, List, [], ◌∷◌, ◌++◌, All, arith,
  length, append_nil, length-append, ◌==◌, if◌then◌else◌, get_or,
}
use market_order_book_engine.Book.Table.{npos}
use market_order_book_engine.Book.State.{Order, Level, fresh_order, Book, order_at}
use market_order_book_engine.Book.State.Touched.{Touched}
use market_order_book_engine.Book.Links.{leave_queue}
use market_order_book_engine.Book.Links.Chain.{first, last, Linked, Lacks, Linked-same}
use market_order_book_engine.Book.Links.Fifo.{quantity_of, IsQueue}
use market_order_book_engine.Book.Links.Leave.{IsLink, relinked, shortened, leave_queue-Touched}
use market_order_book_engine.Book.Links.Cut.{
  if_other, All-zip, All-map, All-split, last-All, first-All, Around, Distinct-Around, last-append,
  Linked-within, Parts, Linked-Parts, Linked-append, quantity_of-append, relink_front, relink_back,
}

pub quantity_of-same :
    (os os' : List Order) (xs : List ℕ)
    → All (λ x. (get_or os' x fresh_order).quantity ≡ (get_or os x fresh_order).quantity) xs
    → quantity_of os' xs ≡ quantity_of os xs
quantity_of-same os os' [] h = refl
quantity_of-same os os' (x ∷ xs) (e, h) = omega (arith, e, quantity_of-same os os' xs h)

module _ (b : Book) (o : ℕ) (ys zs : List ℕ)
    (v : IsQueue b (order_at b o).level (ys ++ o ∷ zs)) where
  abbrev l : ℕ
  l = (order_at b o).level

  abbrev pv : ℕ
  pv = (order_at b o).prev

  abbrev nx : ℕ
  nx = (order_at b o).next

  parts : Parts b.orders o npos npos ys zs
  parts = Linked-Parts b.orders o npos npos ys zs v.linked

  pub around : Around o ys zs
  around = Distinct-Around o ys zs v.distinct

  within_front : All (λ x. x < length b.orders) ys
  within_front = Linked-within b.orders npos o ys parts.front

  within_back : All (λ x. x < length b.orders) zs
  within_back = Linked-within b.orders o npos zs parts.back

  pub not_npos : (x : ℕ) → x < length b.orders → x ≢ npos
  not_npos x h = omega (arith, h, v.small)

  pub touched :
      Touched l (relinked o pv nx) (shortened pv nx (order_at b o).quantity) b (leave_queue b o)
  touched =
      leave_queue-Touched b o v.small parts.inside v.inside
        (subst (λ i. IsLink i b) (sym parts.prev)
          (last-All (λ i. IsLink i b) npos ys (inl refl) (All-map (λ x h. inr h) ys within_front)))
        (subst (λ i. IsLink i b) (sym parts.next)
          (first-All (λ i. IsLink i b) npos zs (inl refl) (All-map (λ x h. inr h) zs within_back)))
        (subst (λ i. i ≢ o) (sym parts.prev)
          (last-All (λ i. i ≢ o) npos ys (λ e. not_npos o parts.inside (sym e)) around.before))
        (subst (λ i. i ≢ o) (sym parts.next)
          (first-All (λ i. i ≢ o) npos zs (λ e. not_npos o parts.inside (sym e)) around.behind))

  -- an order of any queue but the one that leaves
  record Stays (x : ℕ) : Type 0 where
    prev : (order_at (leave_queue b o) x).prev ≡ (if nx == x then pv else (order_at b x).prev)
    next : (order_at (leave_queue b o) x).next ≡ (if pv == x then nx else (order_at b x).next)
    quantity : (order_at (leave_queue b o) x).quantity ≡ (order_at b x).quantity

  stays : (x : ℕ) → x < length b.orders → x ≢ o → Stays x
  stays x h ne =
      let at_x = touched.order x h ∙ if_other o x _ _ (λ e. ne (sym e)) in
      record {
        prev = ap Order.prev at_x;
        next = ap Order.next at_x;
        quantity = ap Order.quantity at_x;
      }

  -- along a list that holds neither the order nor its neighbours
  stay_all : (xs : List ℕ) → All (λ x. x < length b.orders) xs → Lacks o xs → All Stays xs
  stay_all xs h out = All-zip stays xs h out

  back_Lacks : Lacks pv zs
  back_Lacks =
      subst (λ i. Lacks i zs) (sym parts.prev)
        (last-All (λ i. Lacks i zs) npos ys (All-map not_npos zs within_back) around.apart)

  front_Lacks : Lacks nx ys
  front_Lacks = subst (λ i. Lacks i ys) (sym parts.next) (to_first zs around.apart)
    where
      to_first : (zs : List ℕ) → All (λ y. Lacks y zs) ys → Lacks (first zs npos) ys
      to_first [] h = All-map not_npos ys within_front
      to_first (z ∷ zs) h = All-map (λ y k e. k.0 (sym e)) ys h

  abbrev new_orders : List Order
  new_orders = (leave_queue b o).orders

  linked : Linked new_orders npos (ys ++ zs) npos
  linked =
      Linked-append new_orders npos npos ys zs
        (relink_front b.orders new_orders touched.count npos o (first zs npos) ys around.ends
          (All-zip
            (λ x (s : Stays x) ne. (
              s.prev ∙ if_other nx x _ _ (λ e. ne (sym e)),
              s.next
                  ∙ ap (λ k. if k == x then nx else (order_at b x).next) parts.prev
                  ∙ ap (λ k. if last npos ys == x then k else (order_at b x).next) parts.next,
            ))
            ys (stay_all ys within_front around.before) front_Lacks)
          parts.front)
        (relink_back b.orders new_orders touched.count o (last npos ys) npos zs around.tails
          (All-zip
            (λ x (s : Stays x) ne. (
              s.prev
                  ∙ ap (λ k. if k == x then pv else (order_at b x).prev) parts.next
                  ∙ ap (λ k. if first zs npos == x then k else (order_at b x).prev) parts.prev,
              s.next ∙ if_other pv x _ _ (λ e. ne (sym e)),
            ))
            zs (stay_all zs within_back around.behind) back_Lacks)
          parts.back)

  new_head : (if pv == npos then nx else first (ys ++ o ∷ zs) npos) ≡ first (ys ++ zs) npos
  new_head =
      subst (λ k. (if k == npos then nx else first (ys ++ o ∷ zs) npos) ≡ first (ys ++ zs) npos)
        (sym parts.prev) (from ys within_front)
    where
      from :
          (ys : List ℕ)
          → All (λ x. x < length b.orders) ys
          → (if last npos ys == npos then nx else first (ys ++ o ∷ zs) npos) ≡ first (ys ++ zs) npos
      from [] h = parts.next
      from (y ∷ ys) h =
          if_other (last y ys) npos _ _
            (last-All (λ x. x ≢ npos) y ys (not_npos y h.0) (All-map not_npos ys h.1))

  new_tail : (if nx == npos then pv else last npos (ys ++ o ∷ zs)) ≡ last npos (ys ++ zs)
  new_tail =
      subst (λ k. (if k == npos then pv else last npos (ys ++ o ∷ zs)) ≡ last npos (ys ++ zs))
        (sym parts.next) (from zs within_back)
    where
      from :
          (zs : List ℕ)
          → All (λ x. x < length b.orders) zs
          → (if first zs npos == npos then pv else last npos (ys ++ o ∷ zs)) ≡ last npos (ys ++ zs)
      from [] h = parts.prev ∙ ap (last npos) (sym (append_nil ys))
      from (z ∷ zs) h =
          if_other z npos _ _ (not_npos z h.0)
          ∙ last-append npos o ys (z ∷ zs)
          ∙ sym (last-append npos z ys zs)

  leave_queue_lem : (order_at b o).quantity < 2 ^ 64 → IsQueue (leave_queue b o) l (ys ++ zs)
  leave_queue_lem small =
      let level = touched.level in
      let front =
        quantity_of-same b.orders new_orders ys
          (All-map (λ x (s : Stays x). s.quantity) ys (stay_all ys within_front around.before)) in
      let back =
        quantity_of-same b.orders new_orders zs
          (All-map (λ x (s : Stays x). s.quantity) zs (stay_all zs within_back around.behind)) in
      record {
        inside = omega (arith, touched.levels, v.inside);
        small = omega (arith, touched.count, v.small);
        linked = linked;
        distinct = around.rest;
        head = ap Level.head level ∙ ap (λ k. if pv == npos then nx else k) v.head ∙ new_head;
        tail = ap Level.tail level ∙ ap (λ k. if nx == npos then pv else k) v.tail ∙ new_tail;
        count = omega (
          arith,
          ap Level.order_count level,
          v.count,
          length-append ys (o ∷ zs),
          length-append ys zs,
        );
        total = omega (
          arith,
          ap Level.total_quantity level,
          v.total,
          small,
          front,
          back,
          quantity_of-append b.orders ys (o ∷ zs),
          quantity_of-append new_orders ys zs,
        );
      }

  -- The queue of another level, that shares no order with this one.
  leave_queue-others :
      (k : ℕ) (xs : List ℕ)
      → k ≢ l
      → IsQueue b k xs
      → All (λ y. Lacks y xs) (ys ++ o ∷ zs)
      → IsQueue (leave_queue b o) k xs
  leave_queue-others k xs ne u apart =
      let same = touched.others k ne in
      let within = Linked-within b.orders npos npos xs u.linked in
      let (front, (here, back)) = All-split (λ y. Lacks y xs) ys (o ∷ zs) apart in
      let outside = All-map not_npos xs within in
      let off_prev =
        subst (λ i. Lacks i xs) (sym parts.prev)
          (last-All (λ i. Lacks i xs) npos ys outside front) in
      let off_next =
        subst (λ i. Lacks i xs) (sym parts.next)
          (first-All (λ i. Lacks i xs) npos zs outside back) in
      let all = stay_all xs within here in
      record {
        inside = omega (arith, touched.levels, u.inside);
        small = omega (arith, touched.count, v.small);
        linked =
            Linked-same b.orders new_orders npos npos xs touched.count
              (All-zip
                (λ x (s : Stays x) (h : (x ≢ pv) × (x ≢ nx)). (
                  s.prev ∙ if_other nx x _ _ (λ e. h.1 (sym e)),
                  s.next ∙ if_other pv x _ _ (λ e. h.0 (sym e)),
                ))
                xs all (All-zip (λ x p n. (p, n)) xs off_prev off_next))
              u.linked;
        distinct = u.distinct;
        head = ap Level.head same ∙ u.head;
        tail = ap Level.tail same ∙ u.tail;
        count = ap Level.order_count same ∙ u.count;
        total =
            ap Level.total_quantity same
            ∙ u.total
            ∙ ap (λ n. n % 2 ^ 64)
                (sym (
                  quantity_of-same b.orders new_orders xs
                    (All-map (λ x (s : Stays x). s.quantity) xs all)));
      }

-- An order of a queue leaves it, wherever it stands: the queue of its level then holds the orders before it
-- and those behind it, linked both ways, and a queue of another level that shares no order with it is kept.
pub leave_queue-IsQueue :
    (b : Book) (o : ℕ) (ys zs : List ℕ)
    → IsQueue b (order_at b o).level (ys ++ o ∷ zs)
    → (order_at b o).quantity < 2 ^ 64
    → IsQueue (leave_queue b o) (order_at b o).level (ys ++ zs)
      × ((k : ℕ) (xs : List ℕ)
          → k ≢ (order_at b o).level
          → IsQueue b k xs
          → All (λ y. Lacks y xs) (ys ++ o ∷ zs)
          → IsQueue (leave_queue b o) k xs)
leave_queue-IsQueue b o ys zs v small =
    (leave_queue_lem b o ys zs v small, leave_queue-others b o ys zs v)
