-- ===== src/Book/Links/Append.antt =====
-- `link_tail` appends an order to the queue of a level.
use market_order_book_engine.Base.{
  ℕ, ◌<◌, ◌≡◌, ◌≢◌, ◌⊎◌, inl, inr, refl, sym, get_or, set, get_or-set, length-set, length-append,
  ap, ◌∙◌, subst, List, [], ◌∷◌, ◌++◌, All, arith, length, ◌==◌, add64, if◌then◌else◌, Bool-cases,
  true, false,
}
use market_order_book_engine.Book.Table.{npos}
use market_order_book_engine.Book.State.{
  Book, Level, fresh_order, fresh_level, order_at, level_at, set_level,
}
use market_order_book_engine.Book.Links.{link_tail}
use market_order_book_engine.Book.Links.Chain.{last, Linked, Lacks, Linked-same, Linked-snoc}
use market_order_book_engine.Book.Links.Fifo.{
  quantity_of, IsQueue, last_in, last_apart, first-snoc, Distinct-snoc, quantity_of-snoc, last-snoc,
  with_entered, extended, linked_orders, length-linked_orders, linked_entered, kept_prev, kept_next,
  kept_quantity, kept_links,
}

module _ (b : Book) (o l : ℕ) where
  abbrev old_tail : ℕ
  old_tail = (level_at b l).tail

  link_tail-orders : (link_tail b o l).orders ≡ linked_orders b.orders o old_tail
  unfolding link_tail
  link_tail-orders = elim (Bool-cases (old_tail == npos)) [ inl e ↦ rw e refl | inr e ↦ rw e refl ]

  -- the level behind `link_tail`
  record Lengthened (b' : Book) : Type 0 where
    head : (level_at b' l).head ≡ (if old_tail == npos then o else (level_at b l).head)
    tail : (level_at b' l).tail ≡ o
    count : (level_at b' l).order_count ≡ add64 (level_at b l).order_count 1
    total :
        (level_at b' l).total_quantity
        ≡ add64
            (level_at b l).total_quantity
            (get_or (linked_orders b.orders o old_tail) o fresh_order).quantity
    levels : length b'.levels ≡ length b.levels
    others : (k : ℕ) → k ≢ l → level_at b' k ≡ level_at b k

  -- the last statements of `link_tail`
  abbrev count_in : Book → Book
  count_in b2 =
      let level = level_at b2 l in
      set_level b2 l (record level {
        tail = o;
        total_quantity = add64 level.total_quantity (order_at b2 o).quantity;
        order_count = add64 level.order_count 1;
      })

  level_set-same :
      (levels : List Level) (v : Level)
      → l < length levels
      → get_or (set levels l v) l fresh_level ≡ v
  level_set-same levels v inside =
      let same : (l == l) ≡ true = ground arith in
      get_or-set levels l l v fresh_level inside ∙ rw same refl

  level_set-other :
      (levels : List Level) (v : Level) (k : ℕ)
      → l < length levels
      → k ≢ l
      → get_or (set levels l v) k fresh_level ≡ get_or levels k fresh_level
  level_set-other levels v k inside ne =
      let other : (l == k) ≡ false = ground (arith, ne) in
      get_or-set levels l k v fresh_level inside ∙ rw other refl

  count_in-Lengthened :
      (b2 : Book)
      → l < length b.levels
      → length b2.levels ≡ length b.levels
      → b2.orders ≡ linked_orders b.orders o old_tail
      → (level_at b2 l).head ≡ (if old_tail == npos then o else (level_at b l).head)
      → (level_at b2 l).total_quantity ≡ (level_at b l).total_quantity
      → (level_at b2 l).order_count ≡ (level_at b l).order_count
      → ((k : ℕ) → k ≢ l → level_at b2 k ≡ level_at b k)
      → Lengthened (count_in b2)
  count_in-Lengthened b2 inside e same hd tot cnt others =
      let inside2 : l < length b2.levels = omega (arith, inside, e) in
      let at_l =
        level_set-same b2.levels
          (record (level_at b2 l) {
            tail = o;
            total_quantity = add64 (level_at b2 l).total_quantity (order_at b2 o).quantity;
            order_count = add64 (level_at b2 l).order_count 1;
          })
          inside2 in
      record {
        head = ap Level.head at_l ∙ hd;
        tail = ap Level.tail at_l;
        count = ap Level.order_count at_l ∙ ap (λ n. add64 n 1) cnt;
        total =
            ap Level.total_quantity at_l
            ∙ ap (λ n. add64 n (order_at b2 o).quantity) tot
            ∙ ap (λ os. add64 (level_at b l).total_quantity (get_or os o fresh_order).quantity)
                same;
        levels = length-set b2.levels l _ ∙ e;
        others = λ k ne. level_set-other b2.levels _ k inside2 ne ∙ others k ne;
      }

  link_tail-Lengthened : l < length b.levels → Lengthened (link_tail b o l)
  unfolding link_tail
  link_tail-Lengthened inside = elim (Bool-cases (old_tail == npos)) [
    | inl e ↦
        let h = record (level_at b l) { head = o } in
        let at_l = level_set-same b.levels h inside in
        rw e (
          count_in-Lengthened
            (record b { orders = with_entered b.orders o old_tail; levels = set b.levels l h })
            inside (length-set b.levels l h) (rw e refl) (ap Level.head at_l ∙ rw e refl)
            (ap Level.total_quantity at_l) (ap Level.order_count at_l)
            (λ k ne. level_set-other b.levels h k inside ne))
    | inr e ↦ rw e (
        count_in-Lengthened
          (record b {
            orders = set (with_entered b.orders o old_tail) old_tail (extended b.orders o old_tail);
          })
          inside refl (rw e refl) (rw e refl) refl refl (λ k ne. refl))
  ]

  tail_in : (xs : List ℕ) → IsQueue b l xs → (old_tail ≡ npos) ⊎ (old_tail < length b.orders)
  tail_in xs v =
      subst (λ k. (k ≡ npos) ⊎ (k < length b.orders)) (sym v.tail)
        (last_in b.orders npos xs v.linked)

  tail_apart : (xs : List ℕ) → IsQueue b l xs → o < length b.orders → Lacks o xs → o ≢ old_tail
  tail_apart xs v in_o out = λ e. last_apart o xs (omega (arith, in_o, v.small)) out (e ∙ v.tail)

  link_tail_lem :
      (xs : List ℕ)
      → IsQueue b l xs
      → o < length b.orders
      → Lacks o xs
      → IsQueue (link_tail b o l) l (xs ++ o ∷ [])
  link_tail_lem xs v in_o out =
      let w = link_tail-Lengthened v.inside in
      let t = old_tail in
      let os = link_tail-orders in
      let in_t = tail_in xs v in
      let apart = tail_apart xs v in_o out in
      let sized = length-linked_orders b.orders o t in
      let (up, down, amount) = linked_entered b.orders o t in_o in_t apart v.small in
      record {
        inside = omega (arith, w.levels, v.inside);
        small = omega (arith, ap length os, sized, v.small);
        linked =
            subst (λ os. Linked os npos (xs ++ o ∷ []) npos) (sym os)
              (Linked-snoc b.orders _ o npos npos npos xs sized in_o (up ∙ v.tail) down v.distinct
                (kept_prev b.orders o t in_o in_t apart v.small npos npos xs v.linked out)
                (subst
                  (λ k.
                    All
                      (λ x.
                        (get_or (linked_orders b.orders o t) x fresh_order).next
                        ≡ (if x == k then o else (get_or b.orders x fresh_order).next))
                      xs)
                  v.tail (kept_next b.orders o t in_o in_t apart v.small npos npos xs v.linked out))
                v.linked);
        distinct = Distinct-snoc o xs v.distinct out;
        head = w.head ∙ rw (v.tail, v.head) (first-snoc b.orders o npos xs v.linked v.small);
        tail = w.tail ∙ sym (last-snoc npos o xs);
        count = omega (arith, w.count, v.count, length-append xs (o ∷ []));
        total = omega (
          arith,
          w.total,
          v.total,
          amount,
          ap (λ os. quantity_of os (xs ++ o ∷ [])) os,
          quantity_of-snoc (linked_orders b.orders o t) o xs,
          kept_quantity b.orders o t in_o in_t apart v.small npos npos xs v.linked out,
        );
      }

  -- the queue of another level
  link_tail-others :
      (xs : List ℕ)
      → IsQueue b l xs
      → o < length b.orders
      → Lacks o xs
      → (k : ℕ) (ys : List ℕ) → k ≢ l
      → IsQueue b k ys
      → Lacks o ys
      → Lacks (last npos xs) ys
      → IsQueue (link_tail b o l) k ys
  link_tail-others xs v in_o out k ys ne u off apart_ys =
      let w = link_tail-Lengthened v.inside in
      let t = old_tail in
      let os = link_tail-orders in
      let in_t = tail_in xs v in
      let apart = tail_apart xs v in_o out in
      let sized = length-linked_orders b.orders o t in
      let same = w.others k ne in
      record {
        inside = omega (arith, w.levels, u.inside);
        small = omega (arith, ap length os, sized, v.small);
        linked =
            subst (λ os. Linked os npos ys npos) (sym os)
              (Linked-same b.orders _ npos npos ys sized
                (kept_links b.orders o t in_o in_t apart v.small npos npos ys u.linked off
                  (subst (λ k. Lacks k ys) (sym v.tail) apart_ys))
                u.linked);
        distinct = u.distinct;
        head = ap Level.head same ∙ u.head;
        tail = ap Level.tail same ∙ u.tail;
        count = ap Level.order_count same ∙ u.count;
        total = omega (
          arith,
          ap Level.total_quantity same,
          u.total,
          ap (λ os. quantity_of os ys) os,
          kept_quantity b.orders o t in_o in_t apart v.small npos npos ys u.linked off,
        );
      }

-- An order that is not in the queue of a level joins it at the tail: the queue then holds it behind its other
-- orders, which keep their places, and any queue of another level that shares no order with it is kept.
pub link_tail-IsQueue :
    (b : Book) (o l : ℕ) (xs : List ℕ)
    → IsQueue b l xs
    → o < length b.orders
    → Lacks o xs
    → IsQueue (link_tail b o l) l (xs ++ o ∷ [])
      × ((k : ℕ) (ys : List ℕ)
          → k ≢ l
          → IsQueue b k ys
          → Lacks o ys
          → Lacks (last npos xs) ys
          → IsQueue (link_tail b o l) k ys)
link_tail-IsQueue b o l xs v in_o out =
    (link_tail_lem b o l xs v in_o out, link_tail-others b o l xs v in_o out)
