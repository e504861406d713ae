-- ===== src/Book/Events/Rests.antt =====
-- What `rest_at` makes of a whole book: a free slot takes an order, at the tail of a level.
use market_order_book_engine.Base.{
  ℕ, ◌^◌, ◌<◌, ◌≡◌, ◌≢◌, ◌↔◌, ◌⊎◌, inl, inr, refl, sym, ap, ◌∙◌, subst, List, [], ◌∷◌, ◌++◌, arith,
  ℤ, some, Option-cases, append_nil, add64, length, ◌==◌, ==_iff, if◌then◌else◌, Bool-cases, true,
  get_or,
}
use market_order_book_engine.Types.{Side, applied, capacity_exhausted}
use market_order_book_engine.Book.Table
use market_order_book_engine.Book.Table.{npos}
use market_order_book_engine.Book.State.{order_key, Book, Order, fresh_order, order_at, set_order}
use market_order_book_engine.Book.State.Touched.{Touched, set_order-Touched}
use market_order_book_engine.Book.Ladder.Swap.{Holds}
use market_order_book_engine.Book.Ladder.Write.{price_of}
use market_order_book_engine.Book.Links.{insert_order_lookup, link_tail, unlink, free_order_slot}
use market_order_book_engine.Book.Links.Chain.{Lacks}
use market_order_book_engine.Book.Links.Cut.{All-zip, Linked-within, if_other}
use market_order_book_engine.Book.Events.{rest_at}
use market_order_book_engine.Book.Whole.{IsBook, Lodged}
use market_order_book_engine.Book.Whole.Kin.{Kin, Kin-trans, Touched-Kin}
use market_order_book_engine.Book.Whole.Queues.{IsManned-same}
use market_order_book_engine.Book.Whole.Changes.{
  Kin-IsBook, Kin-Holds, manned, SamePools, pools_same, SamePools-Kin, SamePools-IsBook, ends_of,
  order_of,
}
use market_order_book_engine.Book.Whole.Leave.{replaced, replaced_same}
use market_order_book_engine.Book.Whole.Unlink.{SameMaker, Left, leaves-Left}
use market_order_book_engine.Book.Whole.Join.{
  link_tail-same, link_tail-IsBook, link_tail-makers, link_tail-pool, link_tail-Lodged,
}

-- The order `o` of this id and quantity is the last one of the level `l` now; the ladders and the other orders
-- are the same.
pub record Rested (id quantity l o : ℕ) (queues : ℕ → List ℕ) (b b' : Book) : Type 0 where
  pub book : IsBook b' (replaced queues l (queues l ++ o ∷ []))
  pub holds : (s : Side) (k : ℕ) → Holds s b' k ↔ Holds s b k
  pub id_of : (order_at b' o).id ≡ id
  pub quantity_of : (order_at b' o).quantity ≡ quantity
  pub makers : (x : ℕ) → x < length b.orders → x ≢ o → SameMaker b b' x
  pub prices : (k : ℕ) → price_of b' k ≡ price_of b k

-- No order joined; the levels have the queues they had, without the level `l` if it had no order.
pub record Undone (l o : ℕ) (queues : ℕ → List ℕ) (b b' : Book) : Type 0 where
  pub queues' : ℕ → List ℕ
  pub book : IsBook b' queues'
  pub same : (k : ℕ) → queues' k ≡ queues k
  pub holds : (s : Side) (k : ℕ) → Holds s b' k ↔ (Holds s b k × (queues l ≡ [] → k ≢ l))
  pub makers : (x : ℕ) → x < length b.orders → x ≢ o → SameMaker b b' x
  pub prices : (k : ℕ) → price_of b' k ≡ price_of b k

module _ (b : Book) (queues : ℕ → List ℕ) (v : IsBook b queues) (side : Side) (l : ℕ)
    (held : Holds side b l) (inside : b.free_order < length b.orders)
    (out : (s : Side) (k : ℕ) → Holds s b k → Lacks b.free_order (queues k)) (id : ℕ) (price : ℤ)
    (quantity : ℕ) (small : quantity < 2 ^ 64) where
  abbrev o : ℕ
  o = b.free_order

  abbrev order : Order
  order = record fresh_order {
    id = id;
    price = price;
    quantity = quantity;
    priority = b.next_priority;
    level = l;
    side = side;
    active = true;
  }

  -- the slot is written
  abbrev b1 : Book
  b1 = set_order b o order

  written : Touched l (λ x w. if o == x then order else w) (λ w. w) b b1
  written = set_order-Touched b o (λ w. order) inside

  other : (x : ℕ) → x < length b.orders → x ≢ o → order_at b1 x ≡ order_at b x
  other x h ne = written.order x h ∙ if_other o x _ _ (λ e. ne (sym e))

  mine : order_at b1 o ≡ order
  mine = let same : (o == o) ≡ true = ground arith in written.order o inside ∙ rw same refl

  kin1 : Kin b b1
  kin1 = Touched-Kin written refl refl refl

  whole1 : IsBook b1 queues
  whole1 = Kin-IsBook queues queues kin1 v λ s k h.
      let q = v.queue s k h in
      IsManned-same b b1 k (queues k) written.count written.levels (ends_of b b1 k refl)
        (All-zip (λ x i ne. order_of b b1 x (other x i ne)) (queues k)
          (Linked-within b.orders npos npos (queues k) q.linked) (out s k h))
        (manned v s k h)

  abbrev b2 : Book
  b2 = record b1 { free_order = (order_at b o).next_free; next_priority = add64 b.next_priority 1 }

  pools : SamePools b1 b2
  pools = pools_same b1 b2 refl refl refl refl refl refl

  kin2 : Kin b b2
  kin2 = Kin-trans kin1 (SamePools-Kin pools)

  whole2 : IsBook b2 queues
  whole2 = SamePools-IsBook queues pools whole1

  held2 : Holds side b2 l
  held2 = (Kin-Holds kin2 side l).1 held

  inside2 : o < length b2.orders
  inside2 = omega (arith, inside, written.count)

  own : Lodged b2 l o
  own = record {
    level = ap Order.level mine;
    quantity = omega (arith, ap Order.quantity mine, small);
    active = ap Order.active mine;
  }

  out2 : (s : Side) (k : ℕ) → Holds s b2 k → Lacks o (queues k)
  out2 s k h = out s k ((Kin-Holds kin2 s k).0 h)

  -- the order is linked
  abbrev b3 : Book
  b3 = link_tail b2 o l

  abbrev queues3 : ℕ → List ℕ
  queues3 = replaced queues l (queues l ++ o ∷ [])

  kin3 : Kin b b3
  kin3 = Kin-trans kin2 (link_tail-same b2 queues whole2 side l held2 o inside2 own out2)

  whole3 : IsBook b3 queues3
  whole3 = link_tail-IsBook b2 queues whole2 side l held2 o inside2 own out2

  makers3 : (x : ℕ) → x < length b.orders → x ≢ o → SameMaker b b3 x
  makers3 x h ne =
      let m =
        link_tail-makers b2 queues whole2 side l held2 o inside2 own out2 x
          (omega (arith, h, written.count)) in
      (m.0 ∙ ap Order.id (other x h ne), m.1 ∙ ap Order.quantity (other x h ne))

  linked-Rested : Rested id quantity l o queues b b3
  linked-Rested =
      let m = link_tail-makers b2 queues whole2 side l held2 o inside2 own out2 o inside2 in
      record {
        book = whole3;
        holds = Kin-Holds kin3;
        id_of = m.0 ∙ ap Order.id mine;
        quantity_of = m.1 ∙ ap Order.quantity mine;
        makers = makers3;
        prices = kin3.price;
      }

  -- the order leaves again
  left-Undone : Undone l o queues b (free_order_slot (unlink b3 o) o)
  left-Undone =
      let at_l = (link_tail-Lodged b2 queues whole2 side l held2 o inside2 own out2).level in
      let w : Left side l o queues3 (queues l ++ []) b3 (free_order_slot (unlink b3 o) o) =
        subst
          (λ k.
            Holds side b3 k
            → queues3 k ≡ queues l ++ o ∷ []
            → Left side k o queues3 (queues l ++ []) b3 (free_order_slot (unlink b3 o) o))
          at_l (λ h e. leaves-Left b3 queues3 whole3 o side h (queues l) [] e)
          ((Kin-Holds kin3 side l).1 held) (replaced_same queues l (queues l ++ o ∷ [])) in
      record {
        queues' = replaced queues3 l (queues l ++ []);
        book = w.book;
        same = same;
        holds = λ s k. (
          (λ h.
              let g = (w.holds s k).0 h in
              ((Kin-Holds kin3 s k).0 g.0, λ e. g.1 (append_nil (queues l) ∙ e))),
          (λ (h, ne).
              (w.holds s k).1
                ((Kin-Holds kin3 s k).1 h, λ e. ne (sym (append_nil (queues l)) ∙ e))),
        );
        makers = λ x h ne.
            let m = makers3 x h ne in
            let n =
              w.makers x
                (omega (
                  arith,
                  h,
                  written.count,
                  link_tail-pool b2 queues whole2 side l held2 o inside2 own out2,
                ))
                ne in
            (n.0 ∙ m.0, n.1 ∙ m.1);
        prices = λ k. w.price k ∙ kin3.price k;
      }
    where
      same : (k : ℕ) → replaced queues3 l (queues l ++ []) k ≡ queues k
      same k = elim (Bool-cases (k == l)) [
        | inl e ↦ rw e (append_nil (queues l) ∙ ap queues (sym ((==_iff k l).0 e)))
        | inr e ↦ rw e refl
      ]

  -- A change of the table and of the counters alone.
  Rested-same : (b4 : Book) → SamePools b3 b4 → Rested id quantity l o queues b b4
  Rested-same b4 s =
      let r = linked-Rested in
      let at = λ (x : ℕ). ap (λ os. get_or os x fresh_order) s.orders in
      record {
        book = SamePools-IsBook queues3 s whole3;
        holds = Kin-Holds (Kin-trans kin3 (SamePools-Kin s));
        id_of = ap Order.id (at o) ∙ r.id_of;
        quantity_of = ap Order.quantity (at o) ∙ r.quantity_of;
        makers = λ x h ne.
            let m = r.makers x h ne in (ap Order.id (at x) ∙ m.0, ap Order.quantity (at x) ∙ m.1);
        prices = (Kin-trans kin3 (SamePools-Kin s)).price;
      }

-- the table and the counter alone are written
inserted :
    (b b4 : Book) (id value : ℕ)
    → insert_order_lookup b id value ≡ some b4
    → SamePools b (record b4 { active_orders = add64 b4.active_orders 1 })
unfolding insert_order_lookup
inserted b b4 id value = elim (Option-cases (Table.insert_or_reuse b.order_lookup id value)) [
  | inl n ↦ rw (insert_order_lookup, n) λ e. absurd (cc)
  | inr (t, n) ↦
      rw (insert_order_lookup, n)
        λ e.
          let same : record b { order_lookup = t } ≡ b4 = cc in
          subst (λ c. SamePools b (record c { active_orders = add64 c.active_orders 1 })) same
            (pools_same b _ refl refl refl refl refl refl)
]

-- With a free slot that no queue holds, an order comes to rest at a level of a whole book: it joins the queue of
-- the level behind its other orders, and all other orders and the ladders stay as they are; or the table of
-- orders has no room, and then no queue has changed, but a level without orders is gone. The book stays whole.
pub rest_at-Rested :
    (b : Book) (queues : ℕ → List ℕ) (id : ℕ) (side : Side) (price : ℤ) (quantity l : ℕ)
    → IsBook b queues
    → Holds side b l
    → b.free_order < length b.orders
    → ((s : Side) (k : ℕ) → Holds s b k → Lacks b.free_order (queues k))
    → quantity < 2 ^ 64
    → (((rest_at b id side price quantity l).1 ≡ applied)
        × Rested id quantity l b.free_order queues b (rest_at b id side price quantity l).0)
      ⊎ (((rest_at b id side price quantity l).1 ≡ capacity_exhausted)
          × Undone l b.free_order queues b (rest_at b id side price quantity l).0)
unfolding rest_at
rest_at-Rested b queues id side price quantity l v held inside out small =
    let b' = b3 b queues v side l held inside out id price quantity small in
    elim (Option-cases (insert_order_lookup b' id b.free_order)) [
      | inl e ↦
          rw (rest_at, e)
            (inr (refl, left-Undone b queues v side l held inside out id price quantity small))
      | inr (b4, e) ↦
          rw (rest_at, e)
            (inl (
              refl,
              Rested-same b queues v side l held inside out id price quantity small
                  (record b4 { active_orders = add64 b4.active_orders 1 })
                  (inserted b' b4 id b.free_order e),
            ))
    ]
