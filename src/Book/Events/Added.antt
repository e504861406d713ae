-- ===== src/Book/Events/Added.antt =====
-- What `rest_order` makes of a whole book.
use market_order_book_engine.Base.{
  ℕ, ◌^◌, ◌<◌, ◌≡◌, ◌≢◌, ◌⊎◌, inl, inr, refl, sym, ap, ◌∙◌, subst, List, [], ◌∷◌, ◌++◌, arith, ◌↔◌,
  get_or, ℤ, ◌==◌, true, false, Bool-cases, length, if◌then◌else◌,
}
use market_order_book_engine.Types.{
  Side, ProcessResult, applied, capacity_exhausted, invalid_quantity, duplicate_order_id,
}
use market_order_book_engine.Book.Table.{npos}
use market_order_book_engine.Book.State.{Book, fresh_order}
use market_order_book_engine.Book.Ladder.Swap.{Holds}
use market_order_book_engine.Book.Ladder.Write.{price_of}
use market_order_book_engine.Book.Links.{
  find_order_index, find_level_index, take_level, acquire_level,
}
use market_order_book_engine.Book.Links.Chain.{Lacks}
use market_order_book_engine.Book.Events.{rest_at, rest_order}
use market_order_book_engine.Book.Events.Rests.{rest_at-Rested}
use market_order_book_engine.Book.Whole.{IsBook, Stocked}
use market_order_book_engine.Book.Whole.Leave.{replaced, replaced_same, replaced_other}
use market_order_book_engine.Book.Whole.Unlink.{SameMaker}
use market_order_book_engine.Book.Whole.Acquire.{IsVacant, Taken, Untaken, take_level-Taken}
use market_order_book_engine.Book.Events.Placed.{IsIdle, IsReady, Found, Explained, Added}

module _ (id : ℕ) (side : Side) (price : ℤ) (quantity : ℕ) (few : quantity < 2 ^ 64) where
  abbrev AddedBy : ℕ → (ℕ → List ℕ) → Book → Book × ProcessResult → Type 0
  AddedBy o queues b (b', result) = Added id side price quantity o queues b b' result

  refused :
      (b b' : Book) (queues : ℕ → List ℕ) (o : ℕ) (result : ProcessResult)
      → Explained b id quantity result
      → Untaken queues b b'
      → result ≢ applied
      → Added id side price quantity o queues b b' result
  refused b b' queues o result told u ne = record {
    queues' = queues;
    book = u.book;
    told = told;
    prices = u.prices;
    makers = λ x h n. (
      ap (λ os. (get_or os x fresh_order).id) u.orders,
      ap (λ os. (get_or os x fresh_order).quantity) u.orders,
    );
    placed = λ e. absurd (ne e);
    unplaced = λ _. record { holds = u.holds; same = λ s k h. refl };
  }

  Untaken-refl : (b : Book) (queues : ℕ → List ℕ) → IsBook b queues → Untaken queues b b
  Untaken-refl b queues v = record {
    book = v;
    holds = λ s k. ((λ h. h), (λ h. h));
    orders = refl;
    prices = λ s k h. refl;
  }

  -- What `acquire_level` makes of the book `b`: the level `l` is on the ladder, at the price.
  record Acquired (b b1 : Book) (queues queues1 : ℕ → List ℕ) (l : ℕ) : Type 0 where
    book : IsBook b1 queues1
    holds : (s : Side) (k : ℕ) → Holds s b1 k ↔ (Holds s b k ⊎ ((s ≡ side) × (k ≡ l)))
    back : (s : Side) (k : ℕ) → (Holds s b1 k × (queues1 l ≡ [] → k ≢ l)) ↔ Holds s b k
    prices : (s : Side) (k : ℕ) → Holds s b k → price_of b1 k ≡ price_of b k
    price_is : price_of b1 l ≡ price
    orders : b1.orders ≡ b.orders
    earlier : Found side price queues b l (queues1 l)
    others : (k : ℕ) → k ≢ l → queues1 k ≡ queues k
    same : (s : Side) (k : ℕ) → Holds s b k → queues1 k ≡ queues k

  -- the order comes to rest at the level
  module _ (b b1 : Book) (queues queues1 : ℕ → List ℕ) (l : ℕ) (a : Acquired b b1 queues queues1 l)
      (idle : IsIdle b1 queues1 b1.free_order)
      (new : (0 < quantity) × (find_order_index b id ≡ npos)) where
    makers_in :
        (b2 : Book) (x : ℕ)
        → (x < length b1.orders → x ≢ b1.free_order → SameMaker b1 b2 x)
        → x < length b.orders
        → x ≢ b1.free_order
        → SameMaker b b2 x
    makers_in b2 x m h ne =
        let (i, q) = m (omega (arith, h, ap length a.orders)) ne in
        (
          i ∙ ap (λ os. (get_or os x fresh_order).id) a.orders,
          q ∙ ap (λ os. (get_or os x fresh_order).quantity) a.orders,
        )

    rests : AddedBy b1.free_order queues b (rest_at b1 id side price quantity l)
    rests =
        let held = (a.holds side l).1 (inr (refl, refl)) in
        elim (rest_at-Rested b1 queues1 id side price quantity l a.book held idle.inside idle.out
          few) [
            | inl (e, r) ↦ record {
              queues' = replaced queues1 l (queues1 l ++ b1.free_order ∷ []);
              book = r.book;
              told = subst (Explained b id quantity) (sym e) new;
              prices = λ s k h. r.prices k ∙ a.prices s k h;
              makers = λ x. makers_in (rest_at b1 id side price quantity l).0 x (r.makers x);
              placed = λ _. record {
                level = l;
                before = queues1 l;
                holds = λ s k. (
                  (λ h. (a.holds s k).0 ((r.holds s k).0 h)),
                  (λ h. (r.holds s k).1 ((a.holds s k).1 h)),
                );
                price_is = r.prices l ∙ a.price_is;
                here = replaced_same queues1 l (queues1 l ++ b1.free_order ∷ []);
                earlier = a.earlier;
                others = λ k ne.
                    replaced_other queues1 l k (queues1 l ++ b1.free_order ∷ []) ne ∙ a.others k ne;
                id_of = r.id_of;
                quantity_of = r.quantity_of;
              };
              unplaced = λ n. absurd (n e);
            }
            | inr (e, u) ↦ record {
              queues' = u.queues';
              book = u.book;
              told = subst (Explained b id quantity) (sym e) new;
              prices = λ s k h. u.prices k ∙ a.prices s k h;
              makers = λ x. makers_in (rest_at b1 id side price quantity l).0 x (u.makers x);
              placed = λ q. absurd (clash (sym e ∙ q));
              unplaced = λ _. record {
                holds = λ s k. (
                  (λ h. (a.back s k).0 ((u.holds s k).0 h)),
                  (λ h. (u.holds s k).1 ((a.back s k).1 h)),
                );
                same = λ s k h. u.same k ∙ a.same s k h;
              };
            }
          ]
      where
        clash : capacity_exhausted ≡ applied → ⊥
        clash e = cc

  module _ (b : Book) (queues : ℕ → List ℕ) (v : IsBook b queues) (full : Stocked b queues)
      (ready : IsReady b queues) (idle : IsIdle b queues b.free_order)
      (new : (0 < quantity) × (find_order_index b id ≡ npos)) where
    -- the level is found
    found_Acquired :
        let l = find_level_index b side price in
        Holds side b l → price_of b l ≡ price → Acquired b b queues queues l
    found_Acquired h p = record {
      book = v;
      holds = λ s k. (
        inl,
        (λ c. elim c [
          | inl g ↦ g
          | inr (e, e') ↦ subst (λ t. Holds t b k) (sym e) (subst (Holds side b) (sym e') h)
        ]),
      );
      back = λ s k.
          ((λ g. g.0), (λ g. (g, λ n. absurd (full side (find_level_index b side price) h n))));
      prices = λ s k g. refl;
      price_is = p;
      orders = refl;
      earlier = inl (refl, h, refl);
      others = λ k ne. refl;
      same = λ s k g. refl;
    }

    -- the level is taken from the free list
    taken_Acquired :
        (b1 : Book)
        → Taken side price b.free_level queues b b1
        → IsVacant b b.free_level
        → find_level_index b side price ≡ npos
        → Acquired b b1 queues (replaced queues b.free_level []) b.free_level
    taken_Acquired b1 t vacant none = record {
      book = t.book;
      holds = t.holds;
      back = λ s k. (
        (λ (h, ne). elim ((t.holds s k).0 h) [
          | inl g ↦ g
          | inr (_, e) ↦ absurd (ne (replaced_same queues b.free_level []) e)
        ]),
        (λ g. ((t.holds s k).1 (inl g), λ _. apart s k g)),
      );
      prices = t.prices;
      price_is = t.cost;
      orders = t.orders;
      earlier = inr (none, vacant.fresh, replaced_same queues b.free_level []);
      others = λ k ne. replaced_other queues b.free_level k [] ne;
      same = λ s k g. replaced_other queues b.free_level k [] (apart s k g);
    }
      where
        apart : (s : Side) (k : ℕ) → Holds s b k → k ≢ b.free_level
        apart s k g e = vacant.fresh s (subst (Holds s b) e g)

    at_new_level :
        (b1 : Book)
        → Taken side price b.free_level queues b b1
        → IsVacant b b.free_level
        → find_level_index b side price ≡ npos
        → AddedBy b.free_order queues b (rest_at b1 id side price quantity b.free_level)
    at_new_level b1 t vacant none =
        let l = b.free_level in
        let a = taken_Acquired b1 t vacant none in
        let idle1 : IsIdle b1 (replaced queues l []) b.free_order = record {
          inside = omega (arith, idle.inside, ap length t.orders);
          out = out1;
        } in
        subst (λ o. AddedBy o queues b (rest_at b1 id side price quantity l)) t.free
          (rests b b1 queues (replaced queues l []) l a
            (subst (λ o. IsIdle b1 (replaced queues l []) o) (sym t.free) idle1) new)
      where
        out1 :
            (s : Side) (k : ℕ)
            → Holds s b1 k
            → Lacks b.free_order (replaced queues b.free_level [] k)
        out1 s k h = elim ((t.holds s k).0 h) [
          | inl g ↦
              subst (Lacks b.free_order)
                (sym (
                  replaced_other queues b.free_level k []
                    (λ e. vacant.fresh s (subst (Holds s b) e g))))
                (idle.out s k g)
          | inr (_, e) ↦
              subst (λ j. Lacks b.free_order (replaced queues b.free_level [] j)) (sym e)
                (subst (Lacks b.free_order) (sym (replaced_same queues b.free_level [])) tt)
        ]

    -- `rest_order` from the level on
    abbrev settle : Book × ℕ → Book × ProcessResult
    settle (b1, l) =
        if l == npos then (b1, capacity_exhausted) else rest_at b1 id side price quantity l

    settled : AddedBy b.free_order queues b (settle (acquire_level b side price))
    unfolding acquire_level
    settled = elim (Bool-cases (find_level_index b side price == npos)) [
      | inr e ↦
          rw (e, e)
            (elim (ready.known side price) [
              | inl n ↦ absurd (ground (arith, e, n))
              | inr (h, p) ↦
                  rests b b queues queues (find_level_index b side price) (found_Acquired h p) idle
                    new
            ])
      | inl e ↦ elim ready.vacant [
        | inl n ↦
            let none : (b.free_level == npos) ≡ true = ground (arith, n) in
            rw (e, none)
              (refused b b queues b.free_order capacity_exhausted new (Untaken-refl b queues v)
                (λ q. absurd (cc)))
        | inr vacant ↦
            let free : (b.free_level == npos) ≡ false = ground (arith, vacant.inside, v.room) in
            let none : find_level_index b side price ≡ npos = ground (arith, e) in
            rw (e, free)
              (elim (take_level-Taken b queues side price v ready.small vacant) [
                | inl (at, t) ↦
                    rw (at, free) (at_new_level (take_level b side price).0 t vacant none)
                | inr (at, u) ↦ rw at (
                    refused b (take_level b side price).0 queues b.free_order capacity_exhausted new
                      u (λ q. absurd (cc)))
              ])
      ]
    ]

-- A new order on a whole book without empty levels, whose free lists and table of levels are in order. Whatever the
-- result, the book stays whole, the levels on the ladders keep their prices and the other orders their ids and
-- quantities. If the order is accepted, its quantity is positive and its id was not in use; it is the last one of
-- the queue of the level of its price, with its id and quantity, the ladders hold that level and those of before,
-- and all other queues are as they were. If it is not, the ladders and their queues are as they were; an invalid
-- quantity is 0, and a duplicate id was in use.
pub rest_order-Added :
    (b : Book) (queues : ℕ → List ℕ) (id : ℕ) (side : Side) (price : ℤ) (quantity : ℕ)
    → IsBook b queues
    → Stocked b queues
    → IsReady b queues
    → quantity < 2 ^ 64
    → Added id side price quantity b.free_order queues b
        (rest_order b id side price quantity).0
        (rest_order b id side price quantity).1
unfolding rest_order
rest_order-Added b queues id side price quantity v full ready few =
    let same = Untaken-refl id side price quantity few b queues v in
    elim (Bool-cases (quantity == 0)) [
      | inl e ↦ rw e (
          refused id side price quantity few b b queues b.free_order invalid_quantity
            (ground (arith, e)) same (λ q. absurd (cc)))
      | inr e ↦ elim (Bool-cases (find_order_index b id == npos)) [
        | inr d ↦
            rw (e, d)
              (refused id side price quantity few b b queues b.free_order duplicate_order_id
                (ground (arith, e), λ n. ground (arith, d, n)) same (λ q. absurd (cc)))
        | inl d ↦
            let new : (0 < quantity) × (find_order_index b id ≡ npos) =
              (ground (arith, e), ground (arith, d)) in
            elim ready.slot [
              | inl n ↦
                  let none : (b.free_order == npos) ≡ true = ground (arith, n) in
                  rw (e, d, none)
                    (refused id side price quantity few b b queues b.free_order capacity_exhausted
                      new same (λ q. absurd (cc)))
              | inr idle ↦
                  let some_free : (b.free_order == npos) ≡ false =
                    ground (arith, idle.inside, ready.small) in
                  rw (e, d, some_free)
                    (settled id side price quantity few b queues v full ready idle new)
            ]
      ]
    ]
