-- ===== src/Book/Whole/Acquire.antt =====
-- A whole book after `acquire_level`.
use market_order_book_engine.Base.{
  ℕ, ◌≤◌, ◌<◌, ◌≡◌, ◌↔◌, ◌⊎◌, inl, inr, refl, ap, ◌∙◌, subst, List, [], some, ℤ, arith, length,
  get_or, false, Option-cases,
}
use market_order_book_engine.Types.{Side, buy, sell}
use market_order_book_engine.Book.Table
use market_order_book_engine.Book.Table.{npos}
use market_order_book_engine.Book.State.{Book, Level, level_key, level_at, set_level, fresh_level}
use market_order_book_engine.Book.State.Touched.{set_level-Touched}
use market_order_book_engine.Book.Ladder.{heap_of, size_of, ladder_push}
use market_order_book_engine.Book.Ladder.Frame.{ladder_push-Frame}
use market_order_book_engine.Book.Ladder.Swap.{Holds}
use market_order_book_engine.Book.Ladder.Write.{price_of}
use market_order_book_engine.Book.Links.{
  key_of, insert_level_lookup, fresh_level_at, give_back_level, take_level,
}
use market_order_book_engine.Book.Whole.{IsBook}
use market_order_book_engine.Book.Whole.Changes.{
  Kin-Holds, SamePools, pools_same, SamePools-Kin, SamePools-IsBook,
}
use market_order_book_engine.Book.Whole.Leave.{replaced}
use market_order_book_engine.Book.Whole.Enter.{
  set_level-Holds, set_level-IsBook, ladder_push-Holds, ladder_push-IsBook,
}

-- The slot of a level is free: no ladder holds it, and each has room for it.
pub record IsVacant (b : Book) (l : ℕ) : Type 0 where
  pub inside : l < length b.levels
  pub fresh : (s : Side) → ¬ (Holds s b l)
  pub room : (s : Side) → size_of s b < length (heap_of s b)

-- The level `l` has entered the ladder of the side at the price, without orders; the other levels keep their prices.
pub record Taken (side : Side) (price : ℤ) (l : ℕ) (queues : ℕ → List ℕ) (b b' : Book)
    : Type 0 where
  pub book : IsBook b' (replaced queues l [])
  pub holds : (s : Side) (k : ℕ) → Holds s b' k ↔ (Holds s b k ⊎ ((s ≡ side) × (k ≡ l)))
  pub orders : b'.orders ≡ b.orders
  pub free : b'.free_order ≡ b.free_order
  pub cost : price_of b' l ≡ price
  pub prices : (s : Side) (k : ℕ) → Holds s b k → price_of b' k ≡ price_of b k

-- The ladders with their prices, the queues and the orders are as before.
pub record Untaken (queues : ℕ → List ℕ) (b b' : Book) : Type 0 where
  pub book : IsBook b' queues
  pub holds : (s : Side) (k : ℕ) → Holds s b' k ↔ Holds s b k
  pub orders : b'.orders ≡ b.orders
  pub prices : (s : Side) (k : ℕ) → Holds s b k → price_of b' k ≡ price_of b k

module _ (b : Book) (queues : ℕ → List ℕ) (v : IsBook b queues) (small : length b.orders ≤ npos)
    (side : Side) (price : ℤ) (vacant : IsVacant b b.free_level) where
  abbrev l : ℕ
  l = b.free_level

  -- the slot is written
  abbrev b1 : Book
  b1 = set_level b l (fresh_level_at side price)

  whole1 : IsBook b1 queues
  whole1 = set_level-IsBook b queues v l vacant.inside vacant.fresh (fresh_level_at side price)

  holds1 : (s : Side) (k : ℕ) → Holds s b1 k ↔ Holds s b k
  holds1 = set_level-Holds b queues v l vacant.inside vacant.fresh (fresh_level_at side price)

  abbrev b2 : Book
  b2 = set_level (record b { free_level = (level_at b l).next_free }) l (fresh_level_at side price)

  pools : SamePools b1 b2
  pools = pools_same b1 b2 refl refl refl refl refl refl

  mine : (b3 : Book) → SamePools b2 b3 → level_at b3 l ≡ fresh_level_at side price
  mine b3 s =
      ap (λ ls. get_or ls l fresh_level) s.levels
      ∙ (set_level-Touched b (λ w. fresh_level_at side price) vacant.inside).level

  kept : (t : Side) (k : ℕ) → Holds t b k → price_of b2 k ≡ price_of b k
  kept t k h = ap Level.price (
      (set_level-Touched b (λ w. fresh_level_at side price) vacant.inside).others k
        (λ e. vacant.fresh t (subst (Holds t b) e h)))

  entered :
      (b3 : Book)
      → SamePools b2 b3
      → b3.free_order ≡ b.free_order
      → Taken side price l queues b (ladder_push side b3 l)
  entered b3 s free =
      let kin = SamePools-Kin pools in
      let kin3 = SamePools-Kin s in
      let whole3 = SamePools-IsBook queues s (SamePools-IsBook queues pools whole1) in
      let holds3 : (t : Side) (k : ℕ) → Holds t b3 k ↔ Holds t b k = λ t k. (
        (λ h. (holds1 t k).0 ((Kin-Holds kin t k).0 ((Kin-Holds kin3 t k).0 h))),
        (λ h. (Kin-Holds kin3 t k).1 ((Kin-Holds kin t k).1 ((holds1 t k).1 h))),
      ) in
      let level = mine b3 s in
      let inside3 : l < length b3.levels = omega (
        arith,
        vacant.inside,
        kin3.count,
        (set_level-Touched b (λ w. fresh_level_at side price) vacant.inside).levels,
      ) in
      let small3 : length b3.orders ≤ npos = omega (arith, small, ap length s.orders) in
      let room3 : size_of side b3 < length (heap_of side b3) = omega (
        arith,
        vacant.room side,
        size_same side,
        ap length (heap_same side),
        kin3.size side,
        ap length (kin3.heap side),
      ) in
      let fresh3 : (t : Side) → ¬ (Holds t b3 l) = λ t h. vacant.fresh t ((holds3 t l).0 h) in
      let void : ((level_at b3 l).head ≡ npos)
          × ((level_at b3 l).tail ≡ npos)
          × ((level_at b3 l).order_count ≡ 0)
          × ((level_at b3 l).total_quantity ≡ 0) =
        (
          ap Level.head level,
          ap Level.tail level,
          ap Level.order_count level,
          ap Level.total_quantity level,
        ) in
      let holds4 =
        ladder_push-Holds b3 queues whole3 small3 side l inside3 room3 fresh3 (ap Level.side level)
          void in
      record {
        book =
            ladder_push-IsBook b3 queues whole3 small3 side l inside3 room3 fresh3
              (ap Level.side level) void;
        holds = λ t k. (
          (λ h. elim ((holds4 t k).0 h) [ inl g ↦ inl ((holds3 t k).0 g) | inr q ↦ inr q ]),
          (λ h. (holds4 t k).1 (elim h [ inl g ↦ inl ((holds3 t k).1 g) | inr q ↦ inr q ])),
        );
        orders = (ladder_push-Frame side b3 l).orders ∙ s.orders;
        free = (ladder_push-Frame side b3 l).free_order ∙ free;
        cost = ap Level.price ((ladder_push-Frame side b3 l).level l) ∙ ap Level.price level;
        prices = λ t k h.
            ap Level.price ((ladder_push-Frame side b3 l).level k)
            ∙ ap (λ ls. (get_or ls k fresh_level).price) s.levels
            ∙ kept t k h;
      }
    where
      size_same : (s : Side) → size_of s b2 ≡ size_of s b
      size_same buy = refl
      size_same sell = refl

      heap_same : (s : Side) → heap_of s b2 ≡ heap_of s b
      heap_same buy = refl
      heap_same sell = refl

  given_back : Untaken queues b (give_back_level b2 l)
  given_back =
      let w2 = SamePools-IsBook queues pools whole1 in
      let kin = SamePools-Kin pools in
      let inside2 : l < length b2.levels = omega (
        arith,
        vacant.inside,
        (set_level-Touched b (λ w. fresh_level_at side price) vacant.inside).levels,
      ) in
      let fresh2 : (t : Side) → ¬ (Holds t b2 l) =
        λ t h. vacant.fresh t ((holds1 t l).0 ((Kin-Holds kin t l).0 h)) in
      let level : Level = record (level_at b2 l) { active = false; next_free = b2.free_level } in
      let b3 = set_level b2 l level in
      let s : SamePools b3 (give_back_level b2 l) = pools_same b3 _ refl refl refl refl refl refl in
      let holds2 = set_level-Holds b2 queues w2 l inside2 fresh2 level in
      record {
        book = SamePools-IsBook queues s (set_level-IsBook b2 queues w2 l inside2 fresh2 level);
        holds = λ t k. (
          (λ h.
              (holds1 t k).0
                ((Kin-Holds kin t k).0 ((holds2 t k).0 ((Kin-Holds (SamePools-Kin s) t k).0 h)))),
          (λ h.
              (Kin-Holds (SamePools-Kin s) t k).1
                ((holds2 t k).1 ((Kin-Holds kin t k).1 ((holds1 t k).1 h)))),
        );
        orders = refl;
        prices = λ t k h.
            ap Level.price (
              (set_level-Touched b2 (λ w. level) inside2).others k
                (λ e. vacant.fresh t (subst (Holds t b) e h)))
            ∙ kept t k h;
      }

-- the table alone is written
inserted :
    (b b4 : Book) (side : Side) (price : ℤ) (value : ℕ)
    → insert_level_lookup b side price value ≡ some b4
    → SamePools b b4 × (b4.free_order ≡ b.free_order)
unfolding insert_level_lookup
inserted b b4 side price value =
    elim (Option-cases (Table.insert b.level_lookup (key_of side price) value)) [
      | inl n ↦ rw (insert_level_lookup, n) λ e. absurd (cc)
      | inr (t, n) ↦
          rw (insert_level_lookup, n)
            λ e.
              let same : record b { level_lookup = t } ≡ b4 = cc in
              subst (λ c. SamePools b c × (c.free_order ≡ b.free_order)) same
                (pools_same b _ refl refl refl refl refl refl, refl)
    ]

-- A level from the free list: it enters the ladder of its side, or the table of levels has no room.
pub take_level-Taken :
    (b : Book) (queues : ℕ → List ℕ) (side : Side) (price : ℤ)
    → IsBook b queues
    → length b.orders ≤ npos
    → IsVacant b b.free_level
    → (((take_level b side price).1 ≡ b.free_level)
        × Taken side price b.free_level queues b (take_level b side price).0)
      ⊎ (((take_level b side price).1 ≡ npos) × Untaken queues b (take_level b side price).0)
unfolding take_level
take_level-Taken b queues side price v small vacant =
    let b' = b2 b queues v small side price vacant in
    elim (Option-cases (insert_level_lookup b' side price b.free_level)) [
      | inl e ↦ rw (take_level, e) (inr (refl, given_back b queues v small side price vacant))
      | inr (b4, e) ↦
          let w = inserted b' b4 side price b.free_level e in
          rw (take_level, e) (inl (refl, entered b queues v small side price vacant b4 w.0 w.1))
    ]
