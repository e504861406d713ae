-- ===== src/Book/Matching/Trade.antt =====
-- One round of the inner loop on a whole book.
use market_order_book_engine.Base.{
  ℕ, ◌-◌, ◌^◌, ◌≤◌, ◌<◌, ◌≡◌, refl, List, [], ◌∷◌, ◌++◌, All, subst, arith, ℤ, ◌==◌, min, add64,
  sub64, true, false,
}
use market_order_book_engine.Types.{Side, OrderRequest}
use market_order_book_engine.Book.State.{Book, order_at}
use market_order_book_engine.Book.Ladder.Swap.{Holds}
use market_order_book_engine.Book.Links.{erase_order_lookup, unlink, free_order_slot}
use market_order_book_engine.Book.Matching.{Run, fill_of, remove_maker, reduce_maker, trade_step}
use market_order_book_engine.Book.Matching.Sweep.{fill_with}
use market_order_book_engine.Book.Whole.{IsBook, Lodged}
use market_order_book_engine.Book.Whole.Kin.{Kin-trans}
use market_order_book_engine.Book.Whole.Changes.{
  SamePools, pools_same, SamePools-Kin, SamePools-IsBook, Kin-Holds,
}
use market_order_book_engine.Book.Whole.Unlink.{Left, SamePools-Left, Left-SamePools, leaves-Left}
use market_order_book_engine.Book.Whole.Reduce.{Reduced, reduced-Reduced}

-- the book with the next number for a fill
abbrev pub counted : Book → Book
counted b = record b { fill_sequence = add64 b.fill_sequence 1 }

module _ (b : Book) (queues : ℕ → List ℕ) (v : IsBook b queues) (o : ℕ) (side : Side)
    (held : Holds side b (order_at b o).level) (ys zs : List ℕ)
    (here : queues (order_at b o).level ≡ ys ++ o ∷ zs) where
  abbrev same_counted : SamePools b (counted b)
  same_counted = pools_same b (counted b) refl refl refl refl refl refl

  -- A maker that is filled has left the book.
  pub remove_maker-Left :
      Left side (order_at b o).level o queues (ys ++ zs) b (remove_maker (counted b) o)
  unfolding remove_maker erase_order_lookup
  remove_maker-Left =
      let b1 = erase_order_lookup (counted b) (order_at b o).id in
      let s : SamePools b b1 = pools_same b b1 refl refl refl refl refl refl in
      let b2 = free_order_slot (unlink b1 o) o in
      let w =
        leaves-Left b1 queues (SamePools-IsBook queues s v) o side
          ((Kin-Holds (SamePools-Kin s) side _).1 held) ys zs here in
      SamePools-Left side _ o queues (ys ++ zs) b b2
        (Left-SamePools side _ o queues (ys ++ zs) b b1 b2 s w) (remove_maker (counted b) o)
        (pools_same b2 _ refl refl refl refl refl refl)

  -- A maker that is filled in part has less.
  pub reduce_maker-Reduced :
      (t : ℕ)
      → t ≤ (order_at b o).quantity
      → Reduced o t queues b (reduce_maker (counted b) (order_at b o).level o t)
  unfolding reduce_maker
  reduce_maker-Reduced t part =
      let s = same_counted in
      let kin = SamePools-Kin s in
      let w =
        reduced-Reduced (counted b) queues (SamePools-IsBook queues s v) o side
          ((Kin-Holds kin side _).1 held) ys zs here t part in
      record {
        book = w.book;
        kin = Kin-trans kin w.kin;
        pool = w.pool;
        others = w.others;
        id = w.id;
        quantity = w.quantity;
      }

-- The first order of the queue of the level `l` is filled, or filled in part.
module _ (b : Book) (queues : ℕ → List ℕ) (v : IsBook b queues) (side : Side) (l : ℕ)
    (held : Holds side b l) (o : ℕ) (zs : List ℕ) (here : queues l ≡ o ∷ zs) where
  pub first_level : (order_at b o).level ≡ l
  first_level = (subst (All (Lodged b l)) here (v.lodged side l held)).0.level

  pub remove_first : Left side l o queues zs b (remove_maker (counted b) o)
  remove_first =
      subst
        (λ k.
          Holds side b k
          → queues k ≡ o ∷ zs
          → Left side k o queues zs b (remove_maker (counted b) o))
        first_level (λ h e. remove_maker-Left b queues v o side h [] zs e) held here

  pub reduce_first :
      (t : ℕ) → t ≤ (order_at b o).quantity → Reduced o t queues b (reduce_maker (counted b) l o t)
  reduce_first t part =
      subst
        (λ k.
          Holds side b k
          → queues k ≡ o ∷ zs
          → Reduced o t queues b (reduce_maker (counted b) k o t))
        first_level (λ h e. reduce_maker-Reduced b queues v o side h [] zs e t part) held here

module _ (r : OrderRequest) (price : ℤ) (l : ℕ) (s : Run) (o : ℕ) where
  -- the runs after the maker is filled, or filled in part
  abbrev pub after_filled : Run
  after_filled = record {
    book = remove_maker (counted s.book) o;
    remaining = s.remaining - (order_at s.book o).quantity;
    fills =
        s.fills
        ++ (fill_with r price s.book.fill_sequence (order_at s.book o).id
              (order_at s.book o).quantity
            ∷ []);
  }

  abbrev pub after_part : Run
  after_part = record {
    book = reduce_maker (counted s.book) l o s.remaining;
    remaining = 0;
    fills =
        s.fills ++ (fill_with r price s.book.fill_sequence (order_at s.book o).id s.remaining ∷ []);
  }

  module _ (small : s.remaining < 2 ^ 64) where
    -- Enough remains for all of the maker.
    pub trade_step-filled :
        (order_at s.book o).quantity ≤ s.remaining
        → trade_step r price l s o ≡ (after_filled, (order_at s.book o).next)
    unfolding trade_step fill_of
    trade_step-filled h =
        let q = (order_at s.book o).quantity in
        let traded : min s.remaining q ≡ q = omega (arith, h) in
        let all : (q == q) ≡ true = ground arith in
        let less : sub64 s.remaining q ≡ s.remaining - q = omega (arith, h, small) in
        rw (traded, all, less) refl

    -- The maker has more than what remains.
    pub trade_step-part :
        s.remaining < (order_at s.book o).quantity → trade_step r price l s o ≡ (after_part, o)
    unfolding trade_step fill_of
    trade_step-part h =
        let q = (order_at s.book o).quantity in
        let traded : min s.remaining q ≡ s.remaining = omega (arith, h) in
        let some_left : (s.remaining == q) ≡ false = ground (arith, h) in
        let less : sub64 s.remaining s.remaining ≡ 0 = omega (arith, small) in
        rw (traded, some_left, less) refl
