-- ===== src/Book/Matching/Settle.antt =====
-- What a submitted order exchanges with the other side, and what becomes of its remainder.
use market_order_book_engine.Base.{ℕ, ◌+◌, ◌-◌, ◌<◌, ◌≡◌, ◌≢◌, ◌↔◌, List, [], ◌∷◌, true, false}
use market_order_book_engine.Types.{
  Side, opposite, OrderRequest, ProcessResult, capacity_exhausted, SubmitResult, filled_complete,
  rested_no_fill, partial_fill_rested, partial_fill_killed, no_fill_killed, canceled, rejected_fok,
  rejected_duplicate, rejected_capacity, rejected_invalid,
}
use market_order_book_engine.Book.Table.{npos}
use market_order_book_engine.Book.State.{Book}
use market_order_book_engine.Book.Events.{rest_order}
use market_order_book_engine.Book.Ladder.Swap.{Holds}
use market_order_book_engine.Book.Links.{find_order_index}
use market_order_book_engine.Book.Matching.{
  Run, may_rest, is_exhausted, fillable_quantity, is_fok, Submitted,
}
use market_order_book_engine.Book.Matching.Fills.{total}
use market_order_book_engine.Book.Matching.Offered.{quantity_in}
use market_order_book_engine.Book.Matching.Tiers.{Tier, tier_of, tiers_of, Ranked}
use market_order_book_engine.Book.Whole.{IsBook, Stocked}

-- the quantity of all makers of the tiers
abbrev pub quantity_on : List Tier → ℕ
quantity_on [] = 0
quantity_on (t ∷ ts) = quantity_in t.makers + quantity_on ts

-- Matching against the other side: the makers there have less, by exactly what has been filled.
pub record Exchanged (own : Side) (b : Book) (queues : ℕ → List ℕ) (ks : List ℕ) (m : Run)
    : Type 0 where
  pub queues' : ℕ → List ℕ
  pub levels' : List ℕ
  pub book : IsBook m.book queues'
  pub stocked : Stocked m.book queues'
  pub ranked : Ranked (opposite own) m.book levels'
  pub taken :
      total m.fills + quantity_on (tiers_of m.book queues' levels')
      ≡ quantity_on (tiers_of b queues ks)
  pub across : (k : ℕ) → Holds own m.book k ↔ Holds own b k
  pub same : (k : ℕ) → Holds own b k → tier_of m.book queues' k ≡ tier_of b queues k

-- `rest_order` for what of the order is not among the fills
abbrev pub rest_of : OrderRequest → Run → Book × ProcessResult
rest_of r m = rest_order m.book r.id r.side r.price_ticks (r.quantity - total m.fills)

-- The remainder has come to rest; it may have been refused, but not for want of room.
abbrev pub IsRested : OrderRequest → Run → Submitted → Type 0
IsRested r m s =
    (s.fills ≡ m.fills)
    × (s.book ≡ (rest_of r m).0)
    × (is_exhausted (rest_of r m).1 ≡ false)
    × (may_rest r ≡ true)

-- The remainder is dropped, if there is one.
abbrev pub IsDropped : Run → Submitted → Type 0
IsDropped m s = (s.fills ≡ m.fills) × (s.book ≡ m.book)

abbrev pub IsUntouched : Book → Submitted → Type 0
IsUntouched b s = (s.fills ≡ []) × (s.book ≡ b)

-- What becomes of a new order on the book `b` with the run `m` behind its matching, by its result.
abbrev pub Disposed : OrderRequest → Book → Run → Submitted → SubmitResult → Type 0
Disposed r b m s filled_complete = IsDropped m s × (m.remaining ≡ 0)
Disposed r b m s rested_no_fill = IsRested r m s
Disposed r b m s partial_fill_rested = IsRested r m s
Disposed r b m s partial_fill_killed = IsDropped m s × (may_rest r ≡ false)
Disposed r b m s no_fill_killed = IsDropped m s × (may_rest r ≡ false)
Disposed r b m s canceled = ⊥
Disposed r b m s rejected_fok =
    IsUntouched b s × (is_fok r.tif ≡ true) × (fillable_quantity b r < r.quantity)
Disposed r b m s rejected_duplicate =
    IsUntouched b s × (may_rest r ≡ true) × (find_order_index b r.id ≢ npos)
Disposed r b m s rejected_capacity =
    (s.fills ≡ m.fills)
    × (s.book ≡ (rest_of r m).0)
    × ((rest_of r m).1 ≡ capacity_exhausted)
    × (may_rest r ≡ true)
Disposed r b m s rejected_invalid = IsUntouched b s × (r.quantity ≡ 0)

module _ (b : Book) (r : OrderRequest) where
  abbrev DisposedAs : Run → Submitted → Type 0
  DisposedAs m s = Disposed r b m s s.result
