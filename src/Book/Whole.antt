-- ===== src/Book/Whole.antt =====
-- The invariant of a book: its two ladders and the queues of the levels in them.
pub mod Kin
pub mod Queues
pub mod Changes
pub mod Leave
pub mod Release
pub mod Unlink
pub mod Reduce
pub mod Join
pub mod Enter
pub mod Acquire
use market_order_book_engine.Base.{ℕ, ◌^◌, ◌≤◌, ◌<◌, ◌≡◌, ◌≢◌, List, [], Bool, true, All, length}
use market_order_book_engine.Types.{Side}
use market_order_book_engine.Book.Table.{npos}
use market_order_book_engine.Book.State.{Book, order_at, level_at}
use market_order_book_engine.Book.Ladder.Swap.{Holds}
use market_order_book_engine.Book.Ladder.Write.{HasLadder}
use market_order_book_engine.Book.Links.Fifo.{IsQueue}

-- The order is one of the level.
pub record Lodged (b : Book) (l x : ℕ) : Type 0 where
  pub level : (order_at b x).level ≡ l
  pub quantity : (order_at b x).quantity < 2 ^ 64
  pub active : (order_at b x).active ≡ true

-- The levels of each side's ladder are of that side, and `queues` are the queues of these levels.
pub record IsBook (b : Book) (queues : ℕ → List ℕ) : Type 0 where
  pub room : length b.levels ≤ npos
  pub ladder : (side : Side) → HasLadder side b
  pub sided : (side : Side) (l : ℕ) → Holds side b l → (level_at b l).side ≡ side
  pub queue : (side : Side) (l : ℕ) → Holds side b l → IsQueue b l (queues l)
  pub lodged : (side : Side) (l : ℕ) → Holds side b l → All (Lodged b l) (queues l)

-- No level of a ladder is empty.
abbrev pub Stocked : Book → (ℕ → List ℕ) → Type 0
Stocked b queues = (side : Side) (l : ℕ) → Holds side b l → queues l ≢ []
