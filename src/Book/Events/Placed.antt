-- ===== src/Book/Events/Placed.antt =====
-- What it means that an order of `rest_order` has been placed in a whole book, or not.
use market_order_book_engine.Base.{ℕ, ◌≤◌, ◌<◌, ◌≡◌, ◌≢◌, ◌⊎◌, List, [], ◌∷◌, ◌++◌, ◌↔◌, ℤ, length}
use market_order_book_engine.Types.{
  Side, ProcessResult, applied, capacity_exhausted, invalid_quantity, duplicate_order_id,
  order_not_found,
}
use market_order_book_engine.Book.Table.{npos}
use market_order_book_engine.Book.State.{Book, order_at}
use market_order_book_engine.Book.Ladder.Swap.{Holds}
use market_order_book_engine.Book.Ladder.Write.{price_of}
use market_order_book_engine.Book.Links.{find_order_index, find_level_index}
use market_order_book_engine.Book.Links.Chain.{Lacks}
use market_order_book_engine.Book.Whole.{IsBook}
use market_order_book_engine.Book.Whole.Unlink.{SameMaker}
use market_order_book_engine.Book.Whole.Acquire.{IsVacant}

-- The slot of an order is free: no queue holds it.
pub record IsIdle (b : Book) (queues : ℕ → List ℕ) (o : ℕ) : Type 0 where
  pub inside : o < length b.orders
  pub out : (s : Side) (k : ℕ) → Holds s b k → Lacks o (queues k)

-- The heads of the free lists are free, and the levels that are found are on their ladders, at their prices.
pub record IsReady (b : Book) (queues : ℕ → List ℕ) : Type 0 where
  pub small : length b.orders ≤ npos
  pub slot : (b.free_order ≡ npos) ⊎ IsIdle b queues b.free_order
  pub vacant : (b.free_level ≡ npos) ⊎ IsVacant b b.free_level
  pub known :
      (side : Side) (price : ℤ)
      → (find_level_index b side price ≡ npos)
        ⊎ (Holds side b (find_level_index b side price)
            × (price_of b (find_level_index b side price) ≡ price))

-- The level of an order at the price and the orders that are in it already: it is the level that is found, or none
-- is and the level was on no ladder.
abbrev pub Found : Side → ℤ → (ℕ → List ℕ) → Book → ℕ → List ℕ → Type 0
Found side price queues b level before =
    ((level ≡ find_level_index b side price) × Holds side b level × (before ≡ queues level))
    ⊎ ((find_level_index b side price ≡ npos) × ((s : Side) → ¬ (Holds s b level)) × (before ≡ []))

-- The order `o` is the last one of the level of its side and price, behind the orders that were there; the ladders hold
-- that level and those of before, and the queues of other levels are as before.
pub record Placed (id : ℕ) (side : Side) (price : ℤ) (quantity o : ℕ) (queues queues' : ℕ → List ℕ)
    (b b' : Book) : Type 0 where
  pub level : ℕ
  pub before : List ℕ
  pub holds : (s : Side) (k : ℕ) → Holds s b' k ↔ (Holds s b k ⊎ ((s ≡ side) × (k ≡ level)))
  pub price_is : price_of b' level ≡ price
  pub here : queues' level ≡ before ++ o ∷ []
  pub earlier : Found side price queues b level before
  pub others : (k : ℕ) → k ≢ level → queues' k ≡ queues k
  pub id_of : (order_at b' o).id ≡ id
  pub quantity_of : (order_at b' o).quantity ≡ quantity

-- The ladders and the queues of their levels are as they were.
pub record Unplaced (queues queues' : ℕ → List ℕ) (b b' : Book) : Type 0 where
  pub holds : (s : Side) (k : ℕ) → Holds s b' k ↔ Holds s b k
  pub same : (s : Side) (k : ℕ) → Holds s b k → queues' k ≡ queues k

-- What a result says of the order.
abbrev pub Explained : Book → ℕ → ℕ → ProcessResult → Type 0
Explained b id quantity applied = (0 < quantity) × (find_order_index b id ≡ npos)
Explained b id quantity invalid_quantity = quantity ≡ 0
Explained b id quantity duplicate_order_id = (0 < quantity) × (find_order_index b id ≢ npos)
Explained b id quantity order_not_found = ⊥
Explained b id quantity capacity_exhausted = (0 < quantity) × (find_order_index b id ≡ npos)

-- The book is whole, the levels that were on the ladders keep their prices and the other orders their ids and
-- quantities. The order is placed if it is accepted, and nothing else has changed if it is not.
pub record Added (id : ℕ) (side : Side) (price : ℤ) (quantity o : ℕ) (queues : ℕ → List ℕ)
    (b b' : Book) (result : ProcessResult) : Type 0 where
  pub queues' : ℕ → List ℕ
  pub book : IsBook b' queues'
  pub told : Explained b id quantity result
  pub prices : (s : Side) (k : ℕ) → Holds s b k → price_of b' k ≡ price_of b k
  pub makers : (x : ℕ) → x < length b.orders → x ≢ o → SameMaker b b' x
  pub placed : result ≡ applied → Placed id side price quantity o queues queues' b b'
  pub unplaced : result ≢ applied → Unplaced queues queues' b b'
