-- ===== src/Book/Events/Exhausted.antt =====
-- What the events do once the table of levels has no empty slot left.
use market_order_book_engine.Base.{ℕ, ◌≡◌, ◌≢◌, ℤ, false, ◌&&◌, ltb, ◌==◌, arith, eqb_ℤ}
use market_order_book_engine.Types.{Side, side_beq, MarketDataEvent, capacity_exhausted}
use market_order_book_engine.Book.Table.{npos}
use market_order_book_engine.Book.Table.Full.{IsFull}
use market_order_book_engine.Book.State.{Book, level_key, order_at, level_at}
use market_order_book_engine.Book.Links.{find_order_index, find_level_index, unlink}
use market_order_book_engine.Book.Links.Keeps.{
  unlink-order_lookup, unlink-IsFull, acquire_level-full,
}
use market_order_book_engine.Book.Events.{rest_order, modify, move_order}

-- With no empty slot in the table of levels, a valid new order at a price where no order rests is
-- refused for want of room, however many orders and levels are free.
pub rest_order-full :
    (b : Book) (id : ℕ) (side : Side) (price : ℤ) (quantity : ℕ)
    → IsFull b.level_lookup
    → find_level_index b side price ≡ npos
    → quantity ≢ 0
    → find_order_index b id ≡ npos
    → (rest_order b id side price quantity).1 ≡ capacity_exhausted
unfolding rest_order
rest_order-full b id side price quantity full e q fresh =
    ground (arith, acquire_level-full b side price full e)

-- With no empty slot in the table of levels, a modification that passes the check of capacity and
-- moves its order to a price where no level is once the order is unlinked, reports that capacity is
-- exhausted, yet has unlinked the order: the pool is as `unlink` leaves it, and the order is found
-- as before.
pub modify-full :
    (b : Book) (e : MarketDataEvent)
    → let index = find_order_index b e.order_id in
      IsFull b.level_lookup
      → e.quantity ≢ 0
      → index ≢ npos
      → (side_beq (order_at b index).side e.side && eqb_ℤ (order_at b index).price e.price_ticks)
        ≡ false
      → (find_level_index b e.side e.price_ticks == npos
          && (b.free_level == npos)
          && ltb 1 (level_at b (order_at b index).level).order_count)
        ≡ false
      → find_level_index (unlink b index) e.side e.price_ticks ≡ npos
      → ((modify b e).1 ≡ capacity_exhausted)
        × ((modify b e).0.orders ≡ (unlink b index).orders)
        × (find_order_index (modify b e).0 e.order_id ≡ index)
unfolding modify move_order find_order_index
modify-full b e full q found moves room absent =
    let index = find_order_index b e.order_id in
    let tried =
      acquire_level-full (unlink b index) e.side e.price_ticks (unlink-IsFull b index full)
        absent in
    let lookup = unlink-order_lookup b index in ground (arith, tried, lookup)
