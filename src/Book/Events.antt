-- ===== src/Book/Events.antt =====
-- Apply mode (src/OrderBook.cpp): the replay of events that an exchange has decided. Each operation
-- gives the book after it and its result.
pub mod Refused
pub mod Exhausted
pub mod Takes
pub mod Rests
pub mod Placed
pub mod Added
pub mod Begin
use market_order_book_engine.Base.{
  ℕ, ℤ, Option, none, some, Bool, true, false, ◌&&◌, not, ltb, ◌==◌, eqb_ℤ, add64, sub64,
  if◌then◌else◌,
}
use market_order_book_engine.Types.{
  Side, side_beq, EventType, MarketDataEvent, ProcessResult, applied, duplicate_order_id,
  order_not_found, invalid_quantity, capacity_exhausted,
}
use market_order_book_engine.Book.Table.{npos}
use market_order_book_engine.Book.State.{
  Order, fresh_order, Book, order_at, level_at, set_order, set_level,
}
use market_order_book_engine.Book.Links.{
  find_order_index, find_level_index, erase_order_lookup, insert_order_lookup, acquire_level,
  link_tail, unlink, free_order_slot,
}

-- `rest_order` from the level on: a slot from the free list takes the order, at the tail of its level.
unfoldable pub rest_at : Book → ℕ → Side → ℤ → ℕ → ℕ → Book × ProcessResult
rest_at b id side price quantity level_index =
    let order_index = b.free_order in
    let order : Order = record fresh_order {
      id = id;
      price = price;
      quantity = quantity;
      priority = b.next_priority;
      level = level_index;
      side = side;
      active = true;
    } in
    let b1 = record (set_order b order_index order) {
      free_order = (order_at b order_index).next_free;
      next_priority = add64 b.next_priority 1;
    } in
    let b2 = link_tail b1 order_index level_index in
    elim (insert_order_lookup b2 id order_index) [
      | none ↦ (free_order_slot (unlink b2 order_index) order_index, capacity_exhausted)
      | some b3 ↦ (record b3 { active_orders = add64 b3.active_orders 1 }, applied)
    ]

unfoldable pub rest_order : Book → ℕ → Side → ℤ → ℕ → Book × ProcessResult
rest_order b id side price quantity =
    if quantity == 0
    then (b, invalid_quantity)
    else if not (find_order_index b id == npos)
    then (b, duplicate_order_id)
    else if b.free_order == npos
    then (b, capacity_exhausted)
    else (let (b1, level_index) = acquire_level b side price in
        if level_index == npos
        then (b1, capacity_exhausted)
        else rest_at b1 id side price quantity level_index)

unfoldable pub add : Book → MarketDataEvent → Book × ProcessResult
add b e = rest_order b e.order_id e.side e.price_ticks e.quantity

-- `modify` at the price where the order rests: the level's total follows, the order keeps its place.
pub modify_in_place : Book → ℕ → ℕ → Book
modify_in_place b index quantity =
    let order = order_at b index in
    let level = level_at b order.level in
    let total = add64 (sub64 level.total_quantity order.quantity) quantity in
    let b1 = set_level b order.level (record level { total_quantity = total }) in
    set_order b1 index (record (order_at b1 index) { quantity = quantity })

-- `modify` to another price or side: the order leaves its level and joins the tail of the other.
unfoldable pub move_order : Book → ℕ → MarketDataEvent → Book × ProcessResult
move_order b index e =
    let b1 = unlink b index in
    let (b2, target) = acquire_level b1 e.side e.price_ticks in
    if target == npos
    then (b2, capacity_exhausted)
    else (let order = record (order_at b2 index) {
      price = e.price_ticks;
      quantity = e.quantity;
      priority = b2.next_priority;
      level = target;
      side = e.side;
    } in
        let b3 = record (set_order b2 index order) { next_priority = add64 b2.next_priority 1 } in
        (link_tail b3 index target, applied))

unfoldable pub modify : Book → MarketDataEvent → Book × ProcessResult
modify b e =
    let index = find_order_index b e.order_id in
    let order = order_at b index in
    if e.quantity == 0
    then (b, invalid_quantity)
    else if index == npos
    then (b, order_not_found)
    else if side_beq order.side e.side && eqb_ℤ order.price e.price_ticks
    then (modify_in_place b index e.quantity, applied)
    else if find_level_index b e.side e.price_ticks == npos
        && (b.free_level == npos)
        && ltb 1 (level_at b order.level).order_count
    then (b, capacity_exhausted)
    else move_order b index e

unfoldable pub cancel : Book → ℕ → Book × ProcessResult
cancel b id =
    let index = find_order_index b id in
    if index == npos
    then (b, order_not_found)
    else (let b1 = free_order_slot (erase_order_lookup (unlink b index) id) index in
        (record b1 { active_orders = sub64 b1.active_orders 1 }, applied))

-- A trade or a reduction below the order's quantity.
unfoldable pub decrement : Book → ℕ → ℕ → Book
decrement b index quantity =
    let order = order_at b index in
    let b1 = set_order b index (record order { quantity = sub64 order.quantity quantity }) in
    let level = level_at b1 order.level in
    set_level b1 order.level (record level { total_quantity = sub64 level.total_quantity quantity })

unfoldable pub trade : Book → ℕ → ℕ → Book × ProcessResult
trade b id quantity =
    let index = find_order_index b id in
    let order = order_at b index in
    if quantity == 0
    then (b, invalid_quantity)
    else if index == npos
    then (b, order_not_found)
    else if ltb order.quantity quantity
    then (b, invalid_quantity)
    else if quantity == order.quantity
    then cancel b id
    else (decrement b index quantity, applied)

unfoldable pub replace : Book → MarketDataEvent → Book × ProcessResult
replace b e =
    let index = find_order_index b e.order_id in
    let side = (order_at b index).side in
    if e.quantity == 0
    then (b, invalid_quantity)
    else if index == npos
    then (b, order_not_found)
    else if not (e.new_order_id == e.order_id) && not (find_order_index b e.new_order_id == npos)
    then (b, duplicate_order_id)
    else rest_order (cancel b e.order_id).0 e.new_order_id side e.price_ticks e.quantity

unfoldable pub dispatch : Book → MarketDataEvent → EventType → Book × ProcessResult
dispatch b e EventType.add = add b e
dispatch b e EventType.modify = modify b e
dispatch b e EventType.cancel = cancel b e.order_id
dispatch b e EventType.trade = trade b e.order_id e.quantity
dispatch b e EventType.reduce = trade b e.order_id e.quantity
dispatch b e EventType.replace = replace b e

unfoldable pub process_event : Book → MarketDataEvent → Book × ProcessResult
unfolding dispatch
process_event b e = dispatch b e e.type
