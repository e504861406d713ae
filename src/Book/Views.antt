-- ===== src/Book/Views.antt =====
-- The queries of an OrderBook (src/OrderBook.cpp). `std::sort` is an insertion sort here: no two
-- levels of a book have the same side and price, so the sorted order is one.
use market_order_book_engine.Base.{
  ℕ, zero, suc, ◌+◌, ℤ, List, [], ◌∷◌, ◌++◌, Option, none, some, Bool, true, false, bit_xor, ltb_ℤ,
  length, ◌==◌, if◌then◌else◌,
}
use market_order_book_engine.Types.{Side, buy, sell, OrderView, LevelView}
use market_order_book_engine.Checksum.{checksum_mix, order_checksum}
use market_order_book_engine.Book.Table.{npos}
use market_order_book_engine.Book.State.{Order, Level, Book, order_at, level_at}
use market_order_book_engine.Book.Ladder.{ladder_top}
use market_order_book_engine.Book.Links.{find_order_index, find_level_index}

abbrev pub order_view : Order → OrderView
order_view o = record {
  id = o.id;
  side = o.side;
  price_ticks = o.price;
  quantity = o.quantity;
  priority = o.priority;
}

abbrev pub level_view : Level → LevelView
level_view l = record {
  side = l.side;
  price_ticks = l.price;
  total_quantity = l.total_quantity;
  order_count = l.order_count;
}

unfoldable pub find_order : Book → ℕ → Option OrderView
find_order b id =
    let index = find_order_index b id in
    if index == npos then none else some (order_view (order_at b index))

top_view : Book → Side → Option LevelView
top_view b side =
    let top = ladder_top side b in if top == npos then none else some (level_view (level_at b top))

unfoldable pub best_bid : Book → Option LevelView
unfolding top_view
best_bid b = top_view b buy

unfoldable pub best_ask : Book → Option LevelView
unfolding top_view
best_ask b = top_view b sell

-- the comparison that sorts the levels: bids from the highest, then asks from the lowest
abbrev pub sorts_before : LevelView → LevelView → Bool
sorts_before l r = cases l.side r.side
  where
    cases : Side → Side → Bool
    cases buy buy = ltb_ℤ r.price_ticks l.price_ticks
    cases buy sell = true
    cases sell buy = false
    cases sell sell = ltb_ℤ l.price_ticks r.price_ticks

insert_sorted : LevelView → List LevelView → List LevelView
insert_sorted v [] = v ∷ []
insert_sorted v (x ∷ xs) = if sorts_before v x then v ∷ x ∷ xs else x ∷ insert_sorted v xs

active_levels : List Level → List LevelView
unfolding insert_sorted
active_levels [] = []
active_levels (l ∷ ls) =
    let rest = active_levels ls in if l.active then insert_sorted (level_view l) rest else rest

unfoldable pub levels : Book → List LevelView
unfolding active_levels
levels b = active_levels b.levels

-- A walk along `next`, over no more orders than there are.
pub walk : Book → ℕ → ℕ → List Order
walk b zero index = []
walk b (suc rounds) index =
    let rest = walk b rounds (order_at b index).next in
    if index == npos then [] else order_at b index ∷ rest

pub queue_of : Book → ℕ → List Order
unfolding walk
queue_of b level_index = walk b (length b.orders + 1) (level_at b level_index).head

ids : List Order → List ℕ
ids [] = []
ids (o ∷ os) = o.id ∷ ids os

unfoldable pub level_order_ids : Book → Side → ℤ → List ℕ
unfolding queue_of ids
level_order_ids b side price =
    let level_index = find_level_index b side price in
    if level_index == npos then [] else ids (queue_of b level_index)

views : List Order → List OrderView
views [] = []
views (o ∷ os) = order_view o ∷ views os

level_orders : Book → List LevelView → List OrderView
unfolding views queue_of
level_orders b [] = []
level_orders b (v ∷ vs) =
    views (queue_of b (find_level_index b v.side v.price_ticks)) ++ level_orders b vs

unfoldable pub orders_in_priority : Book → List OrderView
unfolding levels level_orders
orders_in_priority b = level_orders b (levels b)

fold_active : ℕ → List Order → ℕ
fold_active result [] = result
fold_active result (o ∷ os) =
    fold_active (if o.active then bit_xor result (order_checksum (order_view o)) else result) os

unfoldable pub state_checksum : Book → ℕ
unfolding fold_active
state_checksum b = fold_active (checksum_mix b.active_orders) b.orders

abbrev pub order_count : Book → ℕ
order_count b = b.active_orders

abbrev pub capacity : Book → ℕ
capacity b = length b.orders
