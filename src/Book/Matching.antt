-- ===== src/Book/Matching.antt =====
-- Match mode (src/OrderBook.cpp): an incoming order against the resting book. The sink's fills are
-- the list that `submit` gives beside the book and the result, first fill first.
pub mod Fills
pub mod Prices
pub mod Numbers
pub mod Rejected
pub mod Sweep
pub mod Trade
pub mod Worked
pub mod Level
pub mod Tiers
pub mod Step
pub mod Done
pub mod Complete
pub mod Offered
pub mod Fillable
pub mod Kill
pub mod Settle
mod Tests
use market_order_book_engine.Base.{
  ℕ, zero, suc, ◌+◌, ℤ, List, [], ◌∷◌, ◌++◌, Bool, true, false, ◌&&◌, not, min, ltb, leb_ℤ, ◌==◌,
  add64, sub64, length, if◌then◌else◌,
}
use market_order_book_engine.Types.{
  Side, buy, sell, opposite, OrderType, limit, market, TimeInForce, gtc, ioc, fok, RequestType,
  OrderRequest, Fill, ProcessResult, applied, capacity_exhausted, is_applied, SubmitResult,
  filled_complete, rested_no_fill, partial_fill_rested, partial_fill_killed, no_fill_killed,
  canceled, rejected_fok, rejected_duplicate, rejected_capacity, rejected_invalid,
}
use market_order_book_engine.Book.Table.{npos}
use market_order_book_engine.Book.State.{Order, Book, order_at, level_at, set_order, set_level}
use market_order_book_engine.Book.Ladder.{size_of, heap_at, ladder_top}
use market_order_book_engine.Book.Links.{
  find_order_index, erase_order_lookup, unlink, free_order_slot,
}
use market_order_book_engine.Book.Events.{rest_order, cancel}

-- Would a trade at the level's price honour the request's limit?
unfoldable pub within_limit : Side → ℤ → ℤ → Bool
within_limit buy price level_price = leb_ℤ level_price price
within_limit sell price level_price = leb_ℤ price level_price

abbrev pub crosses_type : OrderType → Bool → Bool
crosses_type market inside = true
crosses_type limit inside = inside

unfoldable pub crosses : OrderRequest → ℤ → Bool
unfolding within_limit
crosses r level_price = crosses_type r.order_type (within_limit r.side r.price_ticks level_price)

unfoldable pub fillable_loop : Book → OrderRequest → ℕ → ℕ → ℕ → ℕ
fillable_loop b r zero i available = available
fillable_loop b r (suc n) i available =
    let level = level_at b (heap_at (opposite r.side) b i) in
    fillable_loop b r n (suc i)
      (if crosses r level.price then add64 available level.total_quantity else available)

unfoldable pub fillable_quantity : Book → OrderRequest → ℕ
unfolding fillable_loop
fillable_quantity b r = fillable_loop b r (size_of (opposite r.side) b) 0 0

-- What the matching loops carry: the book, what remains of the order, the fills so far.
pub record Run : Type 0 where
  pub book : Book
  pub remaining : ℕ
  pub fills : List Fill

-- The trade of `traded` with the maker at `index`.
unfoldable pub fill_of : OrderRequest → Book → ℤ → ℕ → ℕ → Fill
fill_of r b price index traded = record {
  taker_id = r.id;
  maker_id = (order_at b index).id;
  taker_side = r.side;
  price_ticks = price;
  quantity = traded;
  sequence = b.fill_sequence;
}

-- A maker that is filled leaves the book.
unfoldable pub remove_maker : Book → ℕ → Book
remove_maker b index =
    let b1 = free_order_slot (unlink (erase_order_lookup b (order_at b index).id) index) index in
    record b1 { active_orders = sub64 b1.active_orders 1 }

-- A maker that is filled in part stays, with less.
unfoldable pub reduce_maker : Book → ℕ → ℕ → ℕ → Book
reduce_maker b level_index index traded =
    let maker = order_at b index in
    let b1 = set_order b index (record maker { quantity = sub64 maker.quantity traded }) in
    let level = level_at b1 level_index in
    set_level b1 level_index (record level { total_quantity = sub64 level.total_quantity traded })

-- One round of the inner loop, with the index of the next.
unfoldable pub trade_step : OrderRequest → ℤ → ℕ → Run → ℕ → Run × ℕ
trade_step r price level_index s index =
    let maker = order_at s.book index in
    let traded = min s.remaining maker.quantity in
    let b1 = record (s.book) { fill_sequence = add64 s.book.fill_sequence 1 } in
    let filled = traded == maker.quantity in
    let s' : Run = record {
      book = if filled then remove_maker b1 index else reduce_maker b1 level_index index traded;
      remaining = sub64 s.remaining traded;
      fills = s.fills ++ (fill_of r s.book price index traded ∷ []);
    } in
    (s', if filled then maker.next else index)

-- `while (order_index != npos && remaining > 0)`
unfoldable pub level_loop : OrderRequest → ℤ → ℕ → ℕ → Run → ℕ → Run
level_loop r price level_index zero s index = s
level_loop r price level_index (suc rounds) s index =
    let step = trade_step r price level_index s index in
    let rest = level_loop r price level_index rounds step.0 step.1 in
    if not (index == npos) && ltb 0 s.remaining then rest else s

-- `while (remaining > 0)`
unfoldable pub match_loop : OrderRequest → ℕ → Run → Run
match_loop r zero s = s
match_loop r (suc rounds) s =
    let level_index = ladder_top (opposite r.side) s.book in
    let level = level_at s.book level_index in
    let s' = level_loop r level.price level_index (length s.book.orders + 1) s level.head in
    let rest = match_loop r rounds s' in
    if ltb 0 s.remaining && not (level_index == npos) && crosses r level.price then rest else s

-- A round of the inner loop takes an order or ends it, and a round of the outer loop takes a level:
-- no loop runs longer than the pools are.
unfoldable pub match_order : Book → OrderRequest → Run
match_order b r =
    match_loop r (length b.levels + 1) (record { book = b; remaining = r.quantity; fills = [] })

abbrev pub is_gtc : TimeInForce → Bool
is_gtc gtc = true
is_gtc _ = false

abbrev pub is_fok : TimeInForce → Bool
is_fok fok = true
is_fok _ = false

abbrev pub is_limit : OrderType → Bool
is_limit limit = true
is_limit market = false

abbrev pub may_rest : OrderRequest → Bool
may_rest r = is_limit r.order_type && is_gtc r.tif

abbrev pub is_exhausted : ProcessResult → Bool
is_exhausted capacity_exhausted = true
is_exhausted _ = false

pub record Submitted : Type 0 where
  pub book : Book
  pub result : SubmitResult
  pub fills : List Fill

-- What becomes of the remainder.
unfoldable pub dispose : OrderRequest → Run → Submitted
dispose r s =
    let filled = sub64 r.quantity s.remaining in
    let (b, rested) = rest_order s.book r.id r.side r.price_ticks s.remaining in
    if s.remaining == 0
    then record { book = s.book; result = filled_complete; fills = s.fills }
    else if may_rest r
    then record {
      book = b;
      result =
          if is_exhausted rested
          then rejected_capacity
          else if filled == 0
          then rested_no_fill
          else partial_fill_rested;
      fills = s.fills;
    }
    else record {
      book = s.book;
      result = if filled == 0 then no_fill_killed else partial_fill_killed;
      fills = s.fills;
    }

abbrev pub rejected : Book → SubmitResult → Submitted
rejected b result = record { book = b; result = result; fills = [] }

unfoldable pub submit_new : Book → OrderRequest → Submitted
submit_new b r =
    if r.quantity == 0
    then rejected b rejected_invalid
    else if may_rest r && not (find_order_index b r.id == npos)
    then rejected b rejected_duplicate
    else if is_fok r.tif && ltb (fillable_quantity b r) r.quantity
    then rejected b rejected_fok
    else dispose r (match_order b r)

unfoldable pub submit_cancel : Book → OrderRequest → Submitted
submit_cancel b r =
    let (b', done) = cancel b r.id in
    rejected b' (if is_applied done then canceled else rejected_invalid)

unfoldable pub submit_typed : Book → OrderRequest → RequestType → Submitted
submit_typed b r RequestType.new = submit_new b r
submit_typed b r RequestType.cancel = submit_cancel b r

unfoldable pub submit : Book → OrderRequest → Submitted
unfolding submit_typed
submit b r = submit_typed b r r.type
