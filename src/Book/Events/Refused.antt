-- ===== src/Book/Events/Refused.antt =====
-- Events that are refused.
use market_order_book_engine.Base.{
  ℕ, ◌≡◌, ◌≢◌, ap, ℤ, Bool, true, false, ◌==◌, arith, if◌then◌else◌,
}
use market_order_book_engine.Types.{
  Side, EventType, MarketDataEvent, ProcessResult, applied, duplicate_order_id, order_not_found,
  invalid_quantity, capacity_exhausted,
}
use market_order_book_engine.Book.Table
use market_order_book_engine.Book.Table.{npos}
use market_order_book_engine.Book.Table.Valid.{IsTable}
use market_order_book_engine.Book.Table.Erase.{erase-Erased}
use market_order_book_engine.Book.State.{Book, order_key, order_at}
use market_order_book_engine.Book.Links.{find_order_index, erase_order_lookup, free_order_slot}
use market_order_book_engine.Book.Links.Keeps.{unlink-order_lookup}
use market_order_book_engine.Book.Events.{
  rest_at, rest_order, add, modify, move_order, cancel, trade, replace, dispatch, process_event,
}

-- the results that promise that the book is as it was
abbrev pub refuses : ProcessResult → Bool
refuses duplicate_order_id = true
refuses order_not_found = true
refuses invalid_quantity = true
refuses applied = false
refuses capacity_exhausted = false

abbrev Untouched : Book → Book × ProcessResult → Type 0
Untouched b r = refuses r.1 ≡ true → r.0 ≡ b

rest_order-Untouched :
    (b : Book) (id : ℕ) (side : Side) (price : ℤ) (quantity : ℕ)
    → Untouched b (rest_order b id side price quantity)
unfolding rest_order rest_at
rest_order-Untouched b id side price quantity h = ground arith

modify-Untouched : (b : Book) (e : MarketDataEvent) → Untouched b (modify b e)
unfolding modify move_order
modify-Untouched b e h = ground arith

cancel-Untouched : (b : Book) (id : ℕ) → Untouched b (cancel b id)
unfolding cancel
cancel-Untouched b id h = ground arith

trade-Untouched : (b : Book) (id quantity : ℕ) → Untouched b (trade b id quantity)
unfolding trade cancel
trade-Untouched b id quantity h = ground arith

-- After a cancellation an id is found that was found before, but for the one that is gone.
find_order_index-cancel :
    (b : Book) (id q : ℕ)
    → IsTable b.order_lookup
    → find_order_index b id ≢ npos
    → find_order_index (cancel b id).0 q ≡ (if id == q then npos else find_order_index b q)
unfolding cancel find_order_index erase_order_lookup free_order_slot
find_order_index-cancel b id q table found =
    let e = unlink-order_lookup b (find_order_index b id) in
    ground (arith, e, (erase-Erased table id).reads q, ap (λ t. Table.find (Table.erase t id) q) e)

-- A replacement that has been checked can still fail for want of room, and for no other reason.
rest_order_accepts :
    (b : Book) (id : ℕ) (side : Side) (price : ℤ) (quantity : ℕ)
    → quantity ≢ 0
    → find_order_index b id ≡ npos
    → refuses (rest_order b id side price quantity).1 ≡ false
unfolding rest_order rest_at
rest_order_accepts b id side price quantity q e = ground arith

replace-Untouched :
    (b : Book) (e : MarketDataEvent) → IsTable b.order_lookup → Untouched b (replace b e)
unfolding replace
replace-Untouched b e table h =
    let b' = (cancel b e.order_id).0 in
    ground (
      arith,
      find_order_index-cancel b e.order_id e.new_order_id table,
      rest_order_accepts b' e.new_order_id (order_at b (find_order_index b e.order_id)).side
          e.price_ticks e.quantity,
    )

-- An event that is refused for its quantity, for an unknown order or for an id in use leaves the
-- book as it was. For a replacement this rests on the lookup of orders being well formed.
pub process_event-refuses :
    (b : Book) (e : MarketDataEvent)
    → IsTable b.order_lookup
    → refuses (process_event b e).1 ≡ true
    → (process_event b e).0 ≡ b
unfolding process_event add
process_event-refuses b e table = typed e.type
  where
    typed : (type : EventType) → Untouched b (dispatch b e type)
    typed EventType.add = rest_order-Untouched b e.order_id e.side e.price_ticks e.quantity
    typed EventType.modify = modify-Untouched b e
    typed EventType.cancel = cancel-Untouched b e.order_id
    typed EventType.trade = trade-Untouched b e.order_id e.quantity
    typed EventType.reduce = trade-Untouched b e.order_id e.quantity
    typed EventType.replace = replace-Untouched b e table
