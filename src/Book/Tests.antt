-- ===== src/Book/Tests.antt =====
-- Runs of small books and tables, and the theorems on them.
use market_order_book_engine.Base.{
  ◌↔◌, ◌⊎◌, ◌≤◌, ℕ, ◌^◌, ◌<◌, ◌≢◌, pos, List, [], ◌∷◌, none, some, ◌≡◌, refl, arith, suc, zero, All,
  to_u64, get_or, set, replicate,
}
use market_order_book_engine.Types.{
  Side, buy, sell, EventType, MarketDataEvent, capacity_exhausted, OrderRequest, limit, gtc, fok,
  RequestType, partial_fill_rested,
}
use market_order_book_engine.Checksum.{checksum_mix}
use market_order_book_engine.Book.Table
use market_order_book_engine.Book.Table.{npos, Slot, empty_slot}
use market_order_book_engine.Book.Table.Valid.{IsTable, fresh-IsTable}
use market_order_book_engine.Book.Table.Enter.{Entered, insert_or_reuse-Entered}
use market_order_book_engine.Book.Table.Erase.{Erased, erase-Erased}
use market_order_book_engine.Book.Table.Full.{IsFull}
use market_order_book_engine.Book.State.Sizes.{IsFresh, new_book-IsFresh}
use market_order_book_engine.Book.Matching.Numbers.{Numbered, submit-Numbered}
use market_order_book_engine.Book.State.{Book, LevelKey, order_key, level_key, new_book, level_hash}
use market_order_book_engine.Book.Samples.{book_of, add_event, cancel_event, replay}
use market_order_book_engine.Book.Ladder.{
  ladder_push, ladder_remove, ladder_before, swap_entries, sift_up_loop, ladder_sift_up, best_child,
  sift_down_loop, ladder_sift_down, refill, ladder_top,
}
use market_order_book_engine.Book.Links.{
  find_order_index, find_level_index, key_of, unlink, erase_order_lookup, erase_level_lookup,
  insert_order_lookup, insert_level_lookup, take_level, acquire_level, release_level, link_tail,
  leave_queue, free_order_slot,
}
use market_order_book_engine.Book.Events.{
  process_event, rest_order, modify, dispatch, add, rest_at, cancel, move_order, trade, decrement,
  replace,
}
use market_order_book_engine.Book.Events.Placed.{IsReady}
use market_order_book_engine.Book.Events.Begin.{IsUnused, new_book-IsBook}
use market_order_book_engine.Book.Whole.{IsBook}
use market_order_book_engine.Book.Ladder.Swap.{Holds}
use market_order_book_engine.Book.Events.Refused.{process_event-refuses}
use market_order_book_engine.Book.Events.Exhausted.{rest_order-full, modify-full}
use market_order_book_engine.Book.Matching.{
  submit, submit_new, submit_typed, dispose, match_order, match_loop, level_loop, trade_step,
  reduce_maker, remove_maker, fill_of, fillable_quantity, fillable_loop, crosses, within_limit,
}
use market_order_book_engine.Book.Matching.Prices.{IsFillOf, submit-IsFillOf}
use market_order_book_engine.Book.Matching.Rejected.{submit-refuses}

-- A table of two slots: entered, erased, and entered again.
abbrev fresh_ids : List (Slot ℕ)
unfolding replicate
fresh_ids = replicate (2 ^ 1) empty_slot

abbrev ids_with : ℕ → List (Slot ℕ) → List (Slot ℕ)
ids_with id t = elim (Table.insert_or_reuse t id 3) [ none ↦ t | some t' ↦ t' ]

insert_or_reuse-Entered_example : Entered fresh_ids 7 3 (ids_with 7 fresh_ids)
unfolding Table.insert_or_reuse Table.find get_or set replicate checksum_mix
insert_or_reuse-Entered_example =
    insert_or_reuse-Entered (fresh-IsTable 1) 7 3 (ground arith) refl refl

-- A tombstone is entered anew, and an absent key is erased in vain.
abbrev ids_reused : List (Slot ℕ)
unfolding Table.erase
ids_reused = Table.erase (ids_with 7 fresh_ids) 7

erase-Erased_example : Erased (ids_with 7 fresh_ids) 7 ids_reused
unfolding ids_reused
erase-Erased_example = erase-Erased insert_or_reuse-Entered_example.table 7

abbrev fresh_prices : List (Slot LevelKey)
unfolding replicate
fresh_prices = replicate (2 ^ 1) empty_slot

abbrev bid_at : ℕ → LevelKey
bid_at price = key_of buy (pos price)

abbrev prices_with : LevelKey → List (Slot LevelKey) → List (Slot LevelKey)
prices_with k t = elim (Table.insert t k 0) [ none ↦ t | some t' ↦ t' ]

-- What a proof on one of these books computes with.
unfoldable run : Book → MarketDataEvent → Book
unfolding Table.insert Table.insert_or_reuse Table.find Table.erase get_or set replicate
    checksum_mix level_hash to_u64 new_book process_event dispatch add rest_order rest_at cancel
    modify move_order trade decrement replace find_order_index find_level_index erase_order_lookup
    erase_level_lookup insert_order_lookup insert_level_lookup take_level acquire_level
    release_level link_tail leave_queue unlink free_order_slot ladder_before swap_entries
    sift_up_loop ladder_sift_up best_child sift_down_loop ladder_sift_down ladder_push refill
    ladder_remove ladder_top
run b e = (process_event b e).0

abbrev three_sells : Book
three_sells = replay (book_of 4) (
    add_event 1 sell 101 5
    ∷ add_event 2 sell 100 4
    ∷ add_event 3 sell 100 3
    ∷ add_event 4 buy 99 7
    ∷ [])

abbrev order : ℕ → Side → ℕ → ℕ → OrderRequest
order id side price quantity = record {
  type = RequestType.new;
  id = id;
  side = side;
  price_ticks = pos price;
  quantity = quantity;
  order_type = limit;
  tif = gtc;
}

abbrev buy_all : OrderRequest
buy_all = order 9 buy 101 20

-- It trades with 2, 3 and 1, and the rest of it rests.
buys_in_priority : (submit three_sells buy_all).result ≡ partial_fill_rested
unfolding submit submit_new submit_typed dispose match_order match_loop level_loop trade_step
    reduce_maker remove_maker fill_of fillable_quantity fillable_loop crosses within_limit run
buys_in_priority = refl

submit-IsFillOf_example : All (IsFillOf buy_all) (submit three_sells buy_all).fills
submit-IsFillOf_example = submit-IsFillOf three_sells buy_all

-- 13 are wanted at once, and 12 are for sale.
abbrev too_many : OrderRequest
too_many = record (order 9 buy 101 13) { tif = fok }

submit-refuses_example :
    ((submit three_sells too_many).book ≡ three_sells) × ((submit three_sells too_many).fills ≡ [])
unfolding submit submit_new submit_typed dispose match_order match_loop level_loop trade_step
    reduce_maker remove_maker fill_of fillable_quantity fillable_loop crosses within_limit run
submit-refuses_example = submit-refuses three_sells too_many refl

-- A replacement whose new id is in use.
abbrev to_taken_id : MarketDataEvent
to_taken_id = record (add_event 1 sell 98 2) { type = EventType.replace; new_order_id = 2 }

abbrev two_sells : Book
two_sells = replay (book_of 4) (add_event 1 sell 101 5 ∷ add_event 2 sell 100 4 ∷ [])

one_sell-IsTable : IsTable (run (book_of 4) (add_event 1 sell 101 5)).order_lookup
unfolding run
one_sell-IsTable = (insert_or_reuse-Entered (fresh-IsTable 3) 1 0 (omega arith) refl refl).table

two_sells-IsTable : IsTable two_sells.order_lookup
unfolding run
two_sells-IsTable = (insert_or_reuse-Entered one_sell-IsTable 2 1 (omega arith) refl refl).table

process_event-refuses_example : (process_event two_sells to_taken_id).0 ≡ two_sells
unfolding run
process_event-refuses_example = process_event-refuses two_sells to_taken_id two_sells-IsTable refl

-- A book for one order whose table of levels has no empty slot left: the level at 10 has gone and
-- the level at 12 holds order 2.
abbrev worn : Book
worn = replay (book_of 1) (add_event 1 buy 10 1 ∷ cancel_event 1 ∷ add_event 2 buy 12 1 ∷ [])

worn-IsFull : IsFull worn.level_lookup
unfolding run
worn-IsFull = record { width = 1; sized = refl; used = used }
  where
    used : (i : ℕ) → i < 2 → (Table.slot_at worn.level_lookup i).state ≢ Table.empty
    used zero h = ground arith
    used (suc zero) h = ground arith
    used (suc (suc i)) h = absurd (omega (arith, h))

rest_order-full_example : (rest_order worn 3 buy (pos 13) 1).1 ≡ capacity_exhausted
unfolding run
rest_order-full_example = rest_order-full worn 3 buy (pos 13) 1 worn-IsFull refl (ground arith) refl

abbrev to_thirteen : MarketDataEvent
to_thirteen = record (add_event 2 buy 13 1) { type = EventType.modify }

modify-full_example :
    ((modify worn to_thirteen).1 ≡ capacity_exhausted)
    × ((modify worn to_thirteen).0.orders ≡ (unlink worn 0).orders)
    × (find_order_index (modify worn to_thirteen).0 2 ≡ 0)
unfolding run
modify-full_example =
    modify-full worn to_thirteen worn-IsFull (ground arith) (ground arith) refl refl refl

submit-Numbered_example : Numbered three_sells.fill_sequence (submit three_sells buy_all).fills
submit-Numbered_example = submit-Numbered three_sells buy_all

abbrev room : ℕ
room = 3

new_book-IsFresh_example :
    ((new_book room ≡ none) ↔ ((room ≡ 0) ⊎ (2 ^ 32 ≤ room)))
    × ((b : Book)
        → new_book room ≡ some b
        → IsFresh room b.order_lookup × IsFresh room b.level_lookup)
new_book-IsFresh_example = new_book-IsFresh room

new_book-IsBook_example :
    IsBook (book_of 4) (λ k. [])
    × IsReady (book_of 4) (λ k. [])
    × IsUnused 4 (book_of 4)
    × ((s : Side) (l : ℕ) → ¬ (Holds s (book_of 4) l))
unfolding new_book
new_book-IsBook_example = new_book-IsBook 4 (book_of 4) refl
