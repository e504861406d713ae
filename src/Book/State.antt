-- ===== src/Book/State.antt =====
-- The state of an OrderBook: pools of orders and of price levels, threaded by indices into free
-- lists and queues, two lookup tables, and a heap of level indices for each side. A read of a
-- vector out of range, undefined in C++, gives a fresh entry, and a write there changes nothing.
pub mod Sizes
pub mod Touched
use market_order_book_engine.Base.{
  ℕ, zero, suc, ◌+◌, ◌-◌, ◌^◌, ℤ, pos, List, [], ◌∷◌, Option, none, some, Bool, true, false, ◌≡◌,
  ◌↔◌, ◌&&◌, ◌||◌, arith, bit_xor, mul64, to_u64, ltb, ◌==◌, eqb_ℤ, if◌then◌else◌, get_or, set,
  replicate, nat_eq,
}
use market_order_book_engine.Types.{Side, buy, side_beq}
use market_order_book_engine.Checksum.{checksum_mix}
use market_order_book_engine.Book.Table.{npos, Slot, Key, empty_slot}

pub record Order : Type 0 where
  pub id : ℕ
  pub price : ℤ
  pub quantity : ℕ
  pub priority : ℕ
  pub level : ℕ
  pub prev : ℕ
  pub next : ℕ
  pub next_free : ℕ
  pub side : Side
  pub active : Bool

pub record Level : Type 0 where
  pub price : ℤ
  pub total_quantity : ℕ
  pub order_count : ℕ
  pub head : ℕ
  pub tail : ℕ
  pub next_free : ℕ
  pub heap_pos : ℕ
  pub side : Side
  pub active : Bool

-- `Order{}`
abbrev pub fresh_order : Order
fresh_order = record {
  id = 0;
  price = pos 0;
  quantity = 0;
  priority = 0;
  level = npos;
  prev = npos;
  next = npos;
  next_free = npos;
  side = buy;
  active = false;
}

-- `Level{}`
abbrev pub fresh_level : Level
fresh_level = record {
  price = pos 0;
  total_quantity = 0;
  order_count = 0;
  head = npos;
  tail = npos;
  next_free = npos;
  heap_pos = npos;
  side = buy;
  active = false;
}

-- The key of a LevelSlot.
pub record LevelKey : Type 0 where
  pub side : Side
  pub price : ℤ

-- `entry.side == side && entry.price == price`
abbrev pub level_key_beq : LevelKey → LevelKey → Bool
level_key_beq a b = side_beq a.side b.side && eqb_ℤ a.price b.price

pub level_key_beq_iff : (a b : LevelKey) → (level_key_beq a b ≡ true) ↔ (a ≡ b)
level_key_beq_iff a b = ground arith

-- The hashes: src/OrderBook.cpp's `mix` of the id, and of the price salted by the side.
instance abbrev pub order_key : Key ℕ
order_key = record { eq = nat_eq; hash = checksum_mix; default = 0 }

unfoldable pub level_hash : LevelKey → ℕ
unfolding checksum_mix to_u64
level_hash k =
    checksum_mix (bit_xor (to_u64 k.price) (if side_beq k.side buy then 0 else 0x9e3779b97f4a7c15))

instance abbrev pub level_key : Key LevelKey
level_key = record {
  eq = record { beq = level_key_beq; beq_iff = level_key_beq_iff };
  hash = level_hash;
  default = record { side = buy; price = pos 0 };
}

pub record Book : Type 0 where
  pub orders : List Order
  pub levels : List Level
  pub order_lookup : List (Slot ℕ)
  pub level_lookup : List (Slot LevelKey)
  pub bid_heap : List ℕ
  pub ask_heap : List ℕ
  pub bid_heap_size : ℕ
  pub ask_heap_size : ℕ
  pub free_order : ℕ
  pub free_level : ℕ
  pub active_orders : ℕ
  pub next_priority : ℕ
  pub fill_sequence : ℕ

abbrev pub order_at : Book → ℕ → Order
order_at b i = get_or b.orders i fresh_order

abbrev pub level_at : Book → ℕ → Level
level_at b i = get_or b.levels i fresh_level

-- A write through a reference to an order or to a level.
abbrev pub set_order : Book → ℕ → Order → Book
set_order b i o = record b { orders = set b.orders i o }

abbrev pub set_level : Book → ℕ → Level → Book
set_level b i l = record b { levels = set b.levels i l }

-- `while (result < value) result <<= 1U;`
pub power_loop : ℕ → ℕ → ℕ → ℕ
power_loop zero result value = result
power_loop (suc rounds) result value =
    let rest = power_loop rounds (mul64 result 2) value in if ltb result value then rest else result

-- 64 rounds shift the one out of the word.
unfoldable pub next_power_of_two : ℕ → ℕ
unfolding power_loop
next_power_of_two value = power_loop 64 1 value

-- `i + 1 < max_orders ? i + 1 : npos`
abbrev pub next_free_of : ℕ → ℕ → ℕ
next_free_of i max_orders = if ltb (i + 1) max_orders then i + 1 else npos

-- The pools that the constructor threads, from index `i` on.
unfoldable pub init_orders : ℕ → ℕ → ℕ → List Order
init_orders zero i max_orders = []
init_orders (suc n) i max_orders =
    record fresh_order { next_free = next_free_of i max_orders } ∷ init_orders n (suc i) max_orders

unfoldable pub init_levels : ℕ → ℕ → ℕ → List Level
init_levels zero i max_orders = []
init_levels (suc n) i max_orders =
    record fresh_level { next_free = next_free_of i max_orders } ∷ init_levels n (suc i) max_orders

-- The constructor: `none` for the exception.
unfoldable pub new_book : ℕ → Option Book
unfolding next_power_of_two init_orders init_levels
new_book max_orders =
    let book : Book = record {
      orders = init_orders max_orders 0 max_orders;
      levels = init_levels max_orders 0 max_orders;
      order_lookup = replicate (next_power_of_two (mul64 max_orders 2)) empty_slot;
      level_lookup = replicate (next_power_of_two (mul64 max_orders 2)) empty_slot;
      bid_heap = replicate max_orders 0;
      ask_heap = replicate max_orders 0;
      bid_heap_size = 0;
      ask_heap_size = 0;
      free_order = 0;
      free_level = 0;
      active_orders = 0;
      next_priority = 0;
      fill_sequence = 0;
    } in
    if (max_orders == 0) || ltb (2 ^ 32 - 1) max_orders then none else some book
