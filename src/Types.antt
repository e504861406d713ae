-- ===== src/Types.antt =====
-- include/market/MarketDataEvent.hpp and include/market/OrderTypes.hpp: the events of a replayed
-- feed, the orders that the book matches, and their results. An unsigned field is a number, a price
-- (int64_t) an integer.
use market_order_book_engine.Base.{ℕ, ℤ, pos, ◌≡◌, ◌↔◌, Bool, true, false, arith, Eq}

pub data Side : Type 0 where
  buy sell : Side

abbrev pub side_beq : Side → Side → Bool
side_beq buy buy = true
side_beq sell sell = true
side_beq _ _ = false

pub side_beq_iff : (a b : Side) → (side_beq a b ≡ true) ↔ (a ≡ b)
side_beq_iff a b = ground arith

instance abbrev pub side_eq : Eq Side
side_eq = record { beq = side_beq; beq_iff = side_beq_iff }

-- `side == Side::Buy ? Side::Sell : Side::Buy`
abbrev pub opposite : Side → Side
opposite buy = sell
opposite sell = buy

pub data EventType : Type 0 where
  add modify cancel trade reduce replace : EventType

pub record MarketDataEvent : Type 0 where
  pub sequence : ℕ
  pub exchange_timestamp_ns : ℕ
  pub symbol : ℕ
  pub type : EventType
  pub order_id : ℕ
  pub new_order_id : ℕ
  pub side : Side
  pub price_ticks : ℤ
  pub quantity : ℕ

-- `MarketDataEvent{}`
abbrev pub no_event : MarketDataEvent
no_event = record {
  sequence = 0;
  exchange_timestamp_ns = 0;
  symbol = 0;
  type = EventType.add;
  order_id = 0;
  new_order_id = 0;
  side = buy;
  price_ticks = pos 0;
  quantity = 0;
}

pub data OrderType : Type 0 where
  limit market : OrderType

pub data TimeInForce : Type 0 where
  gtc ioc fok : TimeInForce

pub data RequestType : Type 0 where
  new cancel : RequestType

pub record OrderRequest : Type 0 where
  pub type : RequestType
  pub id : ℕ
  pub side : Side
  pub price_ticks : ℤ
  pub quantity : ℕ
  pub order_type : OrderType
  pub tif : TimeInForce

pub record Fill : Type 0 where
  pub taker_id : ℕ
  pub maker_id : ℕ
  pub taker_side : Side
  pub price_ticks : ℤ
  pub quantity : ℕ
  pub sequence : ℕ

pub data SubmitResult : Type 0 where
  filled_complete rested_no_fill partial_fill_rested partial_fill_killed : SubmitResult
  no_fill_killed canceled rejected_fok rejected_duplicate : SubmitResult
  rejected_capacity rejected_invalid : SubmitResult

pub data ProcessResult : Type 0 where
  applied duplicate_order_id order_not_found invalid_quantity capacity_exhausted : ProcessResult

-- `result == ProcessResult::Applied`
abbrev pub is_applied : ProcessResult → Bool
is_applied ProcessResult.applied = true
is_applied _ = false

pub record OrderView : Type 0 where
  pub id : ℕ
  pub side : Side
  pub price_ticks : ℤ
  pub quantity : ℕ
  pub priority : ℕ

pub record LevelView : Type 0 where
  pub side : Side
  pub price_ticks : ℤ
  pub total_quantity : ℕ
  pub order_count : ℕ
