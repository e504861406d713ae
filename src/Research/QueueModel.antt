-- ===== src/Research/QueueModel.antt =====
-- include/market/research/QueueModel.hpp: the place in the queue of one hypothetical passive order.
pub mod Kept
use market_order_book_engine.Base.{
  ℕ, ℤ, List, [], ◌∷◌, Option, none, some, Bool, false, ◌&&◌, ◌||◌, ltb, leb, ◌==◌, eqb_ℤ, add64,
  sub64, if◌then◌else◌,
}
use market_order_book_engine.Types.{Side, side_beq, EventType, MarketDataEvent, OrderView}
use market_order_book_engine.Book.State.{Book}
use market_order_book_engine.Book.Views.{find_order}
use market_order_book_engine.Research.Float.{Float}

module _ (f : Float) where
  open f use {Double, zero, of_u64, to_u64, minus, times, lt}

  -- The cohort is the set of the orders ahead, kept as a list; `arrival_ns` is never read.
  pub record QueueModel : Type 0 where
    pub side : Side
    pub price : ℤ
    pub size : ℕ
    pub ahead : Double
    pub filled : ℕ
    pub cohort : List ℕ

  unfoldable pub new_model : Side → ℤ → ℕ → ℕ → Double → List ℕ → QueueModel
  new_model side price size displayed_ahead multiplier cohort = record {
    side = side;
    price = price;
    size = size;
    ahead = times (of_u64 displayed_ahead) multiplier;
    filled = 0;
    cohort = cohort;
  }

  -- `std::min` and `std::max`
  abbrev pub min_d : Double → Double → Double
  min_d a b = if lt b a then b else a

  abbrev pub max_d : Double → Double → Double
  max_d a b = if lt a b then b else a

  unfoldable pub contains : List ℕ → ℕ → Bool
  contains [] id = false
  contains (x ∷ xs) id = (x == id) || contains xs id

  abbrev pub at_level : QueueModel → Option OrderView → Option OrderView
  at_level m none = none
  at_level m (some o) =
      if side_beq o.side m.side && eqb_ℤ o.price_ticks m.price then some o else none

  unfoldable pub order_at_our_level : QueueModel → ℕ → Book → Option OrderView
  order_at_our_level m id b = at_level m (find_order b id)

  -- an execution at our level: what is ahead is consumed, and the rest fills us
  unfoldable pub on_trade : QueueModel → ℕ → QueueModel
  on_trade m quantity =
      let q = of_u64 quantity in
      let consumed = min_d q m.ahead in
      let overflow = minus q consumed in
      let room = of_u64 (sub64 m.size m.filled) in
      record m {
        ahead = minus m.ahead consumed;
        filled =
            if lt zero overflow then add64 m.filled (to_u64 (min_d overflow room)) else m.filled;
      }

  -- an order of the cohort that shrinks or leaves
  unfoldable pub advance : QueueModel → ℕ → ℕ → QueueModel
  unfolding contains
  advance m id quantity =
      if contains m.cohort id
      then record m { ahead = max_d zero (minus m.ahead (of_u64 quantity)) }
      else m

  unfoldable pub react : QueueModel → MarketDataEvent → EventType → Option OrderView → QueueModel
  unfolding on_trade advance
  react m e type none = m
  react m e EventType.trade (some o) = on_trade m e.quantity
  react m e EventType.reduce (some o) = advance m e.order_id e.quantity
  react m e EventType.cancel (some o) = advance m e.order_id o.quantity
  react m e EventType.replace (some o) = advance m e.order_id o.quantity
  react m e EventType.add (some o) = m
  react m e EventType.modify (some o) = m

  unfoldable pub on_event : QueueModel → MarketDataEvent → Book → QueueModel
  unfolding react
  on_event m e book_before =
      if leb m.size m.filled
      then m
      else react m e e.type (order_at_our_level m e.order_id book_before)

  abbrev pub active : QueueModel → Bool
  active m = ltb m.filled m.size

  abbrev pub fully_filled : QueueModel → Bool
  fully_filled m = leb m.size m.filled
