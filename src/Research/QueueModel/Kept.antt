-- ===== src/Research/QueueModel/Kept.antt =====
-- The queue model keeps the size of its order.
use market_order_book_engine.Base.{ℕ, ◌≡◌, refl, Option, none, some, if_both, leb}
use market_order_book_engine.Types.{EventType, MarketDataEvent, OrderView}
use market_order_book_engine.Book.State.{Book}
use market_order_book_engine.Research.Float.{Float}
use market_order_book_engine.Research.QueueModel.{
  QueueModel, on_event, react, on_trade, advance, contains, order_at_our_level,
}

module _ (f : Float) (m : QueueModel f) where
  advance-size : (id quantity : ℕ) → (advance f m id quantity).size ≡ m.size
  unfolding advance
  advance-size id quantity =
      if_both (λ (m' : QueueModel f). m'.size ≡ m.size) (contains f m.cohort id) (λ _. refl)
        (λ _. refl)

  react-size :
      (e : MarketDataEvent) (type : EventType) (o : Option OrderView)
      → (react f m e type o).size ≡ m.size
  unfolding react on_trade
  react-size e type none = refl
  react-size e EventType.trade (some o) = refl
  react-size e EventType.reduce (some o) = advance-size e.order_id e.quantity
  react-size e EventType.cancel (some o) = advance-size e.order_id o.quantity
  react-size e EventType.replace (some o) = advance-size e.order_id o.quantity
  react-size e EventType.add (some o) = refl
  react-size e EventType.modify (some o) = refl

  pub on_event-size : (e : MarketDataEvent) (b : Book) → (on_event f m e b).size ≡ m.size
  unfolding on_event
  on_event-size e b =
      if_both (λ (m' : QueueModel f). m'.size ≡ m.size) (leb m.size m.filled) (λ _. refl)
        (λ _. react-size e e.type (order_at_our_level f m e.order_id b))
