-- ===== src/Research/Float.antt =====
-- `double`, which the strategy and the queue model compute with. It is the hardware's, so its type
-- and operations are a parameter.
use market_order_book_engine.Base.{ℕ, Bool}

pub record Float : Type 1 where
  pub Double : Type 0
  pub zero : Double
  -- conversion of a `Quantity`
  pub of_u64 : ℕ → Double
  -- `static_cast<Quantity>`
  pub to_u64 : Double → ℕ
  pub plus : Double → Double → Double
  pub minus : Double → Double → Double
  pub times : Double → Double → Double
  pub over : Double → Double → Double
  pub negate : Double → Double
  -- `<` and `<=`
  pub lt : Double → Double → Bool
  pub le : Double → Double → Bool
