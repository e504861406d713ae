-- ===== src/Research.antt =====
-- The research layer: top-of-book features, the backtest of an imbalance strategy, and the queue
-- model of a passive order.
pub mod Float
pub mod Features
pub mod Backtest
pub mod QueueModel
mod Tests
