-- ===== src/Programs.antt =====
-- The command-line programs of src/: their arguments and their loops over the events that a connector
-- delivers. A connector is the list of the events that `next` gives until it answers false.
pub mod Arguments
pub mod Limit
pub mod Replay
pub mod Features
pub mod Queue
pub mod Main
pub mod Backtest
