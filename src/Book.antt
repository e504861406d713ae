-- ===== src/Book.antt =====
-- include/market/OrderBook.hpp and src/OrderBook.cpp.
pub mod Table
pub mod State
pub mod Ladder
pub mod Links
pub mod Events
pub mod Matching
pub mod Views
pub mod Whole
pub mod Samples
mod Tests
