-- ===== src/Book.antt =====
-- The order book: src/common/Book.hpp and src/common/Book.cpp. `Levels` and `State` hold the data,
-- the other children the methods, and the modules below them their properties.
pub mod Levels
pub mod State
pub mod Sweep
pub mod Matching
pub mod Entry
pub mod Cancel
pub mod Stops
pub mod Auction
pub mod Queries
pub mod Validity
pub mod Indexed
pub mod History
pub mod Queue
pub mod Tests
