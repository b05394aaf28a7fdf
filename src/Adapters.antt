-- ===== src/Adapters.antt =====
-- crates/adapters/src.
pub mod Binance
pub mod Stream
pub mod Conversion
pub mod Backoff
pub mod Merging
pub mod Book
mod Tests
