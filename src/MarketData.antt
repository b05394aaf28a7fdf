-- ===== src/MarketData.antt =====
-- crates/marketdata/src.
pub mod Triangle
pub mod TopLevels
pub mod Subscription
pub mod Delivery
pub mod Worker
pub mod Buffering
pub mod Replay
pub mod Wiring
pub mod Tracking
pub mod Forwarding
pub mod Startup
pub mod Live
pub mod WsClient
mod Tests
