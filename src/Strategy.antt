-- ===== src/Strategy.antt =====
-- crates/strategy/src.
pub mod Config
pub mod Detector
pub mod Planner
pub mod Engine
pub mod Validation
pub mod Cycles
pub mod NoArbitrage
pub mod Plans
mod Tests
