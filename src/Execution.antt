-- ===== src/Execution.antt =====
-- crates/execution/src/mock.rs.
pub mod Mock
pub mod Fills
pub mod Progress
pub mod Handling
pub mod Life
pub mod Awaiting
pub mod Interleaved
pub mod Signalled
mod Tests
