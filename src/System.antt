-- ===== src/System.antt =====
-- crates/demo/src/mock_execution_demo.rs: the parts of the program, connected.
pub mod State
pub mod Actions
pub mod Views
pub mod Moves
pub mod Pending
pub mod Steps
pub mod Works
pub mod Working
pub mod Ready
pub mod Chances
pub mod Opened
pub mod Fires
pub mod Engine
pub mod Keeping
pub mod Runs
pub mod Rest
pub mod Load
pub mod Ends
pub mod Finite
pub mod Demo
pub mod Feed
mod Tests
