-- ===== src/Examples.antt =====
-- The theorems at concrete inputs, and runs of the definitions.
pub mod Server
pub mod Threads
pub mod Frontend
pub mod Tasks
pub mod Hooks
pub mod Process
