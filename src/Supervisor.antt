-- ===== src/Supervisor.antt =====
-- The runtime supervisor of crates/kanai-broker/src/runtime_supervisor.rs: its policy, its
-- lifecycle, and the steps that its callers and tasks take under the lifecycle's lock.
pub mod Policy
pub mod Lifecycle
pub mod Exits
pub mod Steps
pub mod Consistent
pub mod Kept
pub mod Exited
pub mod Runs
pub mod Delays
pub mod Stops
pub mod Crashes
mod Examples
