-- ===== src/Cli.antt =====
-- internal/cli/root.go: a training run, its attempts, and the resources they leave.
pub mod Types
pub mod Persist
pub mod Attempt
pub mod Cleanup
pub mod Cancel
mod Succeeds
mod Cleaned
mod Canceled
pub mod Attempts
pub mod Tried
pub mod Trail
pub mod Distinct
pub mod Tests
mod CleanupTests
pub mod Settled
pub mod Outcome
pub mod Termination
