-- ===== src/State.antt =====
-- internal/state/store.go: the SQLite store of runs, attempts, decisions and resources.
pub mod World
pub mod Action
pub mod Tables
pub mod Decisions
pub mod Resources
pub mod Passes
pub mod Tried
pub mod Settled
pub mod RoundTrip
mod Tests
