-- ===== src/Routing.antt =====
-- internal/routing/routing.go: the choice of a provider, and of a hardware shape, for a job.
pub mod Types
pub mod Registry
pub mod Providers
pub mod Hardware
pub mod Select
pub mod Eligible
pub mod Selection
pub mod Constraints
pub mod Guarantees
pub mod Optimal
pub mod Accounts
pub mod Tests
