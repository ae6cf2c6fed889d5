-- ===== src/Staging.antt =====
-- internal/staging: where the checkpoints and the data of a run are stored.
pub mod Prefix
pub mod Managed
pub mod Uploaded
pub mod Staged
mod Tests
