-- ===== src/Config.antt =====
-- internal/config/config.go: the configuration file, its defaults and its validation.
pub mod Settings
pub mod Clouds
pub mod Types
pub mod Defaults
pub mod Paths
pub mod Validate
pub mod Load
mod Complete
mod Accepts
mod Loaded
mod Ready
mod Layers
mod Empty
mod Tests
