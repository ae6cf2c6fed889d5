-- ===== src/Data.antt =====
-- internal/data/preflight.go and internal/sizing/probe.go: what is checked of a job before it is routed.
pub mod Preflight
mod Bundles
pub mod Probe
mod Tests
