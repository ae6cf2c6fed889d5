-- ===== src/Redact.antt =====
-- internal/redact/redact.go: what is hidden of secrets in what the tool prints and stores.
pub mod Keys
pub mod Values
pub mod Uris
pub mod Redactor
pub mod Records
mod Hidden
mod Gone
mod Clean
mod Secrets
pub mod Tests
