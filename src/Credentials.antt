-- ===== src/Credentials.antt =====
-- internal/credentials: keys of credentials, the two stores, and the resolver.
pub mod Keys
mod Canonical
pub mod Items
pub mod Encrypted
mod Laws
mod Persisted
mod Tests
mod FileTests
