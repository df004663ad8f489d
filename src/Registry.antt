-- ===== src/Registry.antt =====
-- The registry snapshot of internal/registry: who may issue and sign in a domain.
pub mod Snapshot
pub mod Listed
pub mod Authorizes
pub mod Signing
pub mod Examples
