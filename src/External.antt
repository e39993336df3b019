-- ===== src/External.antt =====
-- The HTTP adapters: the package's `external` folder.
pub mod Outcome
pub mod Transport
pub mod Literal
pub mod Client
pub mod Reconcile
