-- ===== src/Persistence.antt =====
-- The durable state and its transactions: the package's `persistence` folder.
pub mod Rows
pub mod Database
pub mod Lease
pub mod Observations
pub mod Finalize
pub mod Reconcile
pub mod PreSideEffect
pub mod Ledger
pub mod Reachable
