-- ===== src/Examples.antt =====
-- The theorems at concrete inputs, and runs of the definitions.
pub mod Tables
pub mod Transactions
pub mod Calls
pub mod Services
pub mod Keys
pub mod Workflows
pub mod Responses
