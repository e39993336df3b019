-- ===== src/Simulator.antt =====
-- The simulated external service: the package's `simulator` folder.
pub mod Scenario
pub mod State
pub mod Service
pub mod ReconciliationPath
