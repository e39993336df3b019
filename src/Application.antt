-- ===== src/Application.antt =====
-- The submission workflow: the package's `application` folder.
pub mod Classification
pub mod Waiting
pub mod AttemptHistory
pub mod Flow
pub mod ReconciliationSequence
pub mod Recovery
pub mod Submit
