-- ===== src/Harness.antt =====
-- src/main.py: the networks that the scenarios set up, the timeline that drives them, the checks
-- of what they finalized, and the scenarios.
pub mod Outcome
pub mod Setup
pub mod Timeline
pub mod Report
pub mod Settings
pub mod Scenarios
pub mod Faults
pub mod Main
pub mod Runs
