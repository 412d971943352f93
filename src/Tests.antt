-- ===== src/Tests.antt =====
-- A toy instance of the third-party cryptography, and runs of the program at concrete inputs.
pub mod Toy
pub mod Scenario
pub mod Consensus
pub mod Parts
pub mod Network
pub mod Simulation
pub mod Harness
pub mod State
