-- ===== src/Engine.antt =====
-- src/consensus/engine.py
pub mod Types
pub mod Chain
pub mod Validation
pub mod Votes
pub mod Proposals
pub mod Rounds
pub mod Handlers
pub mod Induction
pub mod Inputs
pub mod Replay
pub mod Recorded
pub mod Monotone
pub mod Buckets
pub mod Authentic
pub mod Guarantees
pub mod Termination
pub mod Certificates
pub mod Origin
