-- ===== src/Orchestration.antt =====
-- backend/domain/orchestration: ballots, dissent, and the state machine of a decision case.
pub mod Ballots
pub mod Dissent
pub mod Commit
pub mod Enforce
pub mod Remap
pub mod Steps
pub mod Machine
mod Examples
