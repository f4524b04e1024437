-- ===== src/Consensus.antt =====
-- backend/domain/consensus: the ballots of one round are counted and classified.
pub mod Engine
pub mod Counts
pub mod Outcome
pub mod Order
mod Examples
