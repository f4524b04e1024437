-- ===== src/Runtime.antt =====
-- backend/domain/runtime: the result of an agent run and the tests that end its loop.
pub mod Result
pub mod Termination
pub mod VoteDimensions
pub mod Messages
pub mod Response
pub mod Checkpoints
pub mod Loop
mod Examples
