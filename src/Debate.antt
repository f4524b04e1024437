-- ===== src/Debate.antt =====
-- backend/domain/debate: the packet of a debate round, and the rule for changing a position.
pub mod Packet
pub mod Claims
pub mod Reflection
mod Examples
