-- ===== src/Evidence.antt =====
-- backend/domain/evidence: reliability scores, the cut of source URIs, and the ledger of a run.
pub mod Reliability
pub mod SourceUri
pub mod Ledger
pub mod Gate
pub mod RoleGate
pub mod RoleDecision
mod Examples
