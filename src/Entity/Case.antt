-- ===== src/Entity/Case.antt =====
-- The case statuses of backend/domain/entity/case.go, and the owner of an execution of execution.go.
use magi_system.Prelude.{ℤ, pos, ltb_ℤ, String, Bool, false, ◌&&◌, not, Option, none, some, str_eq}

pub data CaseStatus : Type 0 where
  draft normalizing context_building retrieving_memory investigating evidence_gating : CaseStatus
  collecting_votes consensus_check resolving generating_report saving_memory evaluating : CaseStatus
  debating reflecting revoting resolved memory_indexed failed cancelled timed_out : CaseStatus
  insufficient_evidence deadlocked paused : CaseStatus
  unknown_status : String → CaseStatus

unfoldable pub status_text : CaseStatus → String
status_text draft = "DRAFT"
status_text normalizing = "NORMALIZING"
status_text context_building = "CONTEXT_BUILDING"
status_text retrieving_memory = "RETRIEVING_MEMORY"
status_text investigating = "INVESTIGATING"
status_text evidence_gating = "EVIDENCE_GATING"
status_text collecting_votes = "COLLECTING_VOTES"
status_text consensus_check = "CONSENSUS_CHECK"
status_text resolving = "RESOLVING"
status_text generating_report = "GENERATING_REPORT"
status_text saving_memory = "SAVING_MEMORY"
status_text evaluating = "EVALUATING"
status_text debating = "DEBATING"
status_text reflecting = "REFLECTING"
status_text revoting = "REVOTING"
status_text resolved = "RESOLVED"
status_text memory_indexed = "MEMORY_INDEXED"
status_text failed = "FAILED"
status_text cancelled = "CANCELLED"
status_text timed_out = "TIMED_OUT"
status_text insufficient_evidence = "INSUFFICIENT_EVIDENCE"
status_text deadlocked = "DEADLOCKED"
status_text paused = "PAUSED"
status_text (unknown_status s) = s

-- `==` on statuses, which compares the texts.
unfoldable pub status_eq : CaseStatus → CaseStatus → Bool
unfolding status_text
status_eq a b = str_eq (status_text a) (status_text b)

-- Diagnostic fields (run id, job attempt) are left out.
pub record ExecutionContext : Type 0 where
  pub case_id : String
  pub job_id : String
  pub worker_id : String
  pub generation : ℤ

unfoldable pub is_durable : Option ExecutionContext → Bool
is_durable none = false
is_durable (some e) =
    not (str_eq e.case_id "")
    && (not (str_eq e.job_id "") && (not (str_eq e.worker_id "") && ltb_ℤ (pos 0) e.generation))
