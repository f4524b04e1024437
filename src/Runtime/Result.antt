-- ===== src/Runtime/Result.antt =====
-- backend/domain/runtime/runtime.go (LoopStatus, LoopResult), `LoopFailureReason` of termination.go,
-- and `agentRunStatus` of backend/domain/orchestration/orchestrator.go.
use magi_system.Prelude.{String, Bool, Option, none, some, GoError, error_text}
use magi_system.Entity.Vote.{Vote}
use magi_system.Entity.Evidence.{EvidenceSummary, Reflection}
use magi_system.Evidence.Ledger.{EvidenceLedger}

pub data LoopStatus : Type 0 where
  completed max_steps cancelled error gate_failed token_budget tool_failures : LoopStatus
  validation_failed : LoopStatus
  unknown_status : String → LoopStatus

-- The answer, the trace and the usage are left out: no modelled decision reads them.
pub record LoopResult : Type 0 where
  pub vote : Option Vote
  pub summary : Option EvidenceSummary
  pub reflection : Option Reflection
  pub ledger : Option EvidenceLedger
  pub status : LoopStatus
  pub err : Option GoError

abbrev status_reason : LoopStatus → String
status_reason gate_failed = "evidence gate failed"
status_reason tool_failures = "tool failures"
status_reason validation_failed = "invalid responses"
status_reason token_budget = "token budget exceeded"
status_reason max_steps = "max steps exceeded"
status_reason error = "agent error"
status_reason cancelled = "cancelled"
status_reason _ = "agent completed"

-- The nil result is the case `no result`.
unfoldable pub loop_failure_reason : Option LoopResult → String
unfolding error_text
loop_failure_reason none = "no result"
loop_failure_reason (some r) = elim (r.err) [
  | some e ↦ error_text e
  | none ↦ status_reason r.status
]

unfoldable pub is_completed_status : LoopStatus → Bool
is_completed_status completed = Bool.true
is_completed_status _ = Bool.false

pub data AgentRunStatus : Type 0 where
  run_completed run_failed run_cancelled run_max_steps : AgentRunStatus

unfoldable pub agent_run_status : LoopStatus → AgentRunStatus
agent_run_status completed = run_completed
agent_run_status max_steps = run_max_steps
agent_run_status cancelled = run_cancelled
agent_run_status _ = run_failed
