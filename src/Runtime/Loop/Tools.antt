-- ===== src/Runtime/Loop/Tools.antt =====
-- The branch of the agent loop for a response with tool calls.
use Prim.Native.String.{◌++◌ as ◌<>◌}
use magi_system.Prelude.{
  ℕ, ◌+◌, ◌-◌, String, Bool, true, false, Option, none, some, List, [], ◌∷◌, ◌++◌, map, length,
  drop, ltb, str_eq, decimal, if◌then◌else◌, GoError, plain,
}
use magi_system.Evidence.Ledger.{EvidenceLedger, Observed, record_evidence}
use magi_system.Runtime.Result.{
  LoopStatus, gate_failed, tool_failures, token_budget, validation_failed,
}
use magi_system.Runtime.Termination.{check_termination, Ended, ended, reached}
use magi_system.Runtime.Messages.{
  Message, assistant, user, tool, Answer, ToolCall, ToolReply, skipped, tool_not_found,
  tool_runtime_missing, tool_failed, tool_rejected, no_execution_result, tool_result,
  tool_limit_reached,
}
use magi_system.Runtime.Checkpoints.{Pending, tool_invocation, tool_executed}
use magi_system.Runtime.Loop.{
  AgentWorld, AgentConfig, LoopState, Flow, next, stop, ◌>>=◌, commit_checkpoint, ToolDefinition,
  Candidate, ToolRun, executed, not_executed, arguments_invalid, tool_error, approval_rejected,
}

abbrev pub say : List Message → LoopState → LoopState
say messages s = record s { messages = s.messages ++ messages }

-- The error that `CheckTermination` writes.
unfoldable pub termination_error : LoopStatus → ℕ → GoError
unfolding decimal
termination_error gate_failed n = plain ("evidence gate failed after " <> decimal n <> " attempts")
termination_error tool_failures n = plain (decimal n <> " consecutive tool failures")
termination_error token_budget n = plain ("token budget exceeded (" <> decimal n <> " tokens)")
termination_error validation_failed n = plain (decimal n <> " consecutive invalid responses")
termination_error status n = plain ""

abbrev pub end_by : Option Ended → LoopState → Flow Unit
end_by none s = next s tt
end_by (some (ended status n)) s =
    stop s (record { status = status; err = some (termination_error status n); vote = none })

-- `if CheckTermination(…) { return result, result.Err }`
unfoldable pub terminate : AgentConfig → LoopState → Flow Unit
unfolding check_termination
terminate cfg s = end_by (check_termination s.termination cfg.policy) s

-- `nameToDef[name]`: of two tools with one name the first counts.
unfoldable pub find_tool : String → List ToolDefinition → Option ToolDefinition
find_tool name [] = none
find_tool name (td ∷ tools) =
    let rest = find_tool name tools in if str_eq td.name name then some td else rest

-- A call without a result: one more consecutive failure, and a reply that tells why.
abbrev pub tool_call_failed : ToolCall → ToolReply → LoopState → LoopState
tool_call_failed tc reply s = record s {
  termination = record (s.termination) { consec_tool_fail = s.termination.consec_tool_fail + 1 };
  messages = s.messages ++ tool reply tc.id ∷ [];
}

abbrev pub observed_of : ToolCall → ToolDefinition → Candidate → Observed
observed_of tc td c = record {
  tool_call_id = tc.id;
  tool_name = tc.name;
  source_type = td.source;
  source_uri = c.source_uri;
  observation = c.observation;
  reliability = c.reliability;
}

unfoldable pub record_candidates :
    ToolCall → ToolDefinition → List Candidate → EvidenceLedger → EvidenceLedger
unfolding record_evidence
record_candidates tc td [] l = l
record_candidates tc td (c ∷ cs) l =
    record_candidates tc td cs (record_evidence l (observed_of tc td c)).0

unfoldable pub after_tool : ToolCall → ToolDefinition → ToolRun → LoopState → LoopState
unfolding record_candidates
after_tool tc td (executed output candidates) s = record s {
  termination = record (s.termination) { consec_tool_fail = 0 };
  ledger = record_candidates tc td candidates s.ledger;
  messages = s.messages ++ tool (tool_result output) tc.id ∷ [];
}
after_tool tc td not_executed s = tool_call_failed tc (no_execution_result tc.name) s
after_tool tc td (arguments_invalid text) s = tool_call_failed tc (tool_failed tc.name text) s
after_tool tc td (tool_error text) s = tool_call_failed tc (tool_failed tc.name text) s
after_tool tc td (approval_rejected reason) s = tool_call_failed tc (tool_rejected reason) s

module _ (w : AgentWorld) (cfg : AgentConfig) (step : ℕ) where
  -- A call of a known tool, with or without a tool runtime.
  abbrev pub run_known : Bool → ℕ → ToolCall → ToolDefinition → LoopState → LoopState
  run_known false ordinal tc td s = tool_call_failed tc tool_runtime_missing s
  run_known true ordinal tc td s =
      after_tool tc td (w.run_tool s.history s.phase td tc)
        (record s { history = tool_executed step ordinal tc ∷ s.history })

  -- One tool call, after its commit.
  abbrev pub run_found : ℕ → ToolCall → Option ToolDefinition → LoopState → LoopState
  run_found ordinal tc none s = tool_call_failed tc (tool_not_found tc.name) s
  run_found ordinal tc (some td) s = run_known w.has_tool_runtime ordinal tc td s

  unfoldable pub run_call : ℕ → ToolCall → LoopState → LoopState
  unfolding find_tool after_tool
  run_call ordinal tc s = run_found ordinal tc (find_tool tc.name w.tools) s

  -- The counter and the last invocation before the commit of a call; a resumed call was counted.
  unfoldable pub count_call : Bool → ℕ → LoopState → LoopState
  count_call counted ordinal s = record s {
    last_committed = if ltb 0 ordinal then tool_invocation step (ordinal - 1) else s.last_committed;
    termination = record (s.termination) {
      tool_calls = if counted then s.termination.tool_calls else s.termination.tool_calls + 1;
    };
  }

  unfoldable pub run_calls : Answer → Bool → ℕ → List ToolCall → LoopState → Flow Unit
  unfolding run_call count_call commit_checkpoint
  run_calls resp counted ordinal [] s = next s tt
  run_calls resp counted ordinal (tc ∷ tcs) s =
      commit_checkpoint w step (some (record { response = resp; tool_index = some ordinal }))
        (count_call counted ordinal s)
      >>= λ s _. run_calls resp false (ordinal + 1) tcs (run_call ordinal tc s)

  abbrev pub skipped_calls : List ToolCall → List Message
  skipped_calls tcs = map (λ (tc : ToolCall). tool skipped tc.id) tcs

  -- The cutoff: every call is answered, none is executed.
  unfoldable pub refuse_calls : Answer → LoopState → Flow Unit
  unfolding commit_checkpoint
  refuse_calls resp s = commit_checkpoint w (step + 1) none (
      say
        (skipped_calls resp.tool_calls ++ user (tool_limit_reached cfg.policy.max_tool_calls) ∷ [])
        s)

  -- After the calls: the last of them is the last invocation, and the next step is committed.
  unfoldable pub finish_calls : Answer → LoopState → Flow Unit
  unfolding commit_checkpoint terminate
  finish_calls resp s =
      commit_checkpoint w (step + 1) none
        (record s { last_committed = tool_invocation step (length resp.tool_calls - 1) })
      >>= λ s _. terminate cfg s

  abbrev pub start_of : Option ℕ → ℕ
  start_of none = 0
  start_of (some i) = i

  abbrev pub is_resumed : Option ℕ → Bool
  is_resumed none = false
  is_resumed (some i) = true

  -- A response that is resumed at a tool call stands in the messages already.
  abbrev pub heard : Pending → LoopState → LoopState
  heard p s = if is_resumed p.tool_index then s else say (assistant p.response ∷ []) s

  unfoldable pub answer_tool_calls : Pending → LoopState → Flow Unit
  unfolding run_calls refuse_calls finish_calls
  answer_tool_calls p s =
      if reached cfg.policy.max_tool_calls s.termination.tool_calls
      then refuse_calls p.response (heard p s)
      else run_calls p.response (is_resumed p.tool_index) (start_of p.tool_index)
          (drop (start_of p.tool_index) p.response.tool_calls) (heard p s)
        >>= λ s _. finish_calls p.response s
