-- ===== src/Execution/Tools/Examples.antt =====
-- A request for a tool that sends, with and without a journalled result.
use magi_system.Prelude.{
  arith, ◌+◌, ◌≤◌, pos, true, false, none, some, [], ◌∷◌, ◌≡◌, ◌⊎◌, refl, str_eq,
}
use magi_system.Evidence.SourceUri.{byte_count}
use magi_system.Execution.Invocation.{RuntimeInvocation, succeeded}
use magi_system.Execution.Memory.{MemoryInvocations, memory_repository, new_memory_invocations}
use magi_system.Execution.Memory.Fence.{memory_repository-IsFenced, find}
use magi_system.Execution.Tools.{ToolEnvironment, execute_tool, answered_result}
use magi_system.Execution.Tools.Checks.{ToolDeps, ToolRequest, effect_non_idempotent, decided}
use magi_system.Execution.Tools.Results.{
  ToolExecutionResult, no_structured, clip_tool_output, output_truncation_marker,
}
use magi_system.Execution.Tools.Laws.{
  Governed, Untouched, execute_tool-Governed, clip_tool_output_bounded,
}
use magi_system.Execution.Tools.Cached.{FromJournal, execute_tool-FromJournal}

-- Sending needs an approval.
abbrev deps : ToolDeps
deps = record {
  policy = some (record { requires_approval = λ n. str_eq n "send"; allowed = λ n. false });
  quota = none;
  violations = λ schema args. none;
  redact = λ s. s;
  canonical = λ s. s;
  digest = λ s. s;
  digest_bytes = λ s. s;
  codec = record { encode = λ p. none; decode = λ s. none };
}

abbrev tool_request : ToolRequest
tool_request = record {
  identity = record {
    run_id = "run-1";
    step_id = "step-1";
    invocation_id = "inv-1";
    attempt_id = "run-1";
  };
  definition = record { name = "send"; args_schema = ""; effect_class = effect_non_idempotent };
  arguments_json = "{}";
  user_id = "user-1";
  ordinal = pos 0;
  permission = "send";
  approval = some (decided true "operator" "");
}

abbrev sent : ToolExecutionResult
sent = record { output = "sent"; structured = no_structured; source_uri = "" }

abbrev sending : ToolEnvironment MemoryInvocations
sending = record {
  meanwhile = λ s. s;
  until_failed = λ s. s;
  executor = λ s. (s, answered_result sent);
  record_invocation = λ status. none;
}

abbrev sent_row : RuntimeInvocation
sent_row = record {
  invocation_id = "inv-1";
  run_id = "run-1";
  step_id = "step-1";
  kind = "tool";
  logical_ordinal = pos 0;
  status = succeeded;
  attempt_count = 1;
  operation_name = "send";
  retry_safety = "unsafe";
  idempotency_key = some "tool:v1|inv-1|send|{}";
  input_digest = "{}";
  input_json = "{}";
  output_json = "sent";
  error = "";
}

abbrev sent_journal : MemoryInvocations
sent_journal = record { invocations = ("inv-1", sent_row) ∷ []; attempts = []; current = [] }

-- The executor runs on a new journal, and its output is returned.
execute_tool_sample :
    (execute_tool deps memory_repository sending tool_request new_memory_invocations).ran ≡ true
unfolding execute_tool memory_repository new_memory_invocations
execute_tool_sample = refl

execute_tool-Governed_example :
    Governed deps (record tool_request { approval = none })
    ⊎ Untouched new_memory_invocations (
        execute_tool deps memory_repository sending
          (record tool_request { approval = none })
          new_memory_invocations)
execute_tool-Governed_example =
    execute_tool-Governed deps (record tool_request { approval = none }) memory_repository sending
      new_memory_invocations

execute_tool-FromJournal_example :
    FromJournal memory_repository-IsFenced deps sent_row
      (execute_tool deps memory_repository sending tool_request sent_journal)
unfolding execute_tool memory_repository-IsFenced find
execute_tool-FromJournal_example =
    execute_tool-FromJournal memory_repository-IsFenced deps sending tool_request sent_journal
      sent_row refl refl refl refl refl

clip_tool_output_bounded_example :
    byte_count (clip_tool_output sent 2).output ≤ 2 + byte_count (output_truncation_marker 2)
clip_tool_output_bounded_example = clip_tool_output_bounded sent 2 (omega arith)
