-- ===== src/Execution/Tools.antt =====
-- backend/domain/toolruntime: the execution of a tool through its checks and the kernel. The policy,
-- the quota, the validator, the redactor, the JSON codec and the digests are parameters. Metrics
-- and lifecycle callbacks are left out. The variable `executed` of `Execute`, which the executor's
-- closure sets, is a part of the state that the kernel threads.
pub mod Checks
pub mod Results
pub mod Laws
pub mod Cached
mod Examples
use Prim.Native.String.{◌++◌ as ◌<>◌}
use magi_system.Prelude.{
  ℕ, ℤ, String, Bool, true, false, not, ◌&&◌, ◌||◌, Option, none, some, List, str_eq, if◌then◌else◌,
}
use magi_system.Execution.Invocation.{
  InvocationStatus, ExecutionIdentity, InvocationRepository, Answer,
}
use magi_system.Execution.Kernel.{
  RetrySafety, retry_safe_read_only, retry_safe_idempotent, retry_unsafe, retry_unknown, Request,
  Outcome, produced, outcome_unknown, executor_failed, Outcomes, returned, refused, ExecutionError,
  Run, Environment, execute,
}
use magi_system.Execution.Tools.Results.{
  ToolExecutionResult, clip_tool_output, bound_error_message, encode_tool_result,
  decode_tool_result, ResultCodec, default_tool_output_max_bytes, default_tool_error_max_bytes,
}
use magi_system.Execution.Tools.Checks.{
  ToolRequest, ToolDeps, ToolError, ToolEffectClass, effect_read_only, effect_idempotent,
  kernel_error, check_request,
}

-- The results of `Execute`: an error, or the execution, its redacted output, and whether it is cached.
pub data ToolOutcome : Type 0 where
  tool_refused : ToolError → ToolOutcome
  tool_executed : ToolExecutionResult → String → Bool → ToolOutcome

-- `retrySafety`
unfoldable pub retry_safety_of : ToolEffectClass → RetrySafety
retry_safety_of effect_read_only = retry_safe_read_only
retry_safety_of effect_idempotent = retry_safe_idempotent
retry_safety_of _ = retry_unsafe

-- What the executor answers: a result or none, or an error, which may wrap ErrExternalOutcomeUnknown.
pub data ToolAnswer : Type 0 where
  answered_result : ToolExecutionResult → ToolAnswer
  answered_nil : ToolAnswer
  answered_error answered_unknown : String → ToolAnswer

-- `ToolIdempotencyKey` of backend/domain/execution/identity.go.
unfoldable pub tool_idempotency_key :
    (String → String) → (String → String) → String → String → String → String
tool_idempotency_key digest digest_bytes invocation_id tool_name arguments =
    digest ("tool:v1|" <> invocation_id <> "|" <> tool_name <> "|" <> digest_bytes arguments)

module _ (deps : ToolDeps) where
  -- The kernel's request.
  unfoldable pub kernel_request : ToolRequest → Request
  unfolding retry_safety_of tool_idempotency_key
  kernel_request req =
      let arguments = deps.canonical req.arguments_json in
      record {
        identity = req.identity;
        kind = "tool";
        operation_name = req.definition.name;
        input = arguments;
        retry_safety = retry_safety_of req.definition.effect_class;
        idempotency_key =
            tool_idempotency_key deps.digest deps.digest_bytes req.identity.invocation_id
              req.definition.name arguments;
        logical_ordinal = req.ordinal;
      }

-- The journal with the variable `executed`.
abbrev pub Tracked : Type 0 → Type 0
Tracked S = S × Option ToolExecutionResult

abbrev pub beside : {S A : Type 0} → Option ToolExecutionResult → S × A → Tracked S × A
beside executed (s, a) = ((s, executed), a)

abbrev pub tracked : {S : Type 0} → InvocationRepository S → InvocationRepository (Tracked S)
tracked repo = record {
  ensure = λ i (s, x). beside x (repo.ensure i s);
  begin_attempt = λ id attempt (s, x). beside x (repo.begin_attempt id attempt s);
  complete = λ id attempt output (s, x). beside x (repo.complete id attempt output s);
  fail = λ id attempt reason (s, x). beside x (repo.fail id attempt reason s);
  mark_unknown = λ id attempt reason (s, x). beside x (repo.mark_unknown id attempt reason s);
}

-- As the environment of the kernel, with the executor's own answers.
pub record ToolEnvironment (S : Type 0) : Type 0 where
  pub meanwhile : S → S
  pub until_failed : S → S
  pub executor : S → S × ToolAnswer
  pub record_invocation : InvocationStatus → Option String

-- The two results of `Execute`, the journal after it, and whether the executor was called.
pub record ToolRun (S : Type 0) : Type 0 where
  pub journal : S
  pub ran : Bool
  pub outcome : ToolOutcome

module _ {S : Type 0} (deps : ToolDeps) (repo : InvocationRepository S) where
  -- The executor's closure: a result is clipped before it is stored, an error's text is bounded.
  closure : Tracked S → S × ToolAnswer → Tracked S × Outcome
  unfolding clip_tool_output bound_error_message encode_tool_result
  closure (old, x) (s, answered_result r) =
      let clipped = clip_tool_output r default_tool_output_max_bytes in
      ((s, some clipped), produced (encode_tool_result deps.codec clipped))
  closure (old, x) (s, answered_nil) =
      ((s, none), executor_failed "tool executor returned nil result")
  closure (old, x) (s, answered_error text) =
      ((s, x), executor_failed (bound_error_message text default_tool_error_max_bytes))
  closure (old, x) (s, answered_unknown text) =
      ((s, x), outcome_unknown (bound_error_message text default_tool_error_max_bytes))

  unfoldable pub kernel_environment : ToolEnvironment S → Environment (Tracked S)
  unfolding closure
  kernel_environment env = record {
    meanwhile = λ (s, x). (env.meanwhile s, x);
    until_failed = λ (s, x). (env.until_failed s, x);
    executor = λ (s, x). closure (s, x) (env.executor s);
    record_invocation = env.record_invocation;
  }

  -- The result that the closure kept, or else the stored output decoded.
  abbrev pub execution_of : Option ToolExecutionResult → String → ToolExecutionResult
  execution_of (some executed) output = executed
  execution_of none output = decode_tool_result deps.codec output

  abbrev pub finish_tool : Option ToolExecutionResult → Outcomes → ToolOutcome
  finish_tool executed (refused e) = tool_refused (kernel_error e)
  finish_tool executed (returned r) =
      let execution = execution_of executed r.output in
      tool_executed execution (deps.redact execution.output) r.cached

  abbrev pub as_tool_run : Run (Tracked S) → ToolRun S
  as_tool_run run = record {
    journal = run.journal.0;
    ran = run.ran;
    outcome = finish_tool run.journal.1 run.result;
  }

  abbrev pub after_checks : Option ToolError → ToolEnvironment S → ToolRequest → S → ToolRun S
  after_checks (some e) env req s = record { journal = s; ran = false; outcome = tool_refused e }
  after_checks none env req s = as_tool_run (
      execute (tracked repo) deps.digest_bytes (kernel_environment env) none
        (kernel_request deps req) (s, none))

  -- `Runtime.Execute`
  unfoldable pub execute_tool : ToolEnvironment S → ToolRequest → S → ToolRun S
  unfolding check_request kernel_environment kernel_request execute decode_tool_result
  execute_tool env req s = after_checks (check_request deps req) env req s
