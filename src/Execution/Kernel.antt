-- ===== src/Execution/Kernel.antt =====
-- `Kernel` of backend/domain/execution/kernel.go over the port of the journal. The text of an error is
-- a constructor; the SHA-256 digest is a parameter. The other workers act between the calls: what they
-- do to the journal, and what the executor answers, is a field of `Environment`.
pub mod Replay
pub mod Unrun
pub mod Settling
pub mod Running
use Prim.Native.String.{◌++◌ as ◌<>◌}
use magi_system.Prelude.{
  ◌+◌, ℤ, pos_part, neg_part, String, Bool, true, false, not, ◌&&◌, ◌||◌, Option, none, some,
  str_eq, ◌==◌, if◌then◌else◌,
}
use magi_system.Execution.Invocation.{
  RuntimeInvocation, ExecutionIdentity, InvocationStatus, pending, running, succeeded, failed,
  unknown, is_succeeded, is_unknown, Answer, answered, call_failed, InvocationRepository,
}

pub data RetrySafety : Type 0 where
  retry_safe_read_only retry_safe_idempotent retry_unsafe retry_unknown : RetrySafety
  other_safety : String → RetrySafety

unfoldable pub safety_text : RetrySafety → String
safety_text retry_safe_read_only = "read_only"
safety_text retry_safe_idempotent = "idempotent"
safety_text retry_unsafe = "unsafe"
safety_text retry_unknown = "unknown"
safety_text (other_safety text) = text

pub record Request : Type 0 where
  pub identity : ExecutionIdentity
  pub kind : String
  pub operation_name : String
  pub input : String
  pub retry_safety : RetrySafety
  pub idempotency_key : String
  pub logical_ordinal : ℤ

pub record Result : Type 0 where
  pub output : String
  pub cached : Bool

pub data ExecutionError : Type 0 where
  invalid_execution_request invocation_mismatch : ExecutionError
  ambiguous_invocation : Option String → ExecutionError
  invocation_repository invocation_recorder : String → String → ExecutionError
  invocation_not_owned : ExecutionError
  executor_error : String → ExecutionError
  joined : ExecutionError → ExecutionError → ExecutionError

-- What the executor returns: its output, an error that wraps ErrExternalOutcomeUnknown, or another.
pub data Outcome : Type 0 where
  produced : String → Outcome
  outcome_unknown executor_failed : String → Outcome

-- The two results of `execute`, and whether the executor was called.
pub data Outcomes : Type 0 where
  returned : Result → Outcomes
  refused : ExecutionError → Outcomes

pub record Run (S : Type 0) : Type 0 where
  pub journal : S
  pub ran : Bool
  pub result : Outcomes

-- `meanwhile` acts between the check of the invocation and the attempt, `until_failed` before a
-- failed recording is settled, and `executor` while it runs and until its outcome is settled. The
-- recorder answers the text of its error, if any; a nil recorder answers none.
pub record Environment (S : Type 0) : Type 0 where
  pub meanwhile : S → S
  pub until_failed : S → S
  pub executor : S → S × Outcome
  pub record_invocation : InvocationStatus → Option String

-- A caller's check of an older input encoding: its answer or its error.
abbrev pub InputMatcher : Type 0
InputMatcher = RuntimeInvocation → Request → Answer Bool

-- `attemptKey`
unfoldable pub attempt_key : String → String → String
attempt_key invocation_id attempt_id =
    if str_eq invocation_id "" || str_eq attempt_id ""
    then attempt_id
    else attempt_id <> ":" <> invocation_id

-- `validate`, with a repository and an executor.
unfoldable pub has_identity : ExecutionIdentity → Bool
has_identity i = not (
    str_eq i.run_id ""
    || str_eq i.step_id ""
    || str_eq i.invocation_id ""
    || str_eq i.attempt_id "")

unfoldable pub string_ptr : String → Option String
string_ptr value = if str_eq value "" then none else some value

abbrev pub may_retry_unknown : RetrySafety → Bool
may_retry_unknown retry_safe_read_only = true
may_retry_unknown retry_safe_idempotent = true
may_retry_unknown (other_safety text) = str_eq text "read_only" || str_eq text "idempotent"
may_retry_unknown _ = false

idempotency_matches : Option String → String → Bool
idempotency_matches none key = str_eq key ""
idempotency_matches (some stored) key =
    (str_eq key "" && str_eq stored "") || (not (str_eq key "") && str_eq stored key)

abbrev eq_int : ℤ → ℤ → Bool
eq_int a b = (pos_part a + neg_part b) == (pos_part b + neg_part a)

unfoldable pub matches_request_except_input : RuntimeInvocation → Request → Bool
unfolding safety_text idempotency_matches
matches_request_except_input i req =
    str_eq i.invocation_id req.identity.invocation_id
    && str_eq i.run_id req.identity.run_id
    && str_eq i.step_id req.identity.step_id
    && str_eq i.kind req.kind
    && str_eq i.operation_name req.operation_name
    && str_eq i.retry_safety (safety_text req.retry_safety)
    && eq_int i.logical_ordinal req.logical_ordinal
    && idempotency_matches i.idempotency_key req.idempotency_key

unfoldable pub cached_result : RuntimeInvocation → Result
cached_result i = record { output = i.output_json; cached = true }

-- The identity with the attempt scoped to the invocation.
unfoldable pub scoped : Request → Request
unfolding attempt_key
scoped req = record req {
  identity = record (req.identity) {
    attempt_id = attempt_key req.identity.invocation_id req.identity.attempt_id;
  };
}

-- `resultWithoutFence`
unfoldable pub result_without_fence : Option RuntimeInvocation → Request → Outcomes
unfolding cached_result
result_without_fence none req = refused invocation_not_owned
result_without_fence (some i) req =
    if is_succeeded i.status
    then returned (cached_result i)
    else if is_unknown i.status && not (may_retry_unknown req.retry_safety)
    then refused (ambiguous_invocation none)
    else refused invocation_not_owned

-- What a recording that failed adds to an error.
abbrev recorded : Option String → String → ExecutionError → ExecutionError
recorded none operation e = e
recorded (some text) operation e = joined e (invocation_recorder operation text)

module _ {S : Type 0} (repo : InvocationRepository S) (digest : String → String) where
  open repo use {ensure, begin_attempt, complete, fail, mark_unknown}

  abbrev stopped : S → Outcomes → Run S
  stopped s result = record { journal = s; ran = false; result = result }

  abbrev finished : S → Outcomes → Run S
  finished s result = record { journal = s; ran = true; result = result }

  matches_request : RuntimeInvocation → Request → Bool
  unfolding matches_request_except_input
  matches_request i req =
      matches_request_except_input i req
      && str_eq i.input_digest (digest req.input)
      && str_eq i.input_json req.input

  -- The matcher is asked only of an invocation that agrees in all else and with its own digest.
  compatible : Option InputMatcher → RuntimeInvocation → Request → Answer Bool
  unfolding matches_request_except_input
  compatible none i req = answered false
  compatible (some matcher) i req =
      if matches_request_except_input i req && str_eq i.input_digest (digest i.input_json)
      then matcher i req
      else answered false

  unfoldable pub accepts : Option InputMatcher → RuntimeInvocation → Request → Bool
  unfolding matches_request compatible
  accepts matcher i req =
      if matches_request i req
      then true
      else elim (compatible matcher i req) [ answered b ↦ b | call_failed e ↦ false ]

  -- An outcome that is settled by `Fail` or `MarkUnknown`: `markFailed` and `markUnknown`.
  settle_error : String → String → ExecutionError → Option String → S × Answer Bool → Run S
  settle_error call recording e record_error (s, call_failed text) =
      finished s (refused (joined e (invocation_repository call text)))
  settle_error call recording e record_error (s, answered false) =
      finished s (refused (joined e invocation_not_owned))
  settle_error call recording e record_error (s, answered true) =
      finished s (refused (recorded record_error recording e))

  settle_output : String → Option String → S × Answer Bool → Run S
  settle_output output record_error (s, call_failed text) =
      finished s (refused (invocation_repository "complete attempt" text))
  settle_output output record_error (s, answered false) = finished s (refused invocation_not_owned)
  settle_output output none (s, answered true) =
      finished s (returned (record { output = output; cached = false }))
  settle_output output (some text) (s, answered true) =
      finished s (refused (invocation_recorder "record succeeded attempt" text))

  settle : Environment S → Request → S × Outcome → Run S
  unfolding settle_error settle_output
  settle env req (s, produced output) =
      settle_output output (env.record_invocation succeeded)
        (complete req.identity.invocation_id req.identity.attempt_id output s)
  settle env req (s, outcome_unknown text) =
      settle_error "mark attempt unknown" "record unknown attempt"
        (ambiguous_invocation (some text)) (env.record_invocation unknown)
        (mark_unknown req.identity.invocation_id req.identity.attempt_id text s)
  settle env req (s, executor_failed text) =
      settle_error "fail attempt" "record failed attempt" (executor_error text)
        (env.record_invocation failed)
        (fail req.identity.invocation_id req.identity.attempt_id text s)

  -- The recording of the running attempt failed.
  give_up : String → S × Answer Bool → Run S
  give_up text (s, call_failed e) = stopped s (
      refused (
        joined (invocation_recorder "record running attempt" text)
          (invocation_repository "fail unrecorded attempt" e)))
  give_up text (s, answered false) =
      stopped s
        (refused (joined (invocation_recorder "record running attempt" text) invocation_not_owned))
  give_up text (s, answered true) =
      stopped s (refused (invocation_recorder "record running attempt" text))

  attempt : Environment S → Request → S × Answer (Option RuntimeInvocation × Bool) → Run S
  unfolding result_without_fence settle give_up
  attempt env req (s, call_failed e) = stopped s (refused (invocation_repository "begin attempt" e))
  attempt env req (s, answered (i, false)) = stopped s (result_without_fence i req)
  attempt env req (s, answered (i, true)) = elim (env.record_invocation running) [
    | some text ↦ give_up text (
        fail req.identity.invocation_id req.identity.attempt_id
          ("invocation recorder failure: record running attempt: " <> text) (env.until_failed s))
    | none ↦ settle env req (env.executor s)
  ]

  -- The invocation is the request's own.
  proceed : Environment S → Request → RuntimeInvocation → S → Run S
  unfolding cached_result attempt
  proceed env req i s =
      if is_succeeded i.status
      then stopped s (returned (cached_result i))
      else if is_unknown i.status && not (may_retry_unknown req.retry_safety)
      then stopped s (refused (ambiguous_invocation none))
      else attempt env req
          (begin_attempt req.identity.invocation_id req.identity.attempt_id (env.meanwhile s))

  admit :
      Environment S → Option InputMatcher → Request → S × Answer (Option RuntimeInvocation) → Run S
  unfolding accepts proceed
  admit env matcher req (s, call_failed e) =
      stopped s (refused (invocation_repository "ensure invocation" e))
  admit env matcher req (s, answered none) =
      stopped s
        (refused (invocation_repository "ensure invocation" "repository returned nil invocation"))
  admit env matcher req (s, answered (some i)) =
      if accepts matcher i req then proceed env req i s else stopped s (refused invocation_mismatch)

  -- The row that `execute` ensures.
  unfoldable pub invocation_of : Request → RuntimeInvocation
  unfolding safety_text string_ptr
  invocation_of req = record {
    invocation_id = req.identity.invocation_id;
    run_id = req.identity.run_id;
    step_id = req.identity.step_id;
    kind = req.kind;
    logical_ordinal = req.logical_ordinal;
    status = pending;
    attempt_count = 0;
    operation_name = req.operation_name;
    retry_safety = safety_text req.retry_safety;
    idempotency_key = string_ptr req.idempotency_key;
    input_digest = digest req.input;
    input_json = req.input;
    output_json = "";
    error = "";
  }

  -- `execute`
  unfoldable pub execute : Environment S → Option InputMatcher → Request → S → Run S
  unfolding has_identity scoped invocation_of admit
  execute env matcher req s =
      if has_identity req.identity
      then admit env matcher (scoped req) (ensure (invocation_of (scoped req)) s)
      else stopped s (refused invalid_execution_request)
