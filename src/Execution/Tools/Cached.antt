-- ===== src/Execution/Tools/Cached.antt =====
-- A tool call whose result the journal holds is answered from the journal.
use magi_system.Prelude.{
  String, Bool, true, false, Option, none, some, ◌≡◌, ◌⊎◌, inl, inr, refl, arith, ap,
}
use magi_system.Execution.Invocation.{
  RuntimeInvocation, InvocationRepository, IsFenced, Answer, answered, call_failed, Ensures, Begins,
  Wins, Holds, succeeded, failed, unknown, InvocationStatus,
}
use magi_system.Execution.Kernel.{
  Run, Request, execute, has_identity, scoped, accepts, cached_result, returned,
  invocation_repository,
}
use magi_system.Execution.Kernel.Unrun.{execute-Unchanged}
use magi_system.Execution.Kernel.Replay.{Replays, execute-Replays}
use magi_system.Execution.Tools.{
  ToolEnvironment, ToolRun, tool_executed, tool_refused, Tracked, tracked, beside, execute_tool,
  after_checks, as_tool_run, finish_tool, kernel_request, kernel_environment,
}
use magi_system.Execution.Tools.Checks.{ToolDeps, ToolRequest, kernel_error, check_request}
use magi_system.Execution.Tools.Results.{ToolExecutionResult, decode_tool_result}

module _ {S : Type 0} {repo : InvocationRepository S} (contract : IsFenced repo) where
  open contract use {find, owner, Others}

  abbrev find_tracked : Tracked S → String → Option RuntimeInvocation
  find_tracked (s, x) id = find s id

  abbrev owner_tracked : Tracked S → String → Option String
  owner_tracked (s, x) id = owner s id

  tracked-Ensures :
      (s : S) (x : Option ToolExecutionResult) (id : String)
      (r : S × Answer (Option RuntimeInvocation))
      → Ensures find s id r
      → Ensures find_tracked (s, x) id (beside x r)
  tracked-Ensures s x id (t, call_failed e) k = k
  tracked-Ensures s x id (t, answered none) k = k
  tracked-Ensures s x id (t, answered (some i)) k = k

  to_tracked :
      (s : S) (x : Option ToolExecutionResult) (id attempt : String)
      → Holds find owner s id attempt
      → Holds find_tracked owner_tracked (s, x) id attempt
  to_tracked s x id attempt h = record {
    invocation = h.invocation;
    found = h.found;
    is_running = h.is_running;
    owned = h.owned;
  }

  of_tracked :
      (s : S) (x : Option ToolExecutionResult) (id attempt : String)
      → Holds find_tracked owner_tracked (s, x) id attempt
      → Holds find owner s id attempt
  of_tracked s x id attempt h = record {
    invocation = h.invocation;
    found = h.found;
    is_running = h.is_running;
    owned = h.owned;
  }

  tracked-Begins :
      (x : Option ToolExecutionResult) (id attempt : String)
      (r : S × Answer (Option RuntimeInvocation × Bool))
      → Begins find owner id attempt r
      → Begins find_tracked owner_tracked id attempt (beside x r)
  tracked-Begins x id attempt (t, call_failed e) k = k
  tracked-Begins x id attempt (t, answered (i, false)) k = k
  tracked-Begins x id attempt (t, answered (i, true)) k = to_tracked t x id attempt k

  tracked-Wins :
      (x : Option ToolExecutionResult) (id : String) (status : InvocationStatus) (output : String)
      (r : S × Answer Bool)
      → Wins find id status output r
      → Wins find_tracked id status output (beside x r)
  tracked-Wins x id status output (t, call_failed e) k = k
  tracked-Wins x id status output (t, answered won) (wins, k) = (
    wins,
    record {
      invocation = k.invocation;
      found = k.found;
      reads = k.reads;
      holds_output = k.holds_output;
    },
  )

  -- The journal with the variable beside it keeps the journal's contract.
  tracked-IsFenced : IsFenced (tracked repo)
  tracked-IsFenced = record {
    find = find_tracked;
    owner = owner_tracked;
    Others = λ attempt (s, x) (t, y). Others attempt s t;
    ensures = λ i (s, x). tracked-Ensures s x i.invocation_id _ (contract.ensures i s);
    begins = λ id attempt (s, x). tracked-Begins x id attempt _ (contract.begins id attempt s);
    keeps = λ id attempt (s, x) (t, y) o h.
        to_tracked t y id attempt (contract.keeps id attempt s t o (of_tracked s x id attempt h));
    completes = λ id attempt output (s, x) h.
        tracked-Wins x id succeeded output _
          (contract.completes id attempt output s (of_tracked s x id attempt h));
    fails = λ id attempt reason (s, x) h.
        tracked-Wins x id failed "" _
          (contract.fails id attempt reason s (of_tracked s x id attempt h));
    marks = λ id attempt reason (s, x) h.
        tracked-Wins x id unknown "" _
          (contract.marks id attempt reason s (of_tracked s x id attempt h));
  }

  -- The executor is not called, and the stored output is decoded and redacted, unless the journal
  -- itself fails.
  pub record FromJournal (deps : ToolDeps) (i : RuntimeInvocation) (run : ToolRun S) : Type 0 where
    pub not_run : run.ran ≡ false
    pub answers :
        (run.outcome
          ≡ tool_executed
              (decode_tool_result deps.codec i.output_json)
              (deps.redact (decode_tool_result deps.codec i.output_json).output)
              true)
        ⊎ ((text : String) × (run.outcome
              ≡ tool_refused (kernel_error (invocation_repository "ensure invocation" text))))

  outcome_cached :
      (deps : ToolDeps) (i : RuntimeInvocation) (run : Run (Tracked S))
      → run.journal.1 ≡ none
      → run.result ≡ returned (cached_result i)
      → finish_tool deps repo run.journal.1 run.result
        ≡ tool_executed
            (decode_tool_result deps.codec i.output_json)
            (deps.redact (decode_tool_result deps.codec i.output_json).output)
            true
  unfolding cached_result
  outcome_cached deps i run n r = rw (n, r) refl

  Replays-FromJournal :
      (deps : ToolDeps) (i : RuntimeInvocation) (run : Run (Tracked S))
      → run.journal.1 ≡ none
      → Replays tracked-IsFenced deps.digest_bytes i run
      → FromJournal deps i (as_tool_run deps repo run)
  Replays-FromJournal deps i run n k = record {
    not_run = k.not_run;
    answers = elim k.answers [
      | inl r ↦ inl (outcome_cached deps i run n r)
      | inr (text, r) ↦ inr (text, ap (finish_tool deps repo run.journal.1) r)
    ];
  }

  -- The variable is set by the executor only.
  kernel_run-unset :
      (deps : ToolDeps) (env : ToolEnvironment S) (req : Request) (s : S)
      → (execute
          (tracked repo)
          deps.digest_bytes
          (kernel_environment deps repo env)
          none
          req
          (s, none)).ran
        ≡ false
      → (execute
          (tracked repo)
          deps.digest_bytes
          (kernel_environment deps repo env)
          none
          req
          (s, none)).journal.1
        ≡ none
  unfolding kernel_environment
  kernel_run-unset deps env req s idle =
      elim (execute-Unchanged (tracked repo) deps.digest_bytes (λ (t : Tracked S). t.1)
        (λ i s. refl) (λ id a s. refl) (λ id a reason s. refl) (kernel_environment deps repo env)
        (λ s. refl) (λ s. refl) none req (s, none)) [
          | inl ran ↦ absurd (ground (arith, idle, ran))
          | inr same ↦ same
        ]

  -- With a journal that keeps its contract, a request that passes the checks, has its identity, and
  -- matches an invocation that the journal holds as succeeded, does not call the executor: it returns
  -- the stored output decoded, with its text redacted and marked as cached, or the journal's own
  -- error.
  pub execute_tool-FromJournal :
      (deps : ToolDeps) (env : ToolEnvironment S) (req : ToolRequest) (s : S)
      (i : RuntimeInvocation)
      → check_request deps req ≡ none
      → has_identity req.identity ≡ true
      → find s req.identity.invocation_id ≡ some i
      → i.status ≡ succeeded
      → accepts (tracked repo) deps.digest_bytes none i (scoped (kernel_request deps req)) ≡ true
      → FromJournal deps i (execute_tool deps repo env req s)
  unfolding execute_tool kernel_request tracked-IsFenced
  execute_tool-FromJournal deps env req s i passed named found done same =
      let replay =
        execute-Replays tracked-IsFenced deps.digest_bytes (kernel_environment deps repo env) none
          (kernel_request deps req) (s, none) i named found done same in
      rw (execute_tool, passed, after_checks)
        (Replays-FromJournal deps i
          (execute (tracked repo) deps.digest_bytes (kernel_environment deps repo env) none
            (kernel_request deps req) (s, none))
          (kernel_run-unset deps env (kernel_request deps req) s replay.not_run) replay)
