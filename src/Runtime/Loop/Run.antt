-- ===== src/Runtime/Loop/Run.antt =====
-- The iterations of the agent loop, and a fresh run.
use magi_system.Prelude.{
  ℕ, zero, suc, ◌+◌, ◌-◌, pos, pos_part, String, Bool, none, some, [], ◌∷◌, leb_ℤ, if◌then◌else◌,
  GoError, plain,
}
use magi_system.Evidence.Ledger.{new_evidence_ledger}
use magi_system.Runtime.Result.{max_steps}
use magi_system.Runtime.Termination.{LoopPolicy}
use magi_system.Runtime.Messages.{gather, reconsider_gather, system, user, question}
use magi_system.Runtime.Response.{unwrap_function_call, parse_response}
use magi_system.Runtime.Checkpoints.{Pending, no_invocation}
use magi_system.Runtime.Loop.{AgentWorld, AgentConfig, LoopState, Ending, Flow, next, stop, ◌>>=◌}
use magi_system.Runtime.Loop.Model.{obtain}
use magi_system.Runtime.Loop.Tools.{terminate}
use magi_system.Runtime.Loop.Responses.{respond}

-- `ErrMaxSteps`
abbrev pub err_max_steps : GoError
err_max_steps = plain "magi agent loop: max steps exceeded"

-- `maxSteps` with its default.
unfoldable pub max_steps_of : LoopPolicy → ℕ
max_steps_of policy = if leb_ℤ policy.max_steps (pos 0) then 12 else pos_part policy.max_steps

-- What follows an iteration: the rest of the run, or its end.
abbrev pub continued : (LoopState → LoopState × Ending) → Flow Unit → LoopState × Ending
continued rest (next s u) = rest s
continued rest (stop s e) = (s, e)

module _ (w : AgentWorld) (cfg : AgentConfig) where
  -- The response is unwrapped before it is parsed.
  abbrev pub read_response : ℕ → Pending → LoopState → Flow Unit
  read_response step p s =
      let resp = unwrap_function_call w.parsers p.response in
      respond w cfg step (parse_response w.parsers resp s.phase) (record p { response = resp }) s

  unfoldable pub iterate : ℕ → LoopState → Flow Unit
  unfolding obtain terminate respond unwrap_function_call parse_response
  iterate step s = obtain w cfg step s >>= λ s p. terminate cfg s >>= λ s _. read_response step p s

  -- The loop with the number of steps that are left, from a step on.
  unfoldable pub loop : ℕ → ℕ → LoopState → LoopState × Ending
  unfolding iterate
  loop zero step s = (s, record { status = max_steps; err = some err_max_steps; vote = none })
  loop (suc left) step s = continued (λ s. loop left (step + 1) s) (iterate step s)

  -- The check before the loop, and the loop from the step to the last one.
  unfoldable pub run_loop : ℕ → LoopState → LoopState × Ending
  unfolding loop terminate max_steps_of
  run_loop start s =
      continued (λ s. loop (suc (max_steps_of cfg.policy) - start) start s) (terminate cfg s)

  -- The state of a run without a checkpoint.
  unfoldable pub fresh : String → String → String → LoopState
  unfolding new_evidence_ledger
  fresh case_id system_prompt task = record {
    messages = system system_prompt ∷ user (question task) ∷ [];
    phase = if w.has_debate then reconsider_gather else gather;
    termination = record {
      gate_fail = 0;
      consec_tool_fail = 0;
      token_used = 0;
      validation_fail = 0;
      tool_calls = 0;
    };
    summary = none;
    reflection = none;
    ledger = new_evidence_ledger case_id w.run_id cfg.code;
    compacted = Bool.false;
    last_committed = no_invocation;
    pending = none;
    history = [];
  }

  unfoldable pub run_fresh : String → String → String → LoopState × Ending
  unfolding run_loop fresh
  run_fresh case_id system_prompt task = run_loop 1 (fresh case_id system_prompt task)
