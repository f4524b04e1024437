-- ===== src/Runtime/Loop/Examples.antt =====
-- The sample agent's run.
use magi_system.Prelude.{true, none, some, ◌≡◌, refl, ◌≤◌, ◌+◌, lt_float}
use magi_system.Runtime.Checkpoints.{commit_for_execution}
use magi_system.Entity.Case.{is_durable}
use magi_system.Runtime.Loop.Responses.{relax_evidence_standard}
use magi_system.Evidence.Gate.Rules.{default_rule_registry}
use magi_system.Evidence.Ledger.{evidence_id, support_count}
use magi_system.Evidence.Gate.{ids_from}
use magi_system.Evidence.Reliability.{recompute_final, corroboration_of}
use magi_system.Entity.Config.{default_role_policy}
use magi_system.Runtime.Result.{completed}
use magi_system.Runtime.Loop.Tools.{answer_tool_calls}
use magi_system.Runtime.Loop.Answers.{Answered, answer_tool_calls-Answered}
use magi_system.Runtime.Loop.{LoopState, Flow, next, stop}
use magi_system.Samples.AgentRuns.{tool_answer}
use magi_system.Runtime.Loop.Run.{run_fresh, max_steps_of}
use magi_system.Runtime.Loop.Completion.{Completed, run_fresh-Completed}
use magi_system.Runtime.Loop.WriteAhead.{WriteAhead, model_calls, compaction_calls}
use magi_system.Runtime.Loop.WriteAhead.Runs.{run_fresh-WriteAhead}
use magi_system.Runtime.Loop.Liveness.{run_fresh_completes}
use magi_system.Runtime.Loop.Calm.{Calm}
use magi_system.Runtime.Loop.Run.{fresh}
use magi_system.Runtime.Loop.Responses.{judge, passes}
use magi_system.Runtime.Loop.Compaction.{wants_compaction}
use magi_system.Runtime.Response.{normalize_vote_confidence, parse_response, unwrap_function_call}
use magi_system.Runtime.VoteDimensions.{validate_vote_dimensions}
use magi_system.Evidence.RoleDecision.{validate_role_decision}
use magi_system.Evidence.Ledger.{new_evidence_ledger}
use magi_system.Samples.Assessments.{summary, scored_approval, bit_ops}
use magi_system.Samples.AgentRuns.{
  text_answer, knowing_world, unbudgeted_config, agent_config, agent_world, repository,
}

sample_completed :
    (run_fresh agent_world agent_config "case-1" "You are Balthasar." "Ship it?").1.status
    ≡ completed
unfolding run_fresh commit_for_execution is_durable relax_evidence_standard default_rule_registry
    evidence_id ids_from recompute_final corroboration_of support_count default_role_policy
sample_completed = refl

run_fresh-Completed_example :
    Completed agent_world agent_config "case-1"
      (run_fresh agent_world agent_config "case-1" "You are Balthasar." "Ship it?").0
      (run_fresh agent_world agent_config "case-1" "You are Balthasar." "Ship it?").1
run_fresh-Completed_example =
    run_fresh-Completed agent_world agent_config "case-1" "You are Balthasar." "Ship it?"
      sample_completed

run_fresh-WriteAhead_example :
    WriteAhead
      (run_fresh agent_world agent_config "case-1" "You are Balthasar." "Ship it?").0.history
    × (model_calls
          (run_fresh agent_world agent_config "case-1" "You are Balthasar." "Ship it?").0.history
        ≤ max_steps_of agent_config.policy
          + compaction_calls
              (run_fresh agent_world agent_config "case-1" "You are Balthasar."
                "Ship it?").0.history)
    × (compaction_calls
          (run_fresh agent_world agent_config "case-1" "You are Balthasar." "Ship it?").0.history
        ≤ 1)
run_fresh-WriteAhead_example =
    run_fresh-WriteAhead agent_world agent_config refl repository refl "case-1" "You are Balthasar."
      "Ship it?"

knowing_passes :
    passes (
      judge knowing_world unbudgeted_config summary
        (new_evidence_ledger "case-1" "run-1" "BALTHASAR"))
    ≡ true
unfolding judge relax_evidence_standard default_rule_registry new_evidence_ledger ids_from
    default_role_policy lt_float
knowing_passes = refl

knowing-Calm : Calm knowing_world unbudgeted_config
unfolding commit_for_execution wants_compaction is_durable
knowing-Calm = record {
  leased = λ h. refl;
  current = λ h. refl;
  records = λ h e. refl;
  marshals = λ c. refl;
  stores = λ h c. refl;
  uncompacted = λ s. refl;
  unbudgeted = λ n. refl;
}

run_fresh_completes_example :
    (run_fresh knowing_world unbudgeted_config "case-1" "You are Balthasar." "Ship it?").1
    ≡ record {
      status = completed;
      err = none;
      vote = some (normalize_vote_confidence bit_ops scored_approval);
    }
unfolding max_steps_of fresh parse_response unwrap_function_call validate_vote_dimensions lt_float
    validate_role_decision default_role_policy
run_fresh_completes_example =
    run_fresh_completes knowing_world unbudgeted_config knowing-Calm "case-1" "You are Balthasar."
      "Ship it?" 6 (text_answer "summary") (text_answer "vote") summary
      (normalize_vote_confidence bit_ops scored_approval) refl refl (λ h. refl) refl knowing_passes
      (λ h. refl) refl refl refl

-- The state before a response with a tool call, and the one after it.
abbrev before_tools : LoopState
before_tools = fresh agent_world agent_config "case-1" "You are Balthasar." "Ship it?"

abbrev state_of : Flow Unit → LoopState
state_of (next s u) = s
state_of (stop s e) = s

abbrev after_tools : LoopState
after_tools = state_of (
    answer_tool_calls agent_world agent_config 1
      (record { response = tool_answer; tool_index = none }) before_tools)

answer_tool_calls-Answered_example : Answered tool_answer before_tools.messages after_tools.messages
unfolding answer_tool_calls fresh commit_for_execution is_durable
answer_tool_calls-Answered_example =
    answer_tool_calls-Answered agent_world agent_config 1 tool_answer before_tools after_tools refl
