-- ===== src/Runtime/Examples.antt =====
-- The tests of the loop at concrete counters.
use magi_system.Prelude.{pos, none, ◌≡◌, ◌↔◌}
use magi_system.Prelude.{some}
use magi_system.Runtime.Messages.{vote_phase}
use magi_system.Runtime.Response.{parse_response}
use magi_system.Runtime.Response.Laws.{Admitted, parse_response-Admitted}
use magi_system.Runtime.VoteDimensions.{validate_vote_dimensions}
use magi_system.Runtime.VoteDimensions.Laws.{Scored, validate_vote_dimensions-Scored}
use magi_system.Samples.Assessments.{scored_approval, objective}
use magi_system.Samples.AgentRuns.{parsers, text_answer}
use magi_system.Runtime.Termination.{TerminationState, LoopPolicy}

abbrev counters : TerminationState
counters = record {
  gate_fail = 1;
  consec_tool_fail = 0;
  token_used = 900;
  validation_fail = 0;
  tool_calls = 3;
}

abbrev limits : LoopPolicy
limits = record {
  max_steps = pos 8;
  max_gate_failures = pos 2;
  max_consecutive_tool_failures = pos 3;
  max_consecutive_validation_failures = pos 0;
  token_budget_limit = pos 1000;
  max_tool_calls = pos 10;
}

validate_vote_dimensions-Scored_example :
    (validate_vote_dimensions (some scored_approval) objective ≡ none)
    ↔ Scored scored_approval objective
validate_vote_dimensions-Scored_example = validate_vote_dimensions-Scored scored_approval objective

-- The vote is valid, and its confidence of 1 is normalized.
parse_response-Admitted_example :
    Admitted parsers vote_phase (parse_response parsers (text_answer "vote") vote_phase)
parse_response-Admitted_example = parse_response-Admitted parsers (text_answer "vote") vote_phase
