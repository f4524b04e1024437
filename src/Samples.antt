-- ===== src/Samples.antt =====
-- Test data: a case of three agents with their votes, results and collaborators.
pub mod Assessments
pub mod AgentRuns
use magi_system.Prelude.{pos, true, false, String, Option, none, some, List, [], ◌∷◌, float_one}
use magi_system.Entity.Vote.{
  Vote, VoteDecision, approve, reject, MagiCode, melchior, balthasar, casper,
}
use magi_system.Entity.Evidence.{Reflection, PositionChange, local}
use magi_system.Entity.Case.{draft, ExecutionContext}
use magi_system.Consensus.Engine.{default_consensus_policy}
use magi_system.Evidence.Ledger.{EvidenceLedger, Observed}
use magi_system.Runtime.Result.{LoopResult, completed}
use magi_system.Fsm.{default_fsm_blueprint}
use magi_system.Orchestration.Ballots.{MagiConfig}
use magi_system.Orchestration.Commit.{Ports, DecisionCase, done}
use magi_system.Orchestration.Steps.{World}
use magi_system.Orchestration.Machine.{Replay}

abbrev pub vote_of : String → VoteDecision → List String → Vote
vote_of id d evidence = record {
  id = id;
  case_id = "case-1";
  execution_generation = pos 0;
  agent_run_id = id;
  round = 1;
  decision = d;
  confidence = float_one;
  utility_scores = [];
  key_claim_ids = "CL-001" ∷ [];
  evidence_ids = evidence;
  reasoning_summary = "because";
  conditions = [];
}

abbrev pub approval : Vote
approval = vote_of "v-1" approve ("EV-001" ∷ [])

abbrev pub rejection : Vote
rejection = vote_of "v-2" reject []

abbrev pub result_of : Vote → Option Reflection → Option EvidenceLedger → LoopResult
result_of v r l = record {
  vote = some v;
  summary = none;
  reflection = r;
  ledger = l;
  status = completed;
  err = none;
}

abbrev pub approving : Option LoopResult
approving = some (result_of approval none none)

abbrev pub rejecting : Option LoopResult
rejecting = some (result_of rejection none none)

abbrev pub config_of : MagiCode → MagiConfig
config_of code = record { code = code; require_justification = true; require_new_evidence = false }

abbrev pub three_agents : List MagiConfig
three_agents = config_of melchior ∷ config_of balthasar ∷ config_of casper ∷ []

abbrev pub reflection_of : PositionChange → List String → Reflection
reflection_of p evidence = record {
  id = "refl-1";
  case_id = "case-1";
  execution_generation = pos 0;
  agent_run_id = "run-1";
  round = 1;
  previous_vote_id = "v-1";
  position_change = p;
  accepted_claims = [];
  rejected_claims = [];
  new_evidence_ids = evidence;
  dimensions_re_evaluated = none;
  reasoning = "because";
  ready_to_revote = true;
}

abbrev pub observed : Observed
observed = record {
  tool_call_id = "call-1";
  tool_name = "search";
  source_type = local;
  source_uri = "file";
  observation = "seen";
  reliability = record {
    base = float_one;
    directness = float_one;
    recency = float_one;
    corroboration = float_one;
    extraction = float_one;
    final = float_one;
  };
}

-- Nothing is stored.
abbrev pub no_ports : Ports
no_ports = record {
  has_repo = false;
  has_case_repo = false;
  owned_committer = none;
  status_committer = none;
  terminal_committer = none;
  conditional_writer = none;
  update_status = λ s n. none;
  publish = λ s n. none;
  repo_allows_non_atomic = false;
  case_repo_allows_non_atomic = false;
  verify_artifacts = none;
  create_resolution = none;
}

-- A durable repository whose owner commits.
abbrev pub owned_ports : Ports
owned_ports = record no_ports {
  has_repo = true;
  owned_committer =
      some (record { commit_status_owned = λ s n. done; commit_terminal_owned = λ s n. done });
}

abbrev pub owner : ExecutionContext
owner = record { case_id = "case-1"; job_id = "job-1"; worker_id = "worker-1"; generation = pos 1 }

abbrev pub draft_case : DecisionCase
draft_case = record {
  id = "case-1";
  status = draft;
  execution_generation = pos 0;
  execution_attempt = pos 0;
  max_debate_rounds = pos 2;
}

abbrev pub owned_case : DecisionCase
owned_case = record draft_case { execution_generation = pos 1 }

-- Two agents approve; the third rejects, and approves after the debate.
abbrev pub world : World
world = record {
  ports = no_ports;
  owner = none;
  blueprint = some default_fsm_blueprint;
  configs = three_agents;
  policy = default_consensus_policy;
  fail_case = false;
  retry_limit = pos 1;
  normalize = none;
  report = none;
  dispatch = λ n. approving ∷ approving ∷ rejecting ∷ [];
  dispatch_reconsider = λ n results. approving ∷ approving ∷ approving ∷ [];
  retry = λ phase round i attempt. none;
  persist_artifacts = λ phase round. none;
  persist_debate_round = λ round. none;
  persist_reflections = λ round rs. none;
}

abbrev pub no_replay : Replay
no_replay = record { settled = none; get_error = none; existing = none }
