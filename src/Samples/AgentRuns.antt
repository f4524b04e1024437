-- ===== src/Samples/AgentRuns.antt =====
-- Test data: an agent that asks a tool, submits its summary, and votes.
use magi_system.Prelude.{
  ℕ, pos, float_zero, String, true, false, none, some, [], ◌∷◌, length, str_eq, ◌==◌, if◌then◌else◌,
}
use magi_system.Entity.Evidence.{local}
use magi_system.Evidence.Gate.Rules.{default_rule_registry}
use magi_system.Runtime.Termination.{LoopPolicy}
use magi_system.Runtime.Messages.{Answer}
use magi_system.Runtime.Response.{Parsers}
use magi_system.Runtime.Checkpoints.{CheckpointRepository, loaded}
use magi_system.Runtime.Loop.{AgentWorld, AgentConfig, generated, executed}
use magi_system.Samples.{observed}
use magi_system.Samples.Assessments.{bit_ops, objective, summary, standard, policy, scored_approval}

abbrev pub loop_policy : LoopPolicy
loop_policy = record {
  max_steps = pos 8;
  max_gate_failures = pos 2;
  max_consecutive_tool_failures = pos 3;
  max_consecutive_validation_failures = pos 2;
  token_budget_limit = pos 1000;
  max_tool_calls = pos 4;
}

abbrev pub agent_config : AgentConfig
agent_config = record {
  code = "BALTHASAR";
  policy = loop_policy;
  has_call_timeout = false;
  token_compaction_threshold = float_zero;
  evidence_standard = standard;
  role_policy = policy;
  objective = objective;
}

-- The texts "summary" and "vote" stand for the encoded values.
abbrev pub parsers : Parsers
parsers = record {
  summary_of = λ t. if str_eq t "summary" then some summary else none;
  vote_of = λ t. if str_eq t "vote" then some scored_approval else none;
  claims_of = λ t. none;
  reflection_of = λ t. none;
  object = λ t. none;
  values = λ t. none;
  encode_values = λ m. none;
  discriminator = λ t. none;
  floats = bit_ops;
}

abbrev pub tool_answer : Answer
tool_answer = record {
  content = "";
  tool_calls = record { id = "call-1"; name = "search"; arguments = "{}" } ∷ [];
  total_tokens = 10;
}

abbrev pub text_answer : String → Answer
text_answer t = record { content = t; tool_calls = []; total_tokens = 10 }

-- What the model says after so many messages.
abbrev pub script : ℕ → Answer
script n =
    if n == 2 then tool_answer else if n == 4 then text_answer "summary" else text_answer "vote"

abbrev pub repository : CheckpointRepository
repository = record { save = λ h c. none; load = λ id. loaded none; generations = none }

abbrev pub agent_world : AgentWorld
agent_world = record {
  run_id = "run-1";
  owner = none;
  has_debate = false;
  manifest_digest = "digest";
  tools = record { name = "search"; source = local } ∷ [];
  has_tool_runtime = true;
  registry = default_rule_registry (λ s. s);
  parsers = parsers;
  checkpoints = record { repo = some repository; recorder = none };
  marshal_error = λ c. none;
  lease_gone = λ h. false;
  context_error = λ h. none;
  record_critical = λ h e. none;
  generate = λ h ms. generated (script (length ms));
  summarize = λ h ms. none;
  message_text = λ m. "";
  run_tool = λ h phase td tc. executed "found" (
      record { source_uri = "file"; observation = "seen"; reliability = observed.reliability }
      ∷ []);
}

-- The same agent without tools and without a token budget: it summarizes what it knows, and votes.
abbrev pub unbudgeted_config : AgentConfig
unbudgeted_config = record agent_config {
  policy = record loop_policy { token_budget_limit = pos 0 };
}

abbrev pub knowing_world : AgentWorld
knowing_world = record agent_world {
  tools = [];
  generate = λ h ms. generated (text_answer (if length ms == 2 then "summary" else "vote"));
}
