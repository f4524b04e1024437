-- ===== src/Runtime/Response.antt =====
-- backend/domain/runtime/response_parser.go, and `unwrapFunctionCall` of agent_loop.go: what a message
-- of the model counts as in a phase. The schema validators and the JSON codec are parameters.
pub mod Laws
use magi_system.Prelude.{
  Float64, FloatOps, float_hundred, String, Bool, true, false, not, ◌&&◌, ◌||◌, Option, none, some,
  List, [], ◌∷◌, str_eq, is_empty, if◌then◌else◌,
}
use magi_system.Prelude.Dict.{lookup}
use magi_system.Entity.Vote.{Vote, normalize_confidence}
use magi_system.Entity.Evidence.{EvidenceSummary, EvidenceSummaryClaim, Reflection}
use magi_system.Runtime.Messages.{
  Phase, gather, reconsider_gather, reconsider_reflect, vote_phase, unknown_phase, is_gather,
  ToolCall, Answer,
}

-- `Raw` is left out: it is the message itself.
pub data ParsedResponse : Type 0 where
  tool_call invalid : ParsedResponse
  claim_submission : List EvidenceSummaryClaim → ParsedResponse
  evidence_summary : EvidenceSummary → ParsedResponse
  reflection : Reflection → ParsedResponse
  vote : Vote → ParsedResponse

-- The four typed validators answer the value if the text is valid. `object` decodes a JSON object to
-- its members with their raw texts (`map[string]json.RawMessage`), `values` to its members with the
-- text of each decoded value (`map[string]any`, so numbers pass through floating point), which
-- `encode_values` encodes again, and `discriminator` decodes the field `type`. `floats` is the
-- arithmetic of the machine.
pub record Parsers : Type 0 where
  pub summary_of : String → Option EvidenceSummary
  pub vote_of : String → Option Vote
  pub claims_of : String → Option (List EvidenceSummaryClaim)
  pub reflection_of : String → Option Reflection
  pub object : String → Option (List (String × String))
  pub values : String → Option (List (String × String))
  pub encode_values : List (String × String) → Option String
  pub discriminator : String → Option String
  pub floats : FloatOps

-- `delete(m, key)`
without {ℓ} : {V : Type ℓ} → String → List (String × V) → List (String × V)
without key [] = []
without key ((first, value) ∷ members) =
    let rest = without key members in if str_eq first key then rest else (first, value) ∷ rest

abbrev or_else {ℓ} : {A : Type ℓ} → Option A → A → A
or_else none a = a
or_else (some a) _ = a

-- `normalizeVoteConfidence`
unfoldable pub normalize_vote_confidence : FloatOps → Vote → Vote
unfolding normalize_confidence
normalize_vote_confidence ops v = record v {
  confidence = normalize_confidence (λ x. ops.mul x float_hundred) v.confidence;
}

-- `singleKeyKind` and the kinds of the wrapper's keys.
pub data Kind : Type 0 where
  reflection_kind vote_kind summary_kind no_kind : Kind

unfoldable single_key_kind : String → Kind
single_key_kind k =
    if str_eq k "reflection"
    then reflection_kind
    else if str_eq k "vote" || str_eq k "decision"
    then vote_kind
    else if str_eq k "evidence_summary" || str_eq k "summary" || str_eq k "evidence"
    then summary_kind
    else no_kind

abbrev is_wrapper_name : String → Bool
is_wrapper_name name = str_eq name "function" || str_eq name "reflect" || str_eq name "output"

-- The keys that are tried in an object of several members, in their order.
first_known : List (String × String) → List (String × Kind) → Option (String × Kind)
unfolding lookup
first_known wrapper [] = none
first_known wrapper ((key, kind) ∷ keys) =
    let rest = first_known wrapper keys in
    elim (lookup key wrapper) [ none ↦ rest | some candidate ↦ some (candidate, kind) ]

-- The value inside the wrapper, with the kind that it is tried as.
unfoldable candidate_of : List (String × String) → Option (String × Kind)
unfolding single_key_kind first_known
candidate_of ((key, value) ∷ []) = some (value, single_key_kind key)
candidate_of wrapper = first_known wrapper (
    ("reflection", reflection_kind)
    ∷ ("vote", vote_kind)
    ∷ ("evidence_summary", summary_kind)
    ∷ ("summary", summary_kind)
    ∷ [])

module _ (parsers : Parsers) where
  open parsers use {
    summary_of, vote_of, claims_of, reflection_of, object, values, encode_values, discriminator,
    floats,
  }

  -- `stripDiscriminatorType`
  unfoldable pub strip_discriminator_type : String → String
  unfolding without
  strip_discriminator_type s = elim (values s) [
    | none ↦ s
    | some m ↦ or_else (encode_values (without "type" m)) s
  ]

  abbrev is_some {ℓ} : {A : Type ℓ} → Option A → Bool
  is_some none = false
  is_some (some a) = true

  accepted : Kind → String → Bool
  accepted reflection_kind text = is_some (reflection_of text)
  accepted vote_kind text = is_some (vote_of text)
  accepted summary_kind text = is_some (summary_of text)
  accepted no_kind text = false

  -- The candidate of a wrapper that is accepted as its kind replaces the message.
  unwrap_candidate : Option (String × Kind) → Answer → Answer
  unfolding accepted
  unwrap_candidate none resp = resp
  unwrap_candidate (some (candidate, kind)) resp =
      if not (str_eq candidate "") && accepted kind candidate
      then record { content = candidate; tool_calls = []; total_tokens = 0 }
      else resp

  unwrap_object : Option (List (String × String)) → Answer → Answer
  unfolding candidate_of unwrap_candidate
  unwrap_object none resp = resp
  unwrap_object (some wrapper) resp = unwrap_candidate (candidate_of wrapper) resp

  unwrap_call : List ToolCall → Answer → Answer
  unfolding unwrap_object
  unwrap_call (tc ∷ []) resp =
      if is_wrapper_name tc.name then unwrap_object (object tc.arguments) resp else resp
  unwrap_call _ resp = resp

  -- `unwrapFunctionCall`
  unfoldable pub unwrap_function_call : Answer → Answer
  unfolding unwrap_call
  unwrap_function_call resp = unwrap_call resp.tool_calls resp

  as_summary : String → ParsedResponse
  as_summary content = elim (summary_of content) [ none ↦ invalid | some s ↦ evidence_summary s ]

  as_reflection : String → ParsedResponse
  as_reflection content = elim (reflection_of content) [ none ↦ invalid | some r ↦ reflection r ]

  as_vote : String → ParsedResponse
  unfolding normalize_vote_confidence
  as_vote content = elim (vote_of content) [
    | none ↦ invalid
    | some v ↦ vote (normalize_vote_confidence floats v)
  ]

  -- The last switch: the schema of the phase.
  by_phase : Phase → String → ParsedResponse
  unfolding as_summary as_reflection as_vote
  by_phase gather content = as_summary content
  by_phase reconsider_gather content = as_summary content
  by_phase reconsider_reflect content = as_reflection content
  by_phase vote_phase content = as_vote content
  by_phase (unknown_phase text) content = invalid

  abbrev is_vote_phase : Phase → Bool
  is_vote_phase vote_phase = true
  is_vote_phase _ = false

  -- The first switch: what the discriminator names, where the phase admits it and it is valid.
  by_type : String → Phase → String → String → ParsedResponse
  unfolding as_summary as_vote
  by_type type_name phase original content =
      if str_eq type_name "claim_submission" && is_gather phase
      then elim (claims_of original) [ none ↦ invalid | some cs ↦ claim_submission cs ]
      else if str_eq type_name "evidence_summary" && is_gather phase
      then as_summary content
      else if str_eq type_name "vote" && is_vote_phase phase
      then as_vote content
      else invalid

  -- An invalid first attempt falls through to the second.
  abbrev or_by_phase : ParsedResponse → ParsedResponse → ParsedResponse
  or_by_phase invalid second = second
  or_by_phase first _ = first

  -- A text without an object or with an empty type is routed by its phase alone.
  routed : Option String → Phase → String → String → ParsedResponse
  unfolding by_type
  routed none phase original content = invalid
  routed (some type_name) phase original content =
      if str_eq type_name "" then invalid else by_type type_name phase original content

  parse_content : Phase → String → ParsedResponse
  unfolding strip_discriminator_type routed by_phase
  parse_content phase original =
      let content = strip_discriminator_type original in
      or_by_phase (routed (discriminator original) phase original content) (by_phase phase content)

  -- `parseResponse`
  unfoldable pub parse_response : Answer → Phase → ParsedResponse
  unfolding parse_content
  parse_response resp phase =
      if is_empty resp.tool_calls then parse_content phase resp.content else tool_call
