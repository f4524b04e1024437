-- ===== src/Execution/Tools/Laws.antt =====
-- When a tool reaches the kernel, and what becomes of its result.
use Prim.Native.String.{◌++◌ as ◌<>◌, [] as nil, ◌∷◌ as cons}
use text.Mathlib.TextLemmas.{nil-append, cons-append}
use magi_system.Prelude.{
  ℕ, ◌+◌, ◌≤◌, ◌<◌, String, true, false, Option, none, some, ◌≡◌, ◌⊎◌, inl, inr, refl, arith, ap,
  tests, leb→le, str_eq, leb, Bool-cases, Option-cases,
}
use magi_system.Execution.Invocation.{InvocationRepository}
use magi_system.Evidence.SourceUri.{
  byte_count, byte_count-prefix_bytes, find_cut-le, find_cut, prefix_bytes,
}
use magi_system.Execution.Tools.{ToolEnvironment, ToolRun, tool_refused, execute_tool, after_checks}
use magi_system.Execution.Tools.Checks.{
  ToolDeps, ToolRequest, ToolError, Approval, decided, QuotaAnswer, quota_allows, check_request,
  check_permission, check_approval, check_decision, check_quota, quota_answer, needs_approval,
  invalid_arguments, then_check,
}
use magi_system.Execution.Tools.Results.{
  ToolExecutionResult, Structured, no_structured, encodable, unencodable, clip_tool_output,
  clip_text, output_truncation_marker, encode_tool_result, decode_tool_result, ResultCodec,
  persisted, encoded_structured, decoded_structured,
}

-- What `Execute` asks of a request before the kernel.
pub record Governed (deps : ToolDeps) (req : ToolRequest) : Type 0 where
  pub resolved : str_eq req.definition.name "" ≡ false
  pub permitted : str_eq req.permission req.definition.name ≡ true
  pub approved :
      (needs_approval deps.policy req.definition.name ≡ false)
      ⊎ ((who : String) × (reason : String) × (req.approval ≡ some (decided true who reason)))
  pub within_quota : quota_answer deps.quota req.user_id req.definition.name ≡ quota_allows
  pub valid : deps.violations req.definition.args_schema req.arguments_json ≡ none

-- The run changed nothing and called nothing.
pub record Untouched {S : Type 0} (s : S) (run : ToolRun S) : Type 0 where
  pub error : ToolError
  pub refused : run.outcome ≡ tool_refused error
  pub unchanged : run.journal ≡ s
  pub not_run : run.ran ≡ false

decision-approved :
    (redact : String → String) (a : Option Approval)
    → check_decision redact a ≡ none
    → (who : String) × (reason : String) × (a ≡ some (decided true who reason))
unfolding check_decision
decision-approved redact none h = absurd (ground arith)
decision-approved redact (some (Approval.approval_error text)) h = absurd (ground arith)
decision-approved redact (some (decided true who reason)) h = (who, reason, refl)
decision-approved redact (some (decided false who reason)) h = absurd (ground arith)

quota-allowed :
    (redact : String → String) (name : String) (a : QuotaAnswer)
    → check_quota redact name a ≡ none
    → a ≡ quota_allows
unfolding check_quota
quota-allowed redact name quota_allows h = refl
quota-allowed redact name QuotaAnswer.quota_refuses h = absurd (ground arith)
quota-allowed redact name (QuotaAnswer.quota_error text) h = absurd (ground arith)

both_none {ℓ} :
    {E : Type ℓ} (first rest : Option E)
    → then_check first rest ≡ none
    → (first ≡ none) × (rest ≡ none)
both_none none rest h = (refl, h)
both_none (some e) rest h = absurd (ground arith)

module _ (deps : ToolDeps) (req : ToolRequest) where
  approval-approved :
      check_approval deps req ≡ none
      → (needs_approval deps.policy req.definition.name ≡ false)
        ⊎ ((who : String) × (reason : String) × (req.approval ≡ some (decided true who reason)))
  unfolding check_approval
  approval-approved h = elim (Bool-cases (needs_approval deps.policy req.definition.name)) [
    | inr e ↦ inl e
    | inl e ↦ inr (decision-approved deps.redact req.approval (rw e at h))
  ]

  violations-none : (v : Option String) → invalid_arguments deps v ≡ none → v ≡ none
  violations-none none h = refl
  violations-none (some text) h = absurd (ground arith)

  permission-permitted :
      check_permission req ≡ none
      → (str_eq req.definition.name "" ≡ false) × (str_eq req.permission req.definition.name ≡ true)
  unfolding check_permission
  permission-permitted h = ground arith

  check_request-Governed : check_request deps req ≡ none → Governed deps req
  unfolding check_request
  check_request-Governed h =
      let (permission, h') = both_none _ _ h in
      let (approval, h'') = both_none _ _ h' in
      let (quota, arguments) = both_none _ _ h'' in
      let (resolved, permitted) = permission-permitted permission in
      record {
        resolved = resolved;
        permitted = permitted;
        approved = approval-approved approval;
        within_quota = quota-allowed deps.redact req.definition.name _ quota;
        valid = violations-none _ arguments;
      }

  -- A tool is executed only if its name is resolved and is the permitted one, an approval was given
  -- where the policy asks for one, the quota allows the call and the arguments are valid; otherwise
  -- the request is refused without a call of the kernel, so that the journal is as before.
  pub execute_tool-Governed :
      {S : Type 0} (repo : InvocationRepository S) (env : ToolEnvironment S) (s : S)
      → Governed deps req ⊎ Untouched s (execute_tool deps repo env req s)
  unfolding execute_tool
  execute_tool-Governed repo env s = elim (Option-cases (check_request deps req)) [
    | inl e ↦ inl (check_request-Governed e)
    | inr (e, q) ↦ inr (record {
      error = e;
      refused = rw (q, after_checks) refl;
      unchanged = rw (q, after_checks) refl;
      not_run = rw (q, after_checks) refl;
    })
  ]

byte_count-append : (s t : String) → byte_count (s <> t) ≡ byte_count s + byte_count t
unfolding byte_count
byte_count-append nil t = rw (nil-append t) (omega arith)
byte_count-append (cons c s) t = rw (cons-append c s t) (omega (arith, byte_count-append s t))

clip_text_bounded :
    (s : String) (max : ℕ)
    → byte_count (clip_text s max) ≤ max + byte_count (output_truncation_marker max)
unfolding clip_text
clip_text_bounded s max =
    rw (byte_count-append (prefix_bytes s (find_cut s max)) (output_truncation_marker max))
      (omega (arith, find_cut-le s max, byte_count-prefix_bytes s (find_cut s max)))

positive : (max : ℕ) → 0 < max → leb max 0 ≡ false
positive max h = ground arith

-- With a positive bound, the output of a clipped result has at most as many bytes as the bound and its
-- marker.
pub clip_tool_output_bounded :
    (r : ToolExecutionResult) (max : ℕ)
    → 0 < max
    → byte_count (clip_tool_output r max).output ≤ max + byte_count (output_truncation_marker max)
unfolding clip_tool_output
clip_tool_output_bounded r max h = elim (Bool-cases (leb (byte_count r.output) max)) [
  | inl e ↦ rw (positive max h, e) (omega (tests, leb→le (byte_count r.output) max e))
  | inr e ↦ rw (positive max h, e) (clip_text_bounded r.output max)
]

structured_back :
    (x : Structured)
    → (x ≡ no_structured) ⊎ ((t : String) × (x ≡ encodable t))
    → decoded_structured (encoded_structured x) ≡ x
structured_back no_structured h = refl
structured_back (encodable t) h = refl
structured_back unencodable (inl e) = absurd (ground arith)
structured_back unencodable (inr (t, e)) = absurd (ground arith)

-- Where the codec encodes the result's envelope and decodes what it encodes, and JSON can encode the
-- structured payload, a stored result reads back as it was.
pub decode_tool_result-encode_tool_result :
    (codec : ResultCodec) (r : ToolExecutionResult) (text : String)
    → codec.encode (persisted r) ≡ some text
    → codec.decode text ≡ some (persisted r)
    → (r.structured ≡ no_structured) ⊎ ((t : String) × (r.structured ≡ encodable t))
    → decode_tool_result codec (encode_tool_result codec r) ≡ r
unfolding decode_tool_result encode_tool_result
decode_tool_result-encode_tool_result codec r text e d s =
    rw (encode_tool_result, e, decode_tool_result, d)
      (ap (λ x. record r { structured = x }) (structured_back r.structured s))
