-- ===== src/Runtime/Loop/Responses.antt =====
-- The other branches of the agent loop: what it does with each kind of response.
use magi_system.Prelude.{
  ℕ, ◌+◌, pos, float_zero, String, Bool, false, not, ◌&&◌, Option, none, some, List, [], ◌∷◌, all,
  is_empty, leb, length, take, if◌then◌else◌,
}
use magi_system.Entity.Config.{EvidenceStandard}
use magi_system.Entity.Evidence.{EvidenceSummary, EvidenceSummaryClaim, Reflection}
use magi_system.Entity.Vote.{Vote}
use magi_system.Evidence.Gate.{GateResult, evaluate}
use magi_system.Evidence.Ledger.{
  EvidenceLedger, exists_collected, record_claim, recompute_corroboration, list,
}
use magi_system.Evidence.RoleGate.{RoleViolation, validate_role_assessment}
use magi_system.Evidence.RoleDecision.{RoleDecisionError, validate_role_decision}
use magi_system.Runtime.Result.{completed}
use magi_system.Runtime.Messages.{
  Phase, vote_phase, reconsider_reflect, assistant, user, Answer, EvidenceHint, ClaimFeedback,
  no_claims, claims_recorded, claims_rejected, claim_feedback, gate_failed, gate_passed_vote,
  gate_passed_reflection, reflection_recorded, invalid_response, vote_dimensions_failed,
  role_decision_failed,
}
use magi_system.Runtime.VoteDimensions.{VoteDimensionError, validate_vote_dimensions}
use magi_system.Runtime.Response.{
  ParsedResponse, tool_call, invalid, claim_submission, evidence_summary, reflection, vote,
}
use magi_system.Runtime.Checkpoints.{Pending}
use magi_system.Runtime.Loop.{
  AgentWorld, AgentConfig, LoopState, Flow, next, stop, commit_checkpoint,
}
use magi_system.Runtime.Loop.Tools.{say, terminate, answer_tool_calls}

-- `RelaxEvidenceStandard`
unfoldable pub relax_evidence_standard : EvidenceStandard → Bool → EvidenceStandard
relax_evidence_standard std has_tools = if has_tools then std else record {
  min_evidence_count = pos 0;
  min_quantitative_count = pos 0;
  min_reliability = float_zero;
  require_own_collected = false;
  required_types = [];
  required_claim_count = pos 0;
  custom_rules = std.custom_rules;
}

-- `AvailableEvidenceHint`, with a positive limit; an empty ledger has none.
unfoldable pub available_evidence_hint : EvidenceLedger → ℕ → Option EvidenceHint
unfolding list
available_evidence_hint ledger limit =
    let evs = list ledger in
    if is_empty evs
    then none
    else some (record { listed = take limit evs; more = not (leb (length evs) limit) })

-- The first id that is not in the ledger.
unfoldable pub first_unknown : EvidenceLedger → List String → Option String
unfolding exists_collected
first_unknown ledger [] = none
first_unknown ledger (id ∷ ids) =
    let rest = first_unknown ledger ids in if exists_collected ledger id "" then rest else some id

abbrev pub or_more {ℓ} : {A : Type ℓ} → Option A → List A → List A
or_more none rest = rest
or_more (some a) rest = a ∷ rest

unfoldable pub unknown_citations : EvidenceLedger → List EvidenceSummaryClaim → List String
unfolding first_unknown
unknown_citations ledger [] = []
unknown_citations ledger (c ∷ cs) =
    or_more (first_unknown ledger c.supports) (unknown_citations ledger cs)

-- `BuildClaimFeedback`
unfoldable pub build_claim_feedback : List EvidenceSummaryClaim → EvidenceLedger → ClaimFeedback
unfolding unknown_citations available_evidence_hint
build_claim_feedback claims ledger =
    let rejected = unknown_citations ledger claims in
    if is_empty claims
    then no_claims
    else if is_empty rejected
    then claims_recorded
    else claims_rejected rejected (available_evidence_hint ledger 8)

-- `ledger.RecordClaim` of each claim.
unfoldable pub record_claims : List EvidenceSummaryClaim → EvidenceLedger → EvidenceLedger
unfolding record_claim
record_claims [] l = l
record_claims (c ∷ cs) l = record_claims cs (record_claim l c.statement c.supports c.contradicts).0

-- A submission records the claims whose cited ids the ledger has.
unfoldable pub submit_claims : List EvidenceSummaryClaim → EvidenceLedger → EvidenceLedger
unfolding record_claim exists_collected
submit_claims [] l = l
submit_claims (c ∷ cs) l = submit_claims cs (
    if all (λ id. exists_collected l id "") c.supports
    then (record_claim l c.statement c.supports c.contradicts).0
    else l)

-- The two gates on a summary, with the ledger whose scores it recomputed.
pub record Verdict : Type 0 where
  pub ledger : EvidenceLedger
  pub gate : GateResult
  pub violations : List RoleViolation

abbrev pub passes : Verdict → Bool
passes v = v.gate.passed && is_empty v.violations

module _ (w : AgentWorld) (cfg : AgentConfig) where
  abbrev pub has_tools : Bool
  has_tools = not (is_empty w.tools)

  abbrev pub standard : EvidenceStandard
  standard = relax_evidence_standard cfg.evidence_standard has_tools

  unfoldable pub judge : EvidenceSummary → EvidenceLedger → Verdict
  unfolding recompute_corroboration evaluate validate_role_assessment
  judge summary l =
      let rescored = recompute_corroboration w.parsers.floats l summary.claims in
      record {
        ledger = rescored;
        gate = evaluate rescored standard cfg.code w.registry (some summary);
        violations =
            validate_role_assessment (some summary) (some rescored) cfg.role_policy cfg.objective
              cfg.code has_tools;
      }

  module _ (step : ℕ) where
    unfoldable pub on_claims : Answer → List EvidenceSummaryClaim → LoopState → Flow Unit
    unfolding submit_claims build_claim_feedback
    on_claims resp claims s =
        let ledger = submit_claims claims s.ledger in
        next
          (say (assistant resp ∷ user (claim_feedback (build_claim_feedback claims ledger)) ∷ [])
            (record s { ledger = ledger }))
          tt

    unfoldable pub on_refused : Answer → Verdict → LoopState → Flow Unit
    unfolding terminate available_evidence_hint
    on_refused resp v s = terminate cfg (
        say
          (assistant resp
            ∷ user (gate_failed v.gate v.violations (available_evidence_hint v.ledger 8))
            ∷ [])
          (record s {
            ledger = v.ledger;
            termination = record (s.termination) { gate_fail = s.termination.gate_fail + 1 };
          }))

    abbrev pub after_summary : Phase
    after_summary = if w.has_debate then reconsider_reflect else vote_phase

    unfoldable pub on_passed : Answer → EvidenceSummary → Verdict → LoopState → Flow Unit
    unfolding record_claims commit_checkpoint
    on_passed resp summary v s = commit_checkpoint w (step + 1) none (
        say
          (assistant resp
            ∷ user (if w.has_debate then gate_passed_reflection else gate_passed_vote)
            ∷ [])
          (record s {
            ledger = record_claims summary.claims v.ledger;
            summary = some summary;
            phase = after_summary;
          }))

    unfoldable pub on_summary : Answer → EvidenceSummary → LoopState → Flow Unit
    unfolding judge on_refused on_passed
    on_summary resp summary s =
        let v = judge summary s.ledger in
        if passes v then on_passed resp summary v s else on_refused resp v s

    unfoldable pub on_reflection : Answer → Reflection → LoopState → Flow Unit
    unfolding commit_checkpoint
    on_reflection resp r s = commit_checkpoint w (step + 1) none (
        say (assistant resp ∷ user reflection_recorded ∷ [])
          (record s { reflection = some r; phase = vote_phase }))

    abbrev pub decide :
        Option VoteDimensionError → Option RoleDecisionError → Answer → Vote → LoopState → Flow Unit
    decide (some e) refusal resp v s =
        next (say (assistant resp ∷ user (vote_dimensions_failed e) ∷ []) s) tt
    decide none (some e) resp v s =
        next (say (assistant resp ∷ user (role_decision_failed e) ∷ []) s) tt
    decide none none resp v s = stop s (record { status = completed; err = none; vote = some v })

    unfoldable pub on_vote : Answer → Vote → LoopState → Flow Unit
    unfolding validate_vote_dimensions validate_role_decision
    on_vote resp v s =
        decide (validate_vote_dimensions (some v) cfg.objective)
          (validate_role_decision w.parsers.floats (some v) s.summary cfg.role_policy cfg.objective)
          resp v s

    unfoldable pub on_invalid : Answer → LoopState → Flow Unit
    on_invalid resp s =
        next
          (say (assistant resp ∷ user invalid_response ∷ []) (record s {
            termination = record (s.termination) {
              validation_fail = s.termination.validation_fail + 1;
            };
          }))
          tt

    -- The switch over the kinds.
    unfoldable pub respond : ParsedResponse → Pending → LoopState → Flow Unit
    unfolding answer_tool_calls on_claims on_summary on_reflection on_vote on_invalid
    respond tool_call p s = answer_tool_calls w cfg step p s
    respond invalid p s = on_invalid p.response s
    respond (claim_submission cs) p s = on_claims p.response cs s
    respond (evidence_summary summary) p s = on_summary p.response summary s
    respond (reflection r) p s = on_reflection p.response r s
    respond (vote v) p s = on_vote p.response v s
