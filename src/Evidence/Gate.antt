-- ===== src/Evidence/Gate.antt =====
-- backend/domain/evidence/gate.go: the deterministic gate on an agent's evidence summary. The map
-- `EvidenceByType` is the list of its entries, a set of ids a list without repetition. The texts of a
-- violation are a constructor with what the code prints; where the code ranges over a map, the
-- violations come in the order of the list.
pub mod Rules
pub mod Laws
mod Examples
use magi_system.Prelude.{
  ℕ, ◌+◌, ℤ, pos, ltb_ℤ, String, Bool, true, false, Option, none, some, List, [], ◌∷◌, ◌++◌, length,
  is_empty, str_eq, if◌then◌else◌, lt_float,
}
use magi_system.Prelude.Dict.{lookup, member}
use magi_system.Entity.Evidence.{EvidenceSummary, EvidenceSummaryClaim}
use magi_system.Entity.Config.{EvidenceStandard, EvidenceTypeRequirement, EvidenceRule}
use magi_system.Evidence.Ledger.{EvidenceLedger, exists_collected, reliability, list}

-- Counts come as found and as required; a claim by its index.
pub data GateViolation : Type 0 where
  nil_summary : GateViolation
  insufficient_evidence insufficient_quantitative insufficient_claims : ℕ → ℤ → GateViolation
  missing_required_type : String → ℕ → ℤ → GateViolation
  evidence_not_found reliability_below_threshold : String → GateViolation
  claim_unsupported : ℕ → String → GateViolation
  unknown_custom_rule : String → GateViolation
  -- The violations of the registered rules.
  worst_case_claim_missing reversibility_missing opportunity_cost_missing : GateViolation
  time_window_missing primary_source_missing dimension_coverage_weak : GateViolation
  other_violation : String → GateViolation

pub record GateResult : Type 0 where
  pub passed : Bool
  pub violations : List GateViolation

abbrev CustomRuleFunc : Type 0
CustomRuleFunc = EvidenceSummary → EvidenceLedger → String → Option GateViolation

abbrev pub RuleRegistry : Type 0
RuleRegistry = List (String × CustomRuleFunc)

-- `res.Passed = false` and the violation appended.
unfoldable pub refuse : GateViolation → GateResult → GateResult
refuse v r = record { passed = false; violations = r.violations ++ v ∷ [] }

unfoldable pub refuse_if : Bool → GateViolation → GateResult → GateResult
unfolding refuse
refuse_if b v r = if b then refuse v r else r

-- `allIDs[id] = true`, for one entry of the map and for all.
unfoldable pub add_ids : List String → List String → List String
unfolding member
add_ids [] found = found
add_ids (id ∷ ids) found = add_ids ids (if member id found then found else found ++ id ∷ [])

unfoldable pub ids_from : List (String × List String) → List String → List String
unfolding add_ids
ids_from [] found = found
ids_from ((type_name, ids) ∷ entries) found = ids_from entries (add_ids ids found)

abbrev pub all_ids : EvidenceSummary → List String
all_ids summary = ids_from summary.evidence_by_type []

-- `typeCounts[typ]`: every id listed under the type counts, a repeated one each time.
unfoldable pub type_count : String → List (String × List String) → ℕ
type_count type_name [] = 0
type_count type_name ((first, ids) ∷ entries) =
    (if str_eq first type_name then length ids else 0) + type_count type_name entries

-- `n < min`
abbrev pub short : ℕ → ℤ → Bool
short n min = ltb_ℤ (pos n) min

unfoldable pub check_required_types :
    List (String × List String) → List EvidenceTypeRequirement → GateResult → GateResult
unfolding type_count refuse_if
check_required_types entries [] r = r
check_required_types entries (rt ∷ rts) r =
    let n = type_count rt.type_name entries in
    check_required_types entries rts
      (refuse_if (short n rt.min_count) (missing_required_type rt.type_name n rt.min_count) r)

abbrev pub collector_check : EvidenceStandard → String → String
collector_check standard collector = if standard.require_own_collected then collector else ""

module _ (ledger : EvidenceLedger) (standard : EvidenceStandard) (collector : String) where
  -- `!ok || rel < standard.MinReliability`
  unfoldable pub unreliable : String → Bool
  unfolding reliability
  unreliable id = elim (reliability ledger id) [
    | none ↦ true
    | some rel ↦ lt_float rel standard.min_reliability
  ]

  check_id : String → GateResult → GateResult
  unfolding exists_collected refuse_if unreliable refuse
  check_id id r =
      if exists_collected ledger id (collector_check standard collector)
      then refuse_if (unreliable id) (reliability_below_threshold id) r
      else refuse (evidence_not_found id) r

  unfoldable pub check_ids : List String → GateResult → GateResult
  unfolding check_id
  check_ids [] r = r
  check_ids (id ∷ ids) r = check_ids ids (check_id id r)

  check_supports : ℕ → List String → GateResult → GateResult
  unfolding refuse_if exists_collected refuse
  check_supports i [] r = r
  check_supports i (sid ∷ sids) r = check_supports i sids (
      if exists_collected ledger sid (collector_check standard collector)
      then r
      else refuse (claim_unsupported i sid) r)

  unfoldable pub check_claims : ℕ → List EvidenceSummaryClaim → GateResult → GateResult
  unfolding check_supports
  check_claims i [] r = r
  check_claims i (c ∷ cs) r = check_claims (i + 1) cs (check_supports i c.supports r)

  -- The checks against the ledger, which an empty ledger skips.
  unfoldable pub check_ledger : EvidenceSummary → GateResult → GateResult
  unfolding check_ids check_claims list
  check_ledger summary r =
      if is_empty (list ledger)
      then r
      else check_claims 0 summary.claims (check_ids (all_ids summary) r)

  apply_rule : CustomRuleFunc → EvidenceSummary → GateResult → GateResult
  unfolding refuse
  apply_rule f summary r = elim (f summary ledger collector) [ none ↦ r | some v ↦ refuse v r ]

  unfoldable pub check_rules :
      RuleRegistry → EvidenceSummary → List EvidenceRule → GateResult → GateResult
  unfolding lookup refuse apply_rule
  check_rules registry summary [] r = r
  check_rules registry summary (rule ∷ rules) r =
      check_rules registry summary rules (elim (lookup rule.code registry) [
        | none ↦ refuse (unknown_custom_rule rule.code) r
        | some f ↦ apply_rule f summary r
      ])

  -- The four counts, up to the checks against the ledger.
  unfoldable pub check_counts : EvidenceSummary → GateResult → GateResult
  unfolding refuse_if type_count check_required_types
  check_counts summary r =
      let found = length (all_ids summary) in
      let quantitative = type_count "quantitative" summary.evidence_by_type in
      let claims = length summary.claims in
      refuse_if (short claims standard.required_claim_count)
        (insufficient_claims claims standard.required_claim_count)
        (check_required_types summary.evidence_by_type standard.required_types (
          refuse_if (short quantitative standard.min_quantitative_count)
            (insufficient_quantitative quantitative standard.min_quantitative_count)
            (refuse_if (short found standard.min_evidence_count)
              (insufficient_evidence found standard.min_evidence_count) r)))

  -- `EvidenceGate.Evaluate`; the gate is its registry, the summary a pointer.
  unfoldable pub evaluate : RuleRegistry → Option EvidenceSummary → GateResult
  unfolding check_counts check_ledger check_rules
  evaluate registry none = record { passed = false; violations = nil_summary ∷ [] }
  evaluate registry (some summary) =
      check_rules registry summary standard.custom_rules
        (check_ledger summary (check_counts summary (record { passed = true; violations = [] })))
