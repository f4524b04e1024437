-- ===== src/Evidence/RoleGate.antt =====
-- backend/domain/evidence/role_gate.go: the role-specific part of the gate. The result is the list of
-- violations; the ledger and the assessments are pointers.
pub mod Dimensions
pub mod Laws
use magi_system.Prelude.{
  ℕ, String, Float64, Bool, true, false, not, ◌&&◌, ◌||◌, Option, none, some, List, [], ◌∷◌, ◌++◌,
  is_empty, if◌then◌else◌, lt_float, float_zero, float_one, float_hundred, str_eq,
}
use magi_system.Prelude.Texts.{is_blank}
use magi_system.Prelude.Dict.{lookup, insert}
use magi_system.Entity.Evidence.{
  EvidenceSummary, RoleAssessment, DimensionAssessment, TechnicalAssessment, RiskAssessment,
  OpportunityAssessment,
}
use magi_system.Entity.Config.{
  ObjectiveFunction, UtilityDimension, RolePolicy, RequiredAssessment, technical_assessment,
  risk_assessment, opportunity_assessment, unknown_assessment,
}
use magi_system.Evidence.Ledger.{EvidenceLedger, exists_collected, list}

pub data RoleViolation : Type 0 where
  role_assessment_missing : RoleViolation
  duplicate_dimension_assessment dimension_assessment_missing : String → RoleViolation
  dimension_score_invalid dimension_reasoning_missing : String → RoleViolation
  dimension_evidence_missing dimension_evidence_invalid : String → RoleViolation
  unknown_dimension_assessment : String → RoleViolation
  technical_assessment_missing feasibility_score_invalid : RoleViolation
  technical_assumptions_missing quantitative_evidence_missing : RoleViolation
  quantitative_evidence_invalid : String → RoleViolation
  risk_assessment_missing worst_case_detail_missing rollback_plan_missing : RoleViolation
  residual_risk_invalid reversibility_score_invalid risk_evidence_missing : RoleViolation
  risk_evidence_invalid : String → RoleViolation
  opportunity_assessment_missing opportunity_score_invalid : RoleViolation
  time_window_detail_missing opportunity_cost_detail_missing : RoleViolation
  user_signal_evidence_missing : RoleViolation
  user_signal_evidence_invalid : String → RoleViolation
  unknown_role_assessment : String → RoleViolation

-- The violation, if the condition of its check holds.
unfoldable pub one_if : Bool → RoleViolation → List RoleViolation
one_if b v = if b then v ∷ [] else []

-- `score == nil || *score < 0 || *score > high`
abbrev pub outside : Float64 → Option Float64 → Bool
outside high none = true
outside high (some score) = lt_float score float_zero || lt_float high score

-- `ledger != nil && len(ledger.List()) > 0`
unfoldable pub has_records : Option EvidenceLedger → Bool
unfolding list
has_records none = false
has_records (some ledger) = not (is_empty (list ledger))

-- An id of a ledger with records that the collector did not record.
unfoldable pub is_foreign : Option EvidenceLedger → String → String → Bool
unfolding exists_collected
is_foreign none collector id = false
is_foreign (some ledger) collector id = not (exists_collected ledger id collector)

invalid_ids :
    (String → RoleViolation) → Option EvidenceLedger → String → List String → List RoleViolation
unfolding is_foreign one_if
invalid_ids violation ledger collector [] = []
invalid_ids violation ledger collector (id ∷ ids) =
    one_if (is_foreign ledger collector id) (violation id)
    ++ invalid_ids violation ledger collector ids

-- `validateEvidenceIDs`
unfoldable pub validate_evidence_ids :
    (String → RoleViolation) → Option EvidenceLedger → String → List String → List RoleViolation
unfolding has_records invalid_ids
validate_evidence_ids violation ledger collector ids =
    if has_records ledger then invalid_ids violation ledger collector ids else []

-- The first loop over the assessments: its violations.
unfoldable pub duplicates :
    List (String × DimensionAssessment) → List DimensionAssessment → List RoleViolation
unfolding lookup insert
duplicates by_code [] = []
duplicates by_code (a ∷ assessments) = elim (lookup a.dimension_code by_code) [
  | some old ↦ duplicate_dimension_assessment a.dimension_code ∷ duplicates by_code assessments
  | none ↦ duplicates (insert a.dimension_code a by_code) assessments
]

-- The map that the loop builds: the first assessment of each code.
unfoldable pub index_assessments :
    List (String × DimensionAssessment)
    → List DimensionAssessment
    → List (String × DimensionAssessment)
unfolding lookup insert
index_assessments by_code [] = by_code
index_assessments by_code (a ∷ assessments) = elim (lookup a.dimension_code by_code) [
  | some old ↦ index_assessments by_code assessments
  | none ↦ index_assessments (insert a.dimension_code a by_code) assessments
]

-- The last loop: is the code one of the objective's?
unfoldable pub has_dimension : String → List UtilityDimension → Bool
has_dimension code [] = false
has_dimension code (d ∷ dimensions) = str_eq d.code code || has_dimension code dimensions

unfoldable pub unknown_dimensions :
    List UtilityDimension → List DimensionAssessment → List RoleViolation
unfolding has_dimension one_if
unknown_dimensions dimensions [] = []
unknown_dimensions dimensions (a ∷ assessments) =
    one_if (not (has_dimension a.dimension_code dimensions))
      (unknown_dimension_assessment a.dimension_code)
    ++ unknown_dimensions dimensions assessments

module _ (ledger : Option EvidenceLedger) (collector : String) (require_evidence : Bool) where
  unfoldable pub check_assessment : String → DimensionAssessment → List RoleViolation
  unfolding one_if validate_evidence_ids is_blank
  check_assessment code a =
      one_if (outside float_hundred a.score) (dimension_score_invalid code)
      ++ one_if (is_blank a.reasoning) (dimension_reasoning_missing code)
      ++ one_if (require_evidence && is_empty a.evidence_ids) (dimension_evidence_missing code)
      ++ validate_evidence_ids dimension_evidence_invalid ledger collector a.evidence_ids

  unfoldable pub check_dimensions :
      List (String × DimensionAssessment) → List UtilityDimension → List RoleViolation
  unfolding lookup check_assessment
  check_dimensions by_code [] = []
  check_dimensions by_code (d ∷ dimensions) =
      elim (lookup d.code by_code) [
        | none ↦ dimension_assessment_missing d.code ∷ []
        | some a ↦ check_assessment d.code a
      ]
      ++ check_dimensions by_code dimensions

  -- `validateDimensionAssessments`
  unfoldable pub validate_dimension_assessments :
      List DimensionAssessment → ObjectiveFunction → List RoleViolation
  unfolding duplicates check_dimensions index_assessments unknown_dimensions
  validate_dimension_assessments assessments objective =
      duplicates [] assessments
      ++ check_dimensions (index_assessments [] assessments) objective.dimensions
      ++ unknown_dimensions objective.dimensions assessments

  unfoldable pub validate_technical : Option TechnicalAssessment → List RoleViolation
  unfolding one_if validate_evidence_ids
  validate_technical none = technical_assessment_missing ∷ []
  validate_technical (some a) =
      one_if (outside float_hundred a.feasibility_score) feasibility_score_invalid
      ++ one_if (is_empty a.assumptions) technical_assumptions_missing
      ++ one_if (require_evidence && is_empty a.quantitative_evidence_ids)
          quantitative_evidence_missing
      ++ validate_evidence_ids quantitative_evidence_invalid ledger collector
          a.quantitative_evidence_ids

  unfoldable pub validate_risk : Option RiskAssessment → List RoleViolation
  unfolding one_if validate_evidence_ids is_blank
  validate_risk none = risk_assessment_missing ∷ []
  validate_risk (some a) =
      one_if (is_blank a.worst_case) worst_case_detail_missing
      ++ one_if (is_blank a.rollback_plan) rollback_plan_missing
      ++ one_if (outside float_one a.residual_risk) residual_risk_invalid
      ++ one_if (outside float_hundred a.reversibility_score) reversibility_score_invalid
      ++ one_if (require_evidence && is_empty a.risk_evidence_ids) risk_evidence_missing
      ++ validate_evidence_ids risk_evidence_invalid ledger collector a.risk_evidence_ids

  unfoldable pub validate_opportunity : Option OpportunityAssessment → List RoleViolation
  unfolding one_if validate_evidence_ids is_blank
  validate_opportunity none = opportunity_assessment_missing ∷ []
  validate_opportunity (some a) =
      one_if (outside float_hundred a.opportunity_score) opportunity_score_invalid
      ++ one_if (is_blank a.time_window) time_window_detail_missing
      ++ one_if (is_blank a.opportunity_cost) opportunity_cost_detail_missing
      ++ one_if (require_evidence && is_empty a.user_signal_evidence_ids)
          user_signal_evidence_missing
      ++ validate_evidence_ids user_signal_evidence_invalid ledger collector
          a.user_signal_evidence_ids

  -- The switch on the required assessment.
  unfoldable pub validate_required : RequiredAssessment → RoleAssessment → List RoleViolation
  unfolding validate_technical validate_risk validate_opportunity
  validate_required technical_assessment a = validate_technical a.technical
  validate_required risk_assessment a = validate_risk a.risk
  validate_required opportunity_assessment a = validate_opportunity a.opportunity
  validate_required (unknown_assessment text) a = unknown_role_assessment text ∷ []

abbrev pub role_assessment_of : Option EvidenceSummary → Option RoleAssessment
role_assessment_of none = none
role_assessment_of (some summary) = summary.role_assessment

-- `ValidateRoleAssessment`
unfoldable pub validate_role_assessment :
    Option EvidenceSummary
    → Option EvidenceLedger
    → RolePolicy
    → ObjectiveFunction
    → String
    → Bool
    → List RoleViolation
unfolding validate_dimension_assessments validate_required has_records
validate_role_assessment summary ledger policy objective collector has_tools =
    if policy.enforce_assessment
    then elim (role_assessment_of summary) [
      | none ↦ role_assessment_missing ∷ []
      | some a ↦
          validate_dimension_assessments ledger collector (has_tools && has_records ledger)
            a.dimension_assessments objective
          ++ validate_required ledger collector (has_tools && has_records ledger)
              policy.required_assessment a
    ]
    else []
