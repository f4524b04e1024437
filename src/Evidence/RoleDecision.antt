-- ===== src/Evidence/RoleDecision.antt =====
-- backend/domain/evidence/role_decision.go: an approval must agree with the role's own assessment. An
-- error is a constructor with what its text prints; `none` is the nil error. Sums and products are
-- those of the hardware, a parameter.
pub mod Laws
use magi_system.Prelude.{
  String, Float64, FloatOps, Bool, true, false, not, ◌&&◌, ◌||◌, Option, none, some, List, [], ◌∷◌,
  if◌then◌else◌, lt_float, eq_float, float_zero,
}
use magi_system.Prelude.Dict.{lookup, insert}
use magi_system.Entity.Vote.{
  MagiCode, Vote, UtilityDimensionScore, approve, conditional_approve, decision_eq,
}
use magi_system.Entity.Evidence.{
  EvidenceSummary, RoleAssessment, TechnicalAssessment, RiskAssessment, OpportunityAssessment,
}
use magi_system.Entity.Config.{
  ObjectiveFunction, UtilityDimension, RolePolicy, RequiredAssessment, technical_assessment,
  risk_assessment, opportunity_assessment, unknown_assessment,
}
use magi_system.Evidence.RoleGate.{role_assessment_of}

pub data RoleDecisionError : Type 0 where
  no_role_assessment no_feasibility_score no_residual_risk no_opportunity_score :
      MagiCode → RoleDecisionError
  missing_utility_score : String → RoleDecisionError
  no_positive_weight : RoleDecisionError
  -- The value and its threshold.
  utility_below feasibility_below residual_risk_above opportunity_below :
      Float64 → Float64 → RoleDecisionError

-- The two results of `weightedUtilityScore`, of which exactly one counts.
pub data Weighed : Type 0 where
  weighed : Float64 → Weighed
  not_weighed : RoleDecisionError → Weighed

-- `scores[score.DimensionCode] = score.Score`
score_map : List UtilityDimensionScore → List (String × Float64) → List (String × Float64)
unfolding insert
score_map [] scores = scores
score_map (s ∷ ss) scores = score_map ss (insert s.dimension_code s.score scores)

abbrev pub is_approving : Vote → Bool
is_approving vote =
    decision_eq vote.decision approve || decision_eq vote.decision conditional_approve

-- `x <= 0` of the language.
not_positive : Float64 → Bool
unfolding lt_float eq_float
not_positive x = lt_float x float_zero || eq_float x float_zero

module _ (ops : FloatOps) where
  open ops use {add, mul, div}

  weigh : List (String × Float64) → List UtilityDimension → Float64 → Float64 → Weighed
  unfolding lookup not_positive
  weigh scores [] total weight =
      if not_positive weight then not_weighed no_positive_weight else weighed (div total weight)
  weigh scores (d ∷ dimensions) total weight = elim (lookup d.code scores) [
    | none ↦ not_weighed (missing_utility_score d.code)
    | some score ↦ weigh scores dimensions (add total (mul score d.weight)) (add weight d.weight)
  ]

  -- `weightedUtilityScore`
  unfoldable pub weighted_utility_score : Vote → ObjectiveFunction → Weighed
  unfolding score_map weigh
  weighted_utility_score vote objective =
      weigh (score_map vote.utility_scores []) objective.dimensions float_zero float_zero

  unfoldable pub check_utility : Vote → RolePolicy → ObjectiveFunction → Option RoleDecisionError
  unfolding weighted_utility_score
  check_utility vote policy objective =
      if lt_float float_zero policy.min_weighted_utility_score
      then elim (weighted_utility_score vote objective) [
        | not_weighed e ↦ some e
        | weighed w ↦
            if lt_float w policy.min_weighted_utility_score
            then some (utility_below w policy.min_weighted_utility_score)
            else none
      ]
      else none

abbrev pub feasibility_of : RoleAssessment → Option Float64
feasibility_of a = elim (a.technical) [ none ↦ none | some t ↦ t.feasibility_score ]

abbrev pub residual_risk_of : RoleAssessment → Option Float64
residual_risk_of a = elim (a.risk) [ none ↦ none | some r ↦ r.residual_risk ]

abbrev pub opportunity_of : RoleAssessment → Option Float64
opportunity_of a = elim (a.opportunity) [ none ↦ none | some o ↦ o.opportunity_score ]

-- The switch on the required assessment.
check_threshold : RequiredAssessment → RolePolicy → RoleAssessment → Option RoleDecisionError
check_threshold technical_assessment policy a = elim (feasibility_of a) [
  | none ↦ some (no_feasibility_score policy.role)
  | some score ↦
      if lt_float score policy.min_technical_score
      then some (feasibility_below score policy.min_technical_score)
      else none
]
check_threshold risk_assessment policy a = elim (residual_risk_of a) [
  | none ↦ some (no_residual_risk policy.role)
  | some risk ↦
      if lt_float policy.max_residual_risk risk
      then some (residual_risk_above risk policy.max_residual_risk)
      else none
]
check_threshold opportunity_assessment policy a = elim (opportunity_of a) [
  | none ↦ some (no_opportunity_score policy.role)
  | some score ↦
      if lt_float score policy.min_opportunity_score
      then some (opportunity_below score policy.min_opportunity_score)
      else none
]
check_threshold (unknown_assessment text) policy a = none

check_approval :
    FloatOps → Vote → RoleAssessment → RolePolicy → ObjectiveFunction → Option RoleDecisionError
unfolding check_utility check_threshold
check_approval ops vote a policy objective = elim (check_utility ops vote policy objective) [
  | some e ↦ some e
  | none ↦ check_threshold policy.required_assessment policy a
]

-- `ValidateRoleDecision`
unfoldable pub validate_role_decision :
    FloatOps
    → Option Vote
    → Option EvidenceSummary
    → RolePolicy
    → ObjectiveFunction
    → Option RoleDecisionError
unfolding decision_eq check_approval
validate_role_decision ops none summary policy objective = none
validate_role_decision ops (some vote) summary policy objective =
    if policy.enforce_assessment && is_approving vote
    then elim (role_assessment_of summary) [
      | none ↦ some (no_role_assessment policy.role)
      | some a ↦ check_approval ops vote a policy objective
    ]
    else none
