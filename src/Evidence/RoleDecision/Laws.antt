-- ===== src/Evidence/RoleDecision/Laws.antt =====
-- What an approval that the role's decision boundary lets through rests on.
use magi_system.Prelude.{
  Float64, FloatOps, Bool, true, false, refl, if◌then◌else◌, Option, none, some, ◌≡◌, ◌↔◌, ◌⊎◌,
  arith, lt_float, float_zero, Bool-cases, Option-cases, inl, inr,
}
use mathlib.Core.Path.{subst}
use magi_system.Entity.Vote.{Vote}
use magi_system.Entity.Evidence.{EvidenceSummary, RoleAssessment}
use magi_system.Entity.Config.{
  ObjectiveFunction, RolePolicy, RequiredAssessment, technical_assessment, risk_assessment,
  opportunity_assessment, unknown_assessment,
}
use magi_system.Evidence.RoleGate.{role_assessment_of}
use magi_system.Evidence.RoleDecision.{
  validate_role_decision, check_utility, check_threshold, check_approval, is_approving,
  weighted_utility_score, Weighed, weighed, not_weighed, RoleDecisionError, feasibility_of,
  residual_risk_of, opportunity_of,
}

-- The score that the role must give itself, within the policy's threshold.
abbrev pub Reaches : RequiredAssessment → RolePolicy → RoleAssessment → Type 0
Reaches technical_assessment policy a =
    (score : Float64) × (feasibility_of a ≡ some score)
    × (lt_float score policy.min_technical_score ≡ false)
Reaches risk_assessment policy a =
    (risk : Float64) × (residual_risk_of a ≡ some risk)
    × (lt_float policy.max_residual_risk risk ≡ false)
Reaches opportunity_assessment policy a =
    (score : Float64) × (opportunity_of a ≡ some score)
    × (lt_float score policy.min_opportunity_score ≡ false)
Reaches (unknown_assessment text) policy a = Unit

weighed_or :
    (w : Weighed)
    → ((x : Float64) × (w ≡ weighed x)) ⊎ ((e : RoleDecisionError) × (w ≡ not_weighed e))
weighed_or (weighed x) = inl (x, refl)
weighed_or (not_weighed e) = inr (e, refl)

-- A test of a value that must be there.
tested {ℓ κ} :
    {A : Type ℓ} {E : Type κ} (o : Option A) (bad : A → Bool) (missing : E) (e : A → E)
    → ((elim o as (λ _. Option E) [
      | none ↦ some missing
      | some a ↦ if bad a then some (e a) else none
    ])
        ≡ none)
      ↔ ((a : A) × (o ≡ some a) × (bad a ≡ false))
tested none bad missing e = (λ h. absurd (ground arith), λ (a, h, _). absurd (ground arith))
tested (some a) bad missing e = (λ h. (a, refl, ground arith), λ (b, h, ok). ground arith)

check_threshold-none :
    (required : RequiredAssessment) (policy : RolePolicy) (a : RoleAssessment)
    → (check_threshold required policy a ≡ none) ↔ Reaches required policy a
unfolding check_threshold
check_threshold-none technical_assessment policy a =
    tested (feasibility_of a) (λ s. lt_float s policy.min_technical_score) _ _
check_threshold-none risk_assessment policy a =
    tested (residual_risk_of a) (λ r. lt_float policy.max_residual_risk r) _ _
check_threshold-none opportunity_assessment policy a =
    tested (opportunity_of a) (λ s. lt_float s policy.min_opportunity_score) _ _
check_threshold-none (unknown_assessment text) policy a = ground arith

-- What an approval under an enforced policy rests on: the agent's own assessment, a weighted utility
-- that is not below a positive threshold, and the score of its role.
pub record Entitled (ops : FloatOps) (vote : Vote) (summary : Option EvidenceSummary)
    (policy : RolePolicy) (objective : ObjectiveFunction) : Type 0 where
  pub assessment : RoleAssessment
  pub given : role_assessment_of summary ≡ some assessment
  pub useful :
      (lt_float float_zero policy.min_weighted_utility_score ≡ false)
      ⊎ ((w : Float64) × (weighted_utility_score ops vote objective ≡ weighed w)
          × (lt_float w policy.min_weighted_utility_score ≡ false))
  pub reaches : Reaches policy.required_assessment policy assessment

check_utility-none :
    (ops : FloatOps) (vote : Vote) (policy : RolePolicy) (objective : ObjectiveFunction)
    → (check_utility ops vote policy objective ≡ none) ↔ (
        (lt_float float_zero policy.min_weighted_utility_score ≡ false)
        ⊎ ((w : Float64) × (weighted_utility_score ops vote objective ≡ weighed w)
            × (lt_float w policy.min_weighted_utility_score ≡ false)))
unfolding check_utility
check_utility-none ops vote policy objective =
    elim (Bool-cases (lt_float float_zero policy.min_weighted_utility_score)) [
      | inr e ↦ (λ h. inl e, λ h. ground arith)
      | inl e ↦ elim (weighed_or (weighted_utility_score ops vote objective)) [
        | inl (w, q) ↦ (λ h. inr (w, q, ground arith), λ h. ground arith)
        | inr (f, q) ↦ (λ h. absurd (ground arith), λ h. absurd (ground arith))
      ]
    ]

-- With an enforced policy, an approval or conditional approval is let through exactly if the agent
-- gave its role assessment, the weighted utility of the vote exists and is not below the policy's
-- threshold, where that is positive, and the score of its role is given and within the policy's
-- limit.
pub validate_role_decision-Entitled :
    (ops : FloatOps) (vote : Vote) (summary : Option EvidenceSummary) (policy : RolePolicy)
    (objective : ObjectiveFunction)
    → policy.enforce_assessment ≡ true
    → is_approving vote ≡ true
    → (validate_role_decision ops (some vote) summary policy objective ≡ none)
      ↔ Entitled ops vote summary policy objective
unfolding validate_role_decision check_approval
validate_role_decision-Entitled ops vote summary policy objective enforced approving =
    elim (Option-cases (role_assessment_of summary)) [
      | inl e ↦ (λ h. absurd (ground arith), λ t. absurd (let g = t.given in ground arith))
      | inr (a, e) ↦
          let useful = check_utility-none ops vote policy objective in
          let reaches = check_threshold-none policy.required_assessment policy a in
          (
            λ h. record {
              assessment = a;
              given = e;
              useful = useful.0 (ground arith);
              reaches = reaches.0 (ground arith);
            },
            λ t.
                let u = useful.1 t.useful in
                let same : t.assessment ≡ a = (let g = t.given in ground arith) in
                let r =
                  reaches.1
                    (subst (λ x. Reaches policy.required_assessment policy x) same t.reaches) in
                ground arith,
          )
    ]
