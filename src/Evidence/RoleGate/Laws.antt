-- ===== src/Evidence/RoleGate/Laws.antt =====
-- What a role assessment without violations contains.
use magi_system.Prelude.{
  String, Bool, true, false, ◌&&◌, Option, none, some, List, [], ◌≡◌, ◌↔◌, arith, is_empty,
  float_one, float_hundred, Option-cases, inl, inr,
}
use mathlib.Core.Path.{subst}
use magi_system.Prelude.Texts.{is_blank}
use magi_system.Entity.Evidence.{
  EvidenceSummary, RoleAssessment, TechnicalAssessment, RiskAssessment, OpportunityAssessment,
}
use magi_system.Entity.Config.{
  ObjectiveFunction, RolePolicy, RequiredAssessment, technical_assessment, risk_assessment,
  opportunity_assessment, unknown_assessment,
}
use magi_system.Evidence.Ledger.{EvidenceLedger}
use magi_system.Evidence.RoleGate.{
  outside, has_records, validate_role_assessment, role_assessment_of, validate_required,
  validate_technical, validate_risk, validate_opportunity, feasibility_score_invalid,
  technical_assumptions_missing, quantitative_evidence_missing, quantitative_evidence_invalid,
  worst_case_detail_missing, rollback_plan_missing, residual_risk_invalid,
  reversibility_score_invalid, risk_evidence_missing, risk_evidence_invalid,
  opportunity_score_invalid, time_window_detail_missing, opportunity_cost_detail_missing,
  user_signal_evidence_missing, user_signal_evidence_invalid,
}
use magi_system.Evidence.RoleGate.Dimensions.{
  join, one_if_empty, Own, validate_evidence_ids_empty, Covers,
  validate_dimension_assessments_empty,
}

module _ (ledger : Option EvidenceLedger) (collector : String) (require_evidence : Bool) where
  -- Evidence of the agent's own, at least one id where evidence is required.
  pub record Backed (ids : List String) : Type 0 where
    pub cited : (require_evidence && is_empty ids) ≡ false
    pub own : Own ledger collector ids

  pub record IsTechnical (a : TechnicalAssessment) : Type 0 where
    pub feasible : outside float_hundred a.feasibility_score ≡ false
    pub assumed : is_empty a.assumptions ≡ false
    pub backed : Backed a.quantitative_evidence_ids

  pub record IsRisk (a : RiskAssessment) : Type 0 where
    pub worst_case : is_blank a.worst_case ≡ false
    pub rollback : is_blank a.rollback_plan ≡ false
    pub residual : outside float_one a.residual_risk ≡ false
    pub reversible : outside float_hundred a.reversibility_score ≡ false
    pub backed : Backed a.risk_evidence_ids

  pub record IsOpportunity (a : OpportunityAssessment) : Type 0 where
    pub score : outside float_hundred a.opportunity_score ≡ false
    pub window : is_blank a.time_window ≡ false
    pub cost : is_blank a.opportunity_cost ≡ false
    pub backed : Backed a.user_signal_evidence_ids

  validate_technical_empty :
      (a : TechnicalAssessment)
      → (validate_technical ledger collector require_evidence (some a) ≡ []) ↔ IsTechnical a
  unfolding validate_technical
  validate_technical_empty a =
      let checks =
        join
          (join
            (join
              (one_if_empty (outside float_hundred a.feasibility_score) feasibility_score_invalid)
              (one_if_empty (is_empty a.assumptions) technical_assumptions_missing))
            (one_if_empty (require_evidence && is_empty a.quantitative_evidence_ids)
              quantitative_evidence_missing))
          (validate_evidence_ids_empty ledger collector quantitative_evidence_invalid
            a.quantitative_evidence_ids) in
      (
        λ h.
            let (((feasible, assumed), cited), own) = checks.0 h in
            record {
              feasible = feasible;
              assumed = assumed;
              backed = record { cited = cited; own = own };
            },
        λ t. checks.1 (((t.feasible, t.assumed), t.backed.cited), t.backed.own),
      )

  validate_risk_empty :
      (a : RiskAssessment)
      → (validate_risk ledger collector require_evidence (some a) ≡ []) ↔ IsRisk a
  unfolding validate_risk
  validate_risk_empty a =
      let checks =
        join
          (join
            (join
              (join
                (join (one_if_empty (is_blank a.worst_case) worst_case_detail_missing)
                  (one_if_empty (is_blank a.rollback_plan) rollback_plan_missing))
                (one_if_empty (outside float_one a.residual_risk) residual_risk_invalid))
              (one_if_empty (outside float_hundred a.reversibility_score)
                reversibility_score_invalid))
            (one_if_empty (require_evidence && is_empty a.risk_evidence_ids) risk_evidence_missing))
          (validate_evidence_ids_empty ledger collector risk_evidence_invalid
            a.risk_evidence_ids) in
      (
        λ h.
            let (((((worst, rollback), residual), reversible), cited), own) = checks.0 h in
            record {
              worst_case = worst;
              rollback = rollback;
              residual = residual;
              reversible = reversible;
              backed = record { cited = cited; own = own };
            },
        λ r. checks.1 (
          ((((r.worst_case, r.rollback), r.residual), r.reversible), r.backed.cited),
          r.backed.own,
        ),
      )

  validate_opportunity_empty :
      (a : OpportunityAssessment)
      → (validate_opportunity ledger collector require_evidence (some a) ≡ []) ↔ IsOpportunity a
  unfolding validate_opportunity
  validate_opportunity_empty a =
      let checks =
        join
          (join
            (join
              (join
                (one_if_empty (outside float_hundred a.opportunity_score) opportunity_score_invalid)
                (one_if_empty (is_blank a.time_window) time_window_detail_missing))
              (one_if_empty (is_blank a.opportunity_cost) opportunity_cost_detail_missing))
            (one_if_empty (require_evidence && is_empty a.user_signal_evidence_ids)
              user_signal_evidence_missing))
          (validate_evidence_ids_empty ledger collector user_signal_evidence_invalid
            a.user_signal_evidence_ids) in
      (
        λ h.
            let ((((score, window), cost), cited), own) = checks.0 h in
            record {
              score = score;
              window = window;
              cost = cost;
              backed = record { cited = cited; own = own };
            },
        λ o. checks.1 ((((o.score, o.window), o.cost), o.backed.cited), o.backed.own),
      )

  -- A part that is given and in order.
  abbrev pub Given {ℓ} : {A : Type ℓ} → (A → Type 0) → Option A → Type 0
  Given P none = ⊥
  Given P (some a) = P a

  -- The part that the role requires.
  abbrev pub Required : RequiredAssessment → RoleAssessment → Type 0
  Required technical_assessment a = Given IsTechnical a.technical
  Required risk_assessment a = Given IsRisk a.risk
  Required opportunity_assessment a = Given IsOpportunity a.opportunity
  Required (unknown_assessment text) a = ⊥

  validate_required_empty :
      (required : RequiredAssessment) (a : RoleAssessment)
      → (validate_required ledger collector require_evidence required a ≡ []) ↔ Required required a
  unfolding validate_required
  validate_required_empty technical_assessment a = of_technical a.technical
    where
      of_technical :
          (o : Option TechnicalAssessment)
          → (validate_technical ledger collector require_evidence o ≡ []) ↔ Given IsTechnical o
      of_technical none = unfold validate_technical in ground arith
      of_technical (some t) = validate_technical_empty t
  validate_required_empty risk_assessment a = of_risk a.risk
    where
      of_risk :
          (o : Option RiskAssessment)
          → (validate_risk ledger collector require_evidence o ≡ []) ↔ Given IsRisk o
      of_risk none = unfold validate_risk in ground arith
      of_risk (some r) = validate_risk_empty r
  validate_required_empty opportunity_assessment a = of_opportunity a.opportunity
    where
      of_opportunity :
          (o : Option OpportunityAssessment)
          → (validate_opportunity ledger collector require_evidence o ≡ []) ↔ Given IsOpportunity o
      of_opportunity none = unfold validate_opportunity in ground arith
      of_opportunity (some o) = validate_opportunity_empty o
  validate_required_empty (unknown_assessment text) a = ground arith

-- What a summary must contain under an enforced policy.
pub record Investigated (summary : Option EvidenceSummary) (ledger : Option EvidenceLedger)
    (policy : RolePolicy) (objective : ObjectiveFunction) (collector : String)
    (require_evidence : Bool) : Type 0 where
  pub assessment : RoleAssessment
  pub given : role_assessment_of summary ≡ some assessment
  pub covers : Covers ledger collector require_evidence assessment.dimension_assessments objective
  pub required : Required ledger collector require_evidence policy.required_assessment assessment

-- Under an enforced policy the role gate reports nothing exactly if the summary has a role assessment
-- that assesses every dimension of the objective once, soundly, and no other dimension, and that has
-- the part the role requires, complete and with its scores in range. Where tools are available and
-- the ledger has records, each of these parts cites evidence, and all of it is the collector's own.
pub validate_role_assessment-Investigated :
    (summary : Option EvidenceSummary) (ledger : Option EvidenceLedger) (policy : RolePolicy)
    (objective : ObjectiveFunction) (collector : String) (has_tools : Bool)
    → policy.enforce_assessment ≡ true
    → (validate_role_assessment summary ledger policy objective collector has_tools ≡ [])
      ↔ Investigated summary ledger policy objective collector (has_tools && has_records ledger)
unfolding validate_role_assessment
validate_role_assessment-Investigated summary ledger policy objective collector has_tools enforced =
    elim (Option-cases (role_assessment_of summary)) [
      | inl e ↦ (λ h. absurd (ground arith), λ t. absurd (let g = t.given in ground arith))
      | inr (a, e) ↦
          let need = has_tools && has_records ledger in
          let checks =
            join
              (validate_dimension_assessments_empty ledger collector need a.dimension_assessments
                objective)
              (validate_required_empty ledger collector need policy.required_assessment a) in
          (
            λ h.
                let (covers, required) = checks.0 (ground arith) in
                record { assessment = a; given = e; covers = covers; required = required },
            λ t.
                let same : t.assessment ≡ a = (let g = t.given in ground arith) in
                let ok = checks.1 (
                  subst
                    (λ x.
                      Covers ledger collector need x.dimension_assessments objective
                      × Required ledger collector need policy.required_assessment x)
                    same (t.covers, t.required)) in
                ground arith,
          )
    ]
