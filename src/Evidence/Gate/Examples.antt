-- ===== src/Evidence/Gate/Examples.antt =====
-- The sample summary at the gates.
use magi_system.Prelude.{true, false, some, none, [], ◌≡◌, refl, ◌↔◌, is_empty, ◌&&◌, lt_float}
use magi_system.Prelude.Dict.{insert}
use magi_system.Entity.Vote.{decision_eq}
use magi_system.Entity.Config.{default_role_policy}
use magi_system.Evidence.Ledger.{record_evidence, new_evidence_ledger, evidence_id}
use magi_system.Evidence.Gate.{evaluate, ids_from}
use magi_system.Evidence.Gate.Rules.{default_rule_registry}
use magi_system.Evidence.Gate.Laws.{Admissible, evaluate-Admissible}
use magi_system.Evidence.RoleGate.{validate_role_assessment, has_records}
use magi_system.Evidence.RoleGate.Laws.{Investigated, validate_role_assessment-Investigated}
use magi_system.Evidence.RoleDecision.{validate_role_decision}
use magi_system.Evidence.RoleDecision.Laws.{Entitled, validate_role_decision-Entitled}
use magi_system.Samples.Assessments.{
  bit_ops, one_record, summary, standard, objective, policy, scored_approval,
}

evaluate-Admissible_example :
    (((evaluate one_record standard "BALTHASAR"
          (default_rule_registry (λ s. s))
          (some summary)).passed
        ≡ true)
      ↔ Admissible one_record standard "BALTHASAR" (default_rule_registry (λ s. s)) summary)
    × ((evaluate one_record standard "BALTHASAR"
          (default_rule_registry (λ s. s))
          (some summary)).passed
        ≡ is_empty
            (evaluate one_record standard "BALTHASAR"
              (default_rule_registry (λ s. s))
              (some summary)).violations)
evaluate-Admissible_example =
    evaluate-Admissible one_record standard "BALTHASAR" (default_rule_registry (λ s. s)) summary

-- The sample passes.
evaluate_sample :
    (evaluate one_record standard "BALTHASAR"
      (default_rule_registry (λ s. s))
      (some summary)).passed
    ≡ true
unfolding evaluate record_evidence new_evidence_ledger default_rule_registry insert evidence_id
    ids_from lt_float
evaluate_sample = refl

-- Another collector's evidence does not count.
evaluate_foreign :
    (evaluate one_record standard "CASPER" (default_rule_registry (λ s. s)) (some summary)).passed
    ≡ false
unfolding evaluate record_evidence new_evidence_ledger default_rule_registry insert evidence_id
    ids_from lt_float
evaluate_foreign = refl

validate_role_assessment_sample :
    validate_role_assessment (some summary) (some one_record) policy objective "BALTHASAR" true ≡ []
unfolding validate_role_assessment record_evidence new_evidence_ledger default_role_policy lt_float
    evidence_id
validate_role_assessment_sample = refl

validate_role_assessment-Investigated_example :
    (validate_role_assessment (some summary) (some one_record) policy objective "BALTHASAR" true
      ≡ [])
    ↔ Investigated
        (some summary)
        (some one_record)
        policy
        objective
        "BALTHASAR"
        (true && has_records (some one_record))
validate_role_assessment-Investigated_example =
    validate_role_assessment-Investigated (some summary) (some one_record) policy objective
      "BALTHASAR" true (unfold default_role_policy in refl)

validate_role_decision-Entitled_example :
    (validate_role_decision bit_ops (some scored_approval) (some summary) policy objective ≡ none)
    ↔ Entitled bit_ops scored_approval (some summary) policy objective
validate_role_decision-Entitled_example =
    validate_role_decision-Entitled bit_ops scored_approval (some summary) policy objective
      (unfold default_role_policy in refl) (unfold decision_eq in refl)
