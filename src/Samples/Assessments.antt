-- ===== src/Samples/Assessments.antt =====
-- Test data: a ledger of one record, with a summary, a standard, a role assessment and an objective.
use Prim.Native.Nat.{◌+◌, ◌*◌, ◌/◌}
use magi_system.Prelude.{pos, true, none, some, [], ◌∷◌, FloatOps, float_zero, float_one}
use magi_system.Entity.Vote.{Vote, balthasar}
use magi_system.Entity.Evidence.{EvidenceSummary, RoleAssessment}
use magi_system.Entity.Config.{
  EvidenceStandard, ObjectiveFunction, RolePolicy, default_role_policy, float_sixty,
}
use magi_system.Evidence.Ledger.{EvidenceLedger, new_evidence_ledger, record_evidence}
use magi_system.Samples.{observed, approval}

-- Integer arithmetic on the bit patterns stands in for the hardware's.
abbrev pub bit_ops : FloatOps
bit_ops = record {
  add = λ a b. record { bits = a.bits + b.bits };
  mul = λ a b. record { bits = a.bits * b.bits };
  div = λ a b. record { bits = a.bits / b.bits };
  of_int = λ n. record { bits = n };
}

abbrev pub one_record : EvidenceLedger
one_record = (record_evidence (new_evidence_ledger "case-1" "run-1" "BALTHASAR") observed).0

abbrev pub objective : ObjectiveFunction
objective = record {
  dimensions =
      record { code = "safety"; description = "what may go wrong"; weight = float_one } ∷ [];
}

abbrev pub role_assessment : RoleAssessment
role_assessment = record {
  dimension_assessments =
      record {
        dimension_code = "safety";
        score = some float_sixty;
        evidence_ids = "EV-001" ∷ [];
        reasoning = "seen";
      }
      ∷ [];
  technical = none;
  risk = some (record {
    worst_case = "loss of data";
    residual_risk = some float_zero;
    reversibility_score = some float_sixty;
    rollback_plan = "restore";
    risk_evidence_ids = "EV-001" ∷ [];
  });
  opportunity = none;
}

abbrev pub summary : EvidenceSummary
summary = record {
  evidence_by_type = ("quantitative", "EV-001" ∷ []) ∷ [];
  claims =
      record {
        statement = "the worst case is a loss of data";
        supports = "EV-001" ∷ [];
        contradicts = [];
      }
      ∷ [];
  role_assessment = some role_assessment;
  ready = true;
}

abbrev pub standard : EvidenceStandard
standard = record {
  min_evidence_count = pos 1;
  min_quantitative_count = pos 1;
  min_reliability = float_zero;
  require_own_collected = true;
  required_types = [];
  required_claim_count = pos 1;
  custom_rules = record { code = "worst_case_claim_required"; expr = "" } ∷ [];
}

abbrev pub policy : RolePolicy
policy = default_role_policy balthasar

abbrev pub scored_approval : Vote
scored_approval = record approval {
  utility_scores =
      record {
        dimension_code = "safety";
        score = float_sixty;
        evidence_ids = [];
        claim_ids = [];
        reasoning = "";
      }
      ∷ [];
}
