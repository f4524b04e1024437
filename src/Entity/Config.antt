-- ===== src/Entity/Config.antt =====
-- The parts of an agent's configuration that the gates read: backend/domain/entity/config.go (the
-- objective, the evidence standard) and role.go (the role policy).
use magi_system.Prelude.{ℤ, Float64, float_zero, String, Bool, true, false, List}
use magi_system.Entity.Vote.{MagiCode, melchior, balthasar, casper}

pub record UtilityDimension : Type 0 where
  pub code : String
  pub description : String
  pub weight : Float64

pub record ObjectiveFunction : Type 0 where
  pub dimensions : List UtilityDimension

pub record EvidenceTypeRequirement : Type 0 where
  pub type_name : String
  pub min_count : ℤ

-- The expression is never read.
pub record EvidenceRule : Type 0 where
  pub code : String
  pub expr : String

-- The legacy field `RequiredEvidenceTypes` is left out.
pub record EvidenceStandard : Type 0 where
  pub min_evidence_count : ℤ
  pub min_quantitative_count : ℤ
  pub min_reliability : Float64
  pub require_own_collected : Bool
  pub required_types : List EvidenceTypeRequirement
  pub required_claim_count : ℤ
  pub custom_rules : List EvidenceRule

-- The three constants, and every other text.
pub data RequiredAssessment : Type 0 where
  technical_assessment risk_assessment opportunity_assessment : RequiredAssessment
  unknown_assessment : String → RequiredAssessment

-- The debate directive, a text for the prompt, is left out.
pub record RolePolicy : Type 0 where
  pub role : MagiCode
  pub enforce_assessment : Bool
  pub required_assessment : RequiredAssessment
  pub max_residual_risk : Float64
  pub min_technical_score : Float64
  pub min_opportunity_score : Float64
  pub min_weighted_utility_score : Float64

-- 60 and 0.35
abbrev pub float_sixty : Float64
float_sixty = record { bits = 0x404e000000000000 }

abbrev pub residual_risk_limit : Float64
residual_risk_limit = record { bits = 0x3fd6666666666666 }

abbrev generic_policy : MagiCode → RolePolicy
generic_policy role = record {
  role = role;
  enforce_assessment = false;
  required_assessment = unknown_assessment "";
  max_residual_risk = float_zero;
  min_technical_score = float_zero;
  min_opportunity_score = float_zero;
  min_weighted_utility_score = float_zero;
}

abbrev enforced : MagiCode → RequiredAssessment → RolePolicy
enforced role required = record (generic_policy role) {
  enforce_assessment = true;
  required_assessment = required;
  min_weighted_utility_score = float_sixty;
}

-- `DefaultRolePolicy`
unfoldable pub default_role_policy : MagiCode → RolePolicy
default_role_policy melchior = record (enforced melchior technical_assessment) {
  min_technical_score = float_sixty;
}
default_role_policy balthasar = record (enforced balthasar risk_assessment) {
  max_residual_risk = residual_risk_limit;
}
default_role_policy casper = record (enforced casper opportunity_assessment) {
  min_opportunity_score = float_sixty;
}
default_role_policy code = generic_policy code
