-- ===== src/Evidence/Gate/Rules.antt =====
-- The six registered rules of backend/domain/evidence/gate.go. `strings.ToLower`, which needs the
-- tables of Unicode, is a parameter.
use magi_system.Prelude.{
  String, Bool, true, false, ◌&&◌, ◌||◌, Option, none, some, List, [], ◌∷◌, length, is_empty, leb,
  if◌then◌else◌,
}
use magi_system.Prelude.Texts.{contains}
use magi_system.Entity.Evidence.{EvidenceSummary, EvidenceSummaryClaim, EvidenceSourceType}
use magi_system.Evidence.Ledger.{EvidenceLedger, get, list}
use magi_system.Evidence.Gate.{
  GateViolation, worst_case_claim_missing, reversibility_missing, opportunity_cost_missing,
  time_window_missing, primary_source_missing, dimension_coverage_weak, RuleRegistry,
}

has_keyword : String → List String → Bool
unfolding contains
has_keyword text [] = false
has_keyword text (keyword ∷ keywords) = contains text keyword || has_keyword text keywords

abbrev is_primary : EvidenceSourceType → Bool
is_primary EvidenceSourceType.local = true
is_primary EvidenceSourceType.coderunner = true
is_primary _ = false

module _ (ledger : EvidenceLedger) where
  unfoldable pub primary_in : List String → Bool
  unfolding get
  primary_in [] = false
  primary_in (id ∷ ids) =
      let rest = primary_in ids in
      elim (get ledger id) [ none ↦ rest | some ev ↦ is_primary ev.source_type || rest ]

  unfoldable pub has_primary : List (String × List String) → Bool
  unfolding primary_in
  has_primary [] = false
  has_primary ((type_name, ids) ∷ entries) = primary_in ids || has_primary entries

unfoldable pub check_primary_source_required :
    EvidenceSummary → EvidenceLedger → String → Option GateViolation
unfolding list has_primary
check_primary_source_required summary ledger collector =
    if is_empty (list ledger) || has_primary ledger summary.evidence_by_type
    then none
    else some primary_source_missing

unfoldable pub check_utility_dimension_coverage :
    EvidenceSummary → EvidenceLedger → String → Option GateViolation
unfolding list
check_utility_dimension_coverage summary ledger collector =
    if is_empty (list ledger)
      || (leb 2 (length summary.claims) && leb 2 (length summary.evidence_by_type))
    then none
    else some dimension_coverage_weak

module _ (to_lower : String → String) where
  claim_contains_keyword : List EvidenceSummaryClaim → List String → Bool
  unfolding has_keyword
  claim_contains_keyword [] keywords = false
  claim_contains_keyword (c ∷ cs) keywords =
      has_keyword (to_lower c.statement) keywords || claim_contains_keyword cs keywords

  -- The violation, unless a claim has one of the keywords.
  keyword_rule : List String → GateViolation → EvidenceSummary → Option GateViolation
  unfolding claim_contains_keyword
  keyword_rule keywords violation summary =
      if claim_contains_keyword summary.claims keywords then none else some violation

  check_worst_case_claim_required : EvidenceSummary → EvidenceLedger → String → Option GateViolation
  unfolding keyword_rule
  check_worst_case_claim_required summary ledger collector =
      keyword_rule ("worst case" ∷ "worst-case" ∷ "最坏" ∷ "最差" ∷ "最糟" ∷ []) worst_case_claim_missing
        summary

  check_reversibility_assessment : EvidenceSummary → EvidenceLedger → String → Option GateViolation
  unfolding keyword_rule
  check_reversibility_assessment summary ledger collector =
      keyword_rule
        ("reversible" ∷ "reversibility" ∷ "rollback" ∷ "undo" ∷ "可逆" ∷ "回滚" ∷ "撤销" ∷ "恢复" ∷ [])
        reversibility_missing summary

  check_opportunity_cost_claim : EvidenceSummary → EvidenceLedger → String → Option GateViolation
  unfolding keyword_rule
  check_opportunity_cost_claim summary ledger collector =
      keyword_rule
        ("opportunity cost" ∷ "opportunity" ∷ "trade-off" ∷ "tradeoff" ∷ "机会成本" ∷ "机会" ∷ "机遇" ∷ "代价"
          ∷ "权衡" ∷ [])
        opportunity_cost_missing summary

  check_time_window_assessment : EvidenceSummary → EvidenceLedger → String → Option GateViolation
  unfolding keyword_rule
  check_time_window_assessment summary ledger collector =
      keyword_rule
        ("time window" ∷ "timing" ∷ "window of opportunity" ∷ "deadline" ∷ "时间窗" ∷ "时间" ∷ "时机"
          ∷ "窗口" ∷ "截止" ∷ [])
        time_window_missing summary

  unfoldable pub default_rule_registry : RuleRegistry
  unfolding check_worst_case_claim_required check_reversibility_assessment
      check_opportunity_cost_claim check_time_window_assessment check_primary_source_required
      check_utility_dimension_coverage
  default_rule_registry =
      ("worst_case_claim_required", check_worst_case_claim_required)
      ∷ ("reversibility_assessment", check_reversibility_assessment)
      ∷ ("opportunity_cost_claim", check_opportunity_cost_claim)
      ∷ ("time_window_assessment", check_time_window_assessment)
      ∷ ("primary_source_required", check_primary_source_required)
      ∷ ("utility_dimension_coverage", check_utility_dimension_coverage)
      ∷ []
