-- ===== src/Evidence/Examples.antt =====
-- A ledger with two records and a claim, a score, and a long URI.
use magi_system.Prelude.{
  false, none, some, [], ◌∷◌, ◌++◌, ◌≡◌, if◌then◌else◌, str_eq, lt_float, float_zero, float_one,
}
use magi_system.Evidence.Reliability.{
  ReliabilityInput, local, compute_reliability, recompute_final, compute_reliability-bounds,
}
use magi_system.Evidence.Ledger.{
  EvidenceLedger, new_evidence_ledger, record_evidence, record_claim, recompute_corroboration, get,
  list,
}
use magi_system.Evidence.Ledger.Invariant.{
  IsValid, new_evidence_ledger-IsValid, record_evidence-IsValid, record_claim-IsValid,
  recompute_corroboration-IsValid, get-record_evidence,
}
use magi_system.Samples.{observed}
use magi_system.Samples.Assessments.{bit_ops}

abbrev scored : ReliabilityInput
scored = record {
  source_type = local;
  explicit_reliability = none;
  directness = float_one;
  recency = float_zero;
  corroboration_count = 2;
  extraction_confidence = float_zero;
}

compute_reliability-bounds_example :
    (lt_float (compute_reliability bit_ops scored).final float_zero ≡ false)
    × (lt_float float_one (compute_reliability bit_ops scored).final ≡ false)
    × (lt_float float_one (compute_reliability bit_ops scored).corroboration ≡ false)
    × (recompute_final bit_ops (compute_reliability bit_ops scored)
        ≡ compute_reliability bit_ops scored)
compute_reliability-bounds_example = compute_reliability-bounds bit_ops scored

abbrev empty_ledger : EvidenceLedger
empty_ledger = new_evidence_ledger "case-1" "run-1" "MELCHIOR"

empty_ledger-IsValid : IsValid empty_ledger
empty_ledger-IsValid = new_evidence_ledger-IsValid "case-1" "run-1" "MELCHIOR"

abbrev one_record : EvidenceLedger
one_record = (record_evidence empty_ledger observed).0

record_evidence-IsValid_example : IsValid one_record
record_evidence-IsValid_example =
    record_evidence-IsValid {l = empty_ledger} observed empty_ledger-IsValid

record_claim-IsValid_example : IsValid (record_claim empty_ledger "it is so" ("EV-001" ∷ []) []).0
record_claim-IsValid_example =
    record_claim-IsValid {l = empty_ledger} "it is so" ("EV-001" ∷ []) [] empty_ledger-IsValid

recompute_corroboration-IsValid_example : IsValid (
    recompute_corroboration bit_ops one_record
      (record { statement = "it is so"; supports = "EV-001" ∷ []; contradicts = [] } ∷ []))
recompute_corroboration-IsValid_example =
    recompute_corroboration-IsValid bit_ops one_record
      (record { statement = "it is so"; supports = "EV-001" ∷ []; contradicts = [] } ∷ [])
      (record_evidence-IsValid {l = empty_ledger} observed empty_ledger-IsValid)

get-record_evidence_example :
    (get empty_ledger (record_evidence empty_ledger observed).1.id ≡ none)
    × (get one_record "EV-001" ≡ (
        if str_eq (record_evidence empty_ledger observed).1.id "EV-001"
        then some (record_evidence empty_ledger observed).1
        else get empty_ledger "EV-001"))
    × (list one_record ≡ list empty_ledger ++ (record_evidence empty_ledger observed).1 ∷ [])
get-record_evidence_example =
    get-record_evidence {l = empty_ledger} observed "EV-001" empty_ledger-IsValid
