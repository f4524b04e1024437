-- ===== src/Evidence/Ledger.antt =====
-- backend/domain/evidence/ledger.go: the in-memory store of one run's evidence and claims.
-- `records` and `claims` are Go maps from ids; the two order slices list the ids as they came. The
-- mutex has no counterpart: every operation is one step. Time stamps are left out.
pub mod Ids
pub mod Invariant
pub mod Snapshot
use magi_system.Prelude.{
  ℕ, ◌+◌, pos, Float64, FloatOps, String, Bool, true, false, ◌&&◌, Option, none, some, List, [],
  ◌∷◌, ◌++◌, ◌≡◌, refl, arith, length, is_empty, ltb, ◌==◌, str_eq, if◌then◌else◌, decimal_3,
}
use magi_system.Prelude.Dict.{lookup, insert, member, keys}
use magi_system.Entity.Evidence.{
  EvidenceRecord, EvidenceSourceType, ReliabilityScore, Claim, open_claim, EvidenceSummaryClaim,
}
use magi_system.Evidence.SourceUri.{truncate_uri}
use magi_system.Evidence.Reliability.{corroboration_of, recompute_final}

pub record EvidenceLedger : Type 0 where
  pub records : List (String × EvidenceRecord)
  pub record_order : List String
  pub claims : List (String × Claim)
  pub claim_order : List String
  pub ev_counter : ℕ
  pub cl_counter : ℕ
  pub case_id : String
  pub agent_run_id : String
  pub collector : String

unfoldable pub new_evidence_ledger : String → String → String → EvidenceLedger
new_evidence_ledger case_id agent_run_id collector = record {
  records = [];
  record_order = [];
  claims = [];
  claim_order = [];
  ev_counter = 0;
  cl_counter = 0;
  case_id = case_id;
  agent_run_id = agent_run_id;
  collector = collector;
}

-- `EV-%03d` and `CL-%03d`
unfoldable pub evidence_id : ℕ → String
unfolding decimal_3
evidence_id n = String.◌∷◌ "E" (String.◌∷◌ "V" (String.◌∷◌ "-" (decimal_3 n)))

unfoldable pub claim_id : ℕ → String
unfolding decimal_3
claim_id n = String.◌∷◌ "C" (String.◌∷◌ "L" (String.◌∷◌ "-" (decimal_3 n)))

-- The arguments of `Record`.
pub record Observed : Type 0 where
  pub tool_call_id : String
  pub tool_name : String
  pub source_type : EvidenceSourceType
  pub source_uri : String
  pub observation : String
  pub reliability : ReliabilityScore

-- `Record`: the new ledger and the new record.
unfoldable pub record_evidence : EvidenceLedger → Observed → EvidenceLedger × EvidenceRecord
unfolding truncate_uri
record_evidence l o =
    let counter = l.ev_counter + 1 in
    let ev : EvidenceRecord = record {
      id = evidence_id counter;
      case_id = l.case_id;
      execution_generation = pos 0;
      agent_run_id = l.agent_run_id;
      tool_call_id = o.tool_call_id;
      tool_name = o.tool_name;
      source_type = o.source_type;
      source_uri = truncate_uri o.source_uri;
      raw_content = o.observation;
      observation = o.observation;
      reliability = o.reliability;
      collected_by = l.collector;
    } in
    (
      record l {
        ev_counter = counter;
        records = insert (evidence_id counter) ev l.records;
        record_order = l.record_order ++ evidence_id counter ∷ [];
      },
      ev,
    )

-- `RecordClaim`
unfoldable pub record_claim :
    EvidenceLedger → String → List String → List String → EvidenceLedger × Claim
record_claim l statement supports contradicts =
    let counter = l.cl_counter + 1 in
    let cl : Claim = record {
      id = claim_id counter;
      case_id = l.case_id;
      execution_generation = pos 0;
      agent_run_id = l.agent_run_id;
      statement = statement;
      supports = supports;
      contradicts = contradicts;
      status = open_claim;
      created_by = l.collector;
    } in
    (
      record l {
        cl_counter = counter;
        claims = insert (claim_id counter) cl l.claims;
        claim_order = l.claim_order ++ claim_id counter ∷ [];
      },
      cl,
    )

unfoldable pub get : EvidenceLedger → String → Option EvidenceRecord
unfolding lookup
get l id = lookup id l.records

unfoldable pub exists_collected : EvidenceLedger → String → String → Bool
unfolding lookup
exists_collected l id collector = elim (lookup id l.records) [
  | none ↦ false
  | some r ↦ if str_eq collector "" then true else str_eq r.collected_by collector
]

-- The final score, if the id is known.
unfoldable pub reliability : EvidenceLedger → String → Option Float64
unfolding lookup
reliability l id = elim (lookup id l.records) [ none ↦ none | some r ↦ some r.reliability.final ]

-- The values of a map at the listed ids. An id without an entry gives Go's nil pointer, which the
-- model leaves out; a valid ledger has none.
unfoldable pub values_at {ℓ} : {V : Type ℓ} → List (String × V) → List String → List V
unfolding lookup
values_at m [] = []
values_at m (id ∷ ids) =
    let rest = values_at m ids in elim (lookup id m) [ none ↦ rest | some v ↦ v ∷ rest ]

unfoldable pub list : EvidenceLedger → List EvidenceRecord
unfolding values_at
list l = values_at l.records l.record_order

unfoldable pub list_claims : EvidenceLedger → List Claim
unfolding values_at
list_claims l = values_at l.claims l.claim_order

-- How often an id is listed.
unfoldable pub occurrences : String → List String → ℕ
occurrences id [] = 0
occurrences id (j ∷ ids) = (if str_eq j id then 1 else 0) + occurrences id ids

-- `counts[id]` of `RecomputeCorroboration`.
unfoldable pub support_count : String → List (String × Claim) → List EvidenceSummaryClaim → ℕ
unfolding occurrences
support_count id [] [] = 0
support_count id [] (c ∷ cs) = occurrences id c.supports + support_count id [] cs
support_count id ((k, c) ∷ m) cs = occurrences id c.supports + support_count id m cs

module _ (ops : FloatOps) where
  rescore : EvidenceLedger → List EvidenceSummaryClaim → EvidenceRecord → EvidenceRecord
  rescore l summary_claims ev =
      let count = support_count ev.id l.claims summary_claims in
      let corroborated = record (ev.reliability) { corroboration = corroboration_of ops count } in
      record ev { reliability = recompute_final ops corroborated }

  rescore_all :
      EvidenceLedger
      → List EvidenceSummaryClaim
      → List (String × EvidenceRecord)
      → List (String × EvidenceRecord)
  rescore_all l summary_claims [] = []
  rescore_all l summary_claims ((id, ev) ∷ m) =
      (id, rescore l summary_claims ev) ∷ rescore_all l summary_claims m

  unfoldable pub recompute_corroboration :
      EvidenceLedger → List EvidenceSummaryClaim → EvidenceLedger
  unfolding rescore_all rescore
  recompute_corroboration l summary_claims = record l {
    records = rescore_all l summary_claims l.records;
  }
