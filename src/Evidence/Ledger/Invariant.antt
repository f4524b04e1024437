-- ===== src/Evidence/Ledger/Invariant.antt =====
-- The well-formedness of a ledger, and that every operation keeps it.
use magi_system.Prelude.{
  ◌+◌, String, FloatOps, false, none, some, List, [], ◌∷◌, ◌++◌, ◌≡◌, refl, ◌∙◌, arith, length,
  length-append, str_eq, if◌then◌else◌,
}
use native.Mathlib.Numerals.{add-one}
use mathlib.Core.Option
use magi_system.Prelude.Dict.{lookup, member, keys, lookup-insert, lookup-unkeyed}
use magi_system.Entity.Evidence.{EvidenceRecord, EvidenceSummaryClaim}
use magi_system.Evidence.Ledger.{
  EvidenceLedger, Observed, evidence_id, claim_id, new_evidence_ledger, record_evidence,
  record_claim, get, list, list_claims, values_at, recompute_corroboration, rescore, rescore_all,
}
use magi_system.Evidence.Ledger.Ids.{
  ids, member-ids, evidence_id-injective, claim_id-injective, insert_fresh, keys-append,
  values_at-snoc,
}

-- The ids are EV-001, EV-002, … and CL-001, CL-002, … up to the counters, each map has exactly the
-- ids of its order slice, in that order, and every listed id has a value.
pub record IsValid (l : EvidenceLedger) : Type 0 where
  pub evidence_ids : l.record_order ≡ ids evidence_id l.ev_counter
  pub evidence_keys : keys l.records ≡ l.record_order
  pub evidence_listed : length (list l) ≡ l.ev_counter
  pub claim_ids : l.claim_order ≡ ids claim_id l.cl_counter
  pub claim_keys : keys l.claims ≡ l.claim_order
  pub claims_listed : length (list_claims l) ≡ l.cl_counter

module _ {l : EvidenceLedger} (valid : IsValid l) where
  next_evidence_fresh : member (evidence_id (l.ev_counter + 1)) l.record_order ≡ false
  next_evidence_fresh =
      rw valid.evidence_ids
        (member-ids evidence_id evidence_id-injective l.ev_counter (l.ev_counter + 1) (omega arith))

  next_claim_fresh : member (claim_id (l.cl_counter + 1)) l.claim_order ≡ false
  next_claim_fresh =
      rw valid.claim_ids
        (member-ids claim_id claim_id-injective l.cl_counter (l.cl_counter + 1) (omega arith))

  pub next_evidence_unkeyed : member (evidence_id (l.ev_counter + 1)) (keys l.records) ≡ false
  next_evidence_unkeyed = rw valid.evidence_keys next_evidence_fresh

  pub next_claim_unkeyed : member (claim_id (l.cl_counter + 1)) (keys l.claims) ≡ false
  next_claim_unkeyed = rw valid.claim_keys next_claim_fresh

  -- Recording appends the new record to the list.
  list-record_evidence :
      (o : Observed) → list (record_evidence l o).0 ≡ list l ++ (record_evidence l o).1 ∷ []
  unfolding record_evidence list
  list-record_evidence o =
      rw
        (insert_fresh (evidence_id (l.ev_counter + 1)) (record_evidence l o).1 l.records
          next_evidence_unkeyed)
        (values_at-snoc (evidence_id (l.ev_counter + 1)) (record_evidence l o).1 l.records
          l.record_order next_evidence_unkeyed next_evidence_fresh)

  list_claims-record_claim :
      (s : String) (supports contradicts : List String)
      → list_claims (record_claim l s supports contradicts).0
        ≡ list_claims l ++ (record_claim l s supports contradicts).1 ∷ []
  unfolding record_claim list_claims
  list_claims-record_claim s p c =
      rw
        (insert_fresh (claim_id (l.cl_counter + 1)) (record_claim l s p c).1 l.claims
          next_claim_unkeyed)
        (values_at-snoc (claim_id (l.cl_counter + 1)) (record_claim l s p c).1 l.claims
          l.claim_order next_claim_unkeyed next_claim_fresh)

pub new_evidence_ledger-IsValid : (c r m : String) → IsValid (new_evidence_ledger c r m)
unfolding new_evidence_ledger ids list list_claims
new_evidence_ledger-IsValid c r m = record {
  evidence_ids = refl;
  evidence_keys = refl;
  evidence_listed = refl;
  claim_ids = refl;
  claim_keys = refl;
  claims_listed = refl;
}

-- Recording evidence keeps a ledger well formed.
pub record_evidence-IsValid :
    {l : EvidenceLedger} (o : Observed) → IsValid l → IsValid (record_evidence l o).0
record_evidence-IsValid {l} o v = record {
  evidence_ids = unfold record_evidence ids in rw (add-one, ← v.evidence_ids) refl;
  evidence_keys =
      unfold record_evidence in
      rw
        (
          insert_fresh (evidence_id (l.ev_counter + 1)) (record_evidence l o).1 l.records
              (next_evidence_unkeyed v),
          keys-append,
          v.evidence_keys,
        )
        refl;
  evidence_listed = rw (list-record_evidence v o) (
      unfold record_evidence in
      omega (arith, length-append (list l) ((record_evidence l o).1 ∷ []), v.evidence_listed));
  claim_ids = unfold record_evidence in v.claim_ids;
  claim_keys = unfold record_evidence in v.claim_keys;
  claims_listed = unfold record_evidence list_claims in v.claims_listed;
}

-- Recording a claim keeps a ledger well formed.
pub record_claim-IsValid :
    {l : EvidenceLedger} (s : String) (p c : List String)
    → IsValid l
    → IsValid (record_claim l s p c).0
record_claim-IsValid {l} s p c v = record {
  evidence_ids = unfold record_claim in v.evidence_ids;
  evidence_keys = unfold record_claim in v.evidence_keys;
  evidence_listed = unfold record_claim list in v.evidence_listed;
  claim_ids = unfold record_claim ids in rw (add-one, ← v.claim_ids) refl;
  claim_keys =
      unfold record_claim in
      rw
        (
          insert_fresh (claim_id (l.cl_counter + 1)) (record_claim l s p c).1 l.claims
              (next_claim_unkeyed v),
          keys-append,
          v.claim_keys,
        )
        refl;
  claims_listed = rw (list_claims-record_claim v s p c) (
      unfold record_claim in
      omega
        (arith, length-append (list_claims l) ((record_claim l s p c).1 ∷ []), v.claims_listed));
}

module _ (ops : FloatOps) (l : EvidenceLedger) (cs : List EvidenceSummaryClaim) where
  keys-rescore_all : (m : List (String × EvidenceRecord)) → keys (rescore_all ops l cs m) ≡ keys m
  unfolding rescore_all
  keys-rescore_all [] = refl
  keys-rescore_all ((k, e) ∷ m) = rw (keys-rescore_all m)

  lookup-rescore_all :
      (k : String) (m : List (String × EvidenceRecord))
      → lookup k (rescore_all ops l cs m) ≡ Option.map (rescore ops l cs) (lookup k m)
  unfolding rescore_all lookup
  lookup-rescore_all k [] = refl
  lookup-rescore_all k ((j, e) ∷ m) = ground (arith, lookup-rescore_all k m)

  length-rescore_all :
      (m : List (String × EvidenceRecord)) (xs : List String)
      → length (values_at (rescore_all ops l cs m) xs) ≡ length (values_at m xs)
  unfolding values_at
  length-rescore_all m [] = refl
  length-rescore_all m (x ∷ xs) = ground (arith, lookup-rescore_all x m, length-rescore_all m xs)

  -- Recomputing the scores keeps a ledger well formed.
  pub recompute_corroboration-IsValid : IsValid l → IsValid (recompute_corroboration ops l cs)
  recompute_corroboration-IsValid v = record {
    evidence_ids = unfold recompute_corroboration in v.evidence_ids;
    evidence_keys = unfold recompute_corroboration in keys-rescore_all l.records ∙ v.evidence_keys;
    evidence_listed =
        unfold recompute_corroboration list in
        length-rescore_all l.records l.record_order ∙ (unfold list in v.evidence_listed);
    claim_ids = unfold recompute_corroboration in v.claim_ids;
    claim_keys = unfold recompute_corroboration in v.claim_keys;
    claims_listed = unfold recompute_corroboration list_claims in v.claims_listed;
  }

-- In a well-formed ledger, recording evidence takes an id that is not in use; afterwards that id, and
-- no other, is answered by the new record, and the new record is the last of the list.
pub get-record_evidence :
    {l : EvidenceLedger} (o : Observed) (id : String)
    → IsValid l
    → (get l (record_evidence l o).1.id ≡ none)
      × (get (record_evidence l o).0 id ≡ (
          if str_eq (record_evidence l o).1.id id then some (record_evidence l o).1 else get l id))
      × (list (record_evidence l o).0 ≡ list l ++ (record_evidence l o).1 ∷ [])
unfolding get
get-record_evidence {l} o id v = (
  unfold record_evidence in lookup-unkeyed _ l.records (next_evidence_unkeyed v),
  unfold record_evidence in lookup-insert _ id _ l.records,
  list-record_evidence v o,
)
