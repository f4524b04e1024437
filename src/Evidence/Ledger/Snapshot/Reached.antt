-- ===== src/Evidence/Ledger/Snapshot/Reached.antt =====
-- The ledgers that a run reaches, and that each of them survives its snapshot.
use Prim.Native.Char.{Char}
use Prim.Native.String.{[] as nil, ◌∷◌ as cons}
use magi_system.Prelude.{
  ap, Bool, true, Bool-cases, inl, inr, ℕ, ◌+◌, String, FloatOps, false, some, List, [], ◌∷◌, ◌++◌,
  ◌≡◌, refl, arith, str_eq, eq_iff,
}
use magi_system.Prelude.Dict.{member}
use magi_system.Entity.Evidence.{EvidenceRecord, Claim, EvidenceSummaryClaim}
use magi_system.Evidence.Ledger.{
  EvidenceLedger, Observed, evidence_id, claim_id, new_evidence_ledger, record_evidence,
  record_claim, recompute_corroboration, rescore, rescore_all,
}
use magi_system.Evidence.Ledger.Ids.{insert_fresh}
use magi_system.Evidence.Ledger.Invariant.{
  IsValid, new_evidence_ledger-IsValid, record_evidence-IsValid, record_claim-IsValid,
  recompute_corroboration-IsValid, next_evidence_unkeyed, next_claim_unkeyed,
}
use magi_system.Evidence.Ledger.Snapshot.{
  Codec, Decodes, marshal_ledger, restore_ledger, restored, restore_snapshot, restore_evidence,
  restore_claims, snapshot_of, invalid_evidence_record, duplicate_evidence_record, invalid_claim,
  duplicate_claim,
}
use magi_system.Evidence.Ledger.Snapshot.Rows.{Separate, Separate-snoc, restore_rows-pointers_at}

-- A new ledger, and what the operations make of a reached one.
pub data Reached (ops : FloatOps) : EvidenceLedger → Type 0 where
  created :
      (case_id run collector : String) → Reached ops (new_evidence_ledger case_id run collector)
  recorded :
      {l : EvidenceLedger} (o : Observed) → Reached ops l → Reached ops (record_evidence l o).0
  claimed :
      {l : EvidenceLedger} (statement : String) (supports contradicts : List String)
      → Reached ops l
      → Reached ops (record_claim l statement supports contradicts).0
  recomputed :
      {l : EvidenceLedger} (cs : List EvidenceSummaryClaim)
      → Reached ops l
      → Reached ops (recompute_corroboration ops l cs)

abbrev EvidenceRows : EvidenceLedger → Type 0
EvidenceRows l = Separate (λ (v : EvidenceRecord). v.id) [] l.records

abbrev ClaimRows : EvidenceLedger → Type 0
ClaimRows l = Separate (λ (v : Claim). v.id) [] l.claims

-- A well-formed ledger whose entries stand under their own ids.
record IsStored (l : EvidenceLedger) : Type 0 where
  valid : IsValid l
  evidence : EvidenceRows l
  claims : ClaimRows l

is_nil : String → Bool
is_nil nil = true
is_nil (cons c s) = false

-- A text with a character is not the empty one.
str_eq-cons : (c : Char) (s : String) → str_eq (cons c s) "" ≡ false
unfolding is_nil
str_eq-cons c s = elim (Bool-cases (str_eq (cons c s) "")) [
  | inr e ↦ e
  | inl e ↦ absurd (let wrong = ap is_nil ((eq_iff (cons c s) "").0 e) in ground arith)
]

evidence_id_named : (n : ℕ) → str_eq (evidence_id n) "" ≡ false
unfolding evidence_id
evidence_id_named n = str_eq-cons _ _

claim_id_named : (n : ℕ) → str_eq (claim_id n) "" ≡ false
unfolding claim_id
claim_id_named n = str_eq-cons _ _

Separate-rescore_all :
    (ops : FloatOps) (l : EvidenceLedger) (cs : List EvidenceSummaryClaim) (seen : List String)
    (m : List (String × EvidenceRecord))
    → Separate (λ (v : EvidenceRecord). v.id) seen m
    → Separate (λ (v : EvidenceRecord). v.id) seen (rescore_all ops l cs m)
unfolding rescore_all rescore
Separate-rescore_all ops l cs seen [] s = tt
Separate-rescore_all ops l cs seen ((k, v) ∷ m) (named, own, new, s) =
    (named, own, new, Separate-rescore_all ops l cs (seen ++ k ∷ []) m s)

new_evidence_ledger-IsStored : (c r m : String) → IsStored (new_evidence_ledger c r m)
unfolding new_evidence_ledger
new_evidence_ledger-IsStored c r m = record {
  valid = new_evidence_ledger-IsValid c r m;
  evidence = tt;
  claims = tt;
}

module _ {p : EvidenceLedger} (before : IsStored p) where
  record_evidence-IsStored : (o : Observed) → IsStored (record_evidence p o).0
  record_evidence-IsStored o =
      let fresh = next_evidence_unkeyed before.valid in
      record {
        valid = record_evidence-IsValid o before.valid;
        evidence =
            unfold record_evidence in
            rw
              (insert_fresh (evidence_id (p.ev_counter + 1)) (record_evidence p o).1 p.records
                fresh)
              (Separate-snoc (λ (v : EvidenceRecord). v.id) [] p.records
                (evidence_id (p.ev_counter + 1)) (record_evidence p o).1 (evidence_id_named _) refl
                (unfold member in refl) fresh before.evidence);
        claims = unfold record_evidence in before.claims;
      }

  record_claim-IsStored : (s : String) (u c : List String) → IsStored (record_claim p s u c).0
  record_claim-IsStored s u c =
      let fresh = next_claim_unkeyed before.valid in
      record {
        valid = record_claim-IsValid s u c before.valid;
        evidence = unfold record_claim in before.evidence;
        claims =
            unfold record_claim in
            rw (insert_fresh (claim_id (p.cl_counter + 1)) (record_claim p s u c).1 p.claims fresh)
              (Separate-snoc (λ (v : Claim). v.id) [] p.claims (claim_id (p.cl_counter + 1))
                (record_claim p s u c).1 (claim_id_named _) refl (unfold member in refl) fresh
                before.claims);
      }

  recompute_corroboration-IsStored :
      (ops : FloatOps) (cs : List EvidenceSummaryClaim)
      → IsStored (recompute_corroboration ops p cs)
  recompute_corroboration-IsStored ops cs = record {
    valid = recompute_corroboration-IsValid ops p cs before.valid;
    evidence =
        unfold recompute_corroboration in
        Separate-rescore_all ops p cs [] p.records before.evidence;
    claims = unfold recompute_corroboration in before.claims;
  }

Reached-IsStored : (ops : FloatOps) (l : EvidenceLedger) → Reached ops l → IsStored l
Reached-IsStored ops l (created c r m) = new_evidence_ledger-IsStored c r m
Reached-IsStored ops l (recorded {l = p} o r) =
    record_evidence-IsStored (Reached-IsStored ops p r) o
Reached-IsStored ops l (claimed {l = p} s u c r) =
    record_claim-IsStored (Reached-IsStored ops p r) s u c
Reached-IsStored ops l (recomputed {l = p} cs r) =
    recompute_corroboration-IsStored (Reached-IsStored ops p r) ops cs

-- Every ledger that a run reaches, from a new one by recording evidence and claims and recomputing
-- the scores in any order, is well formed.
pub Reached-IsValid : (ops : FloatOps) (l : EvidenceLedger) → Reached ops l → IsValid l
Reached-IsValid ops l r = (Reached-IsStored ops l r).valid

restore-snapshot_of :
    (l : EvidenceLedger) → IsStored l → restore_snapshot (snapshot_of l) ≡ restored l
unfolding restore_snapshot snapshot_of restore_evidence restore_claims new_evidence_ledger
restore-snapshot_of l s =
    rw
      (
        ← s.valid.evidence_keys,
        ← s.valid.claim_keys,
        restore_rows-pointers_at (λ (v : EvidenceRecord). v.id) invalid_evidence_record
            duplicate_evidence_record l.records s.evidence,
        restore_rows-pointers_at (λ (v : Claim). v.id) invalid_claim duplicate_claim l.claims
            s.claims,
      )
      refl

-- Where the encoding of the ledger's snapshot decodes to that snapshot, restoring the text that a
-- reached ledger was marshalled to gives back the same ledger: its records
-- and claims in their order, and its counters.
pub restore_ledger-marshal_ledger :
    (codec : Codec) (ops : FloatOps) (l : EvidenceLedger) (text : String)
    → Reached ops l
    → Decodes codec (snapshot_of l)
    → marshal_ledger codec (some l) ≡ some text
    → restore_ledger codec text ≡ restored l
unfolding restore_ledger marshal_ledger
restore_ledger-marshal_ledger codec ops l text r decodes e =
    rw (restore_ledger, decodes text e) (restore-snapshot_of l (Reached-IsStored ops l r))
