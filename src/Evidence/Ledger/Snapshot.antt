-- ===== src/Evidence/Ledger/Snapshot.antt =====
-- `MarshalLedger` and `RestoreLedger` of backend/domain/evidence/ledger.go. The encoding of the
-- snapshot as JSON is a parameter; a nil pointer or slice is `none`. Negative counters, which no
-- ledger has, are left out.
pub mod Rows
pub mod Reached
mod Examples
use magi_system.Prelude.{
  ℕ, String, Bool, true, false, Option, none, some, List, [], ◌∷◌, ◌++◌, ◌≡◌, str_eq, if◌then◌else◌,
}
use magi_system.Prelude.Dict.{lookup, insert}
use magi_system.Entity.Evidence.{EvidenceRecord, Claim}
use magi_system.Evidence.Ledger.{EvidenceLedger, new_evidence_ledger}

pub record LedgerSnapshot : Type 0 where
  pub case_id : String
  pub agent_run_id : String
  pub collector : String
  pub records : Option (List (Option EvidenceRecord))
  pub claims : Option (List (Option Claim))
  pub evidence_counter : ℕ
  pub claim_counter : ℕ

-- `json.Marshal` and `json.Unmarshal` of a snapshot, `none` being an error.
pub record Codec : Type 0 where
  pub encode : LedgerSnapshot → Option String
  pub decode : String → Option LedgerSnapshot

-- What the package documents: the text that a snapshot is encoded to is decoded to that snapshot.
abbrev pub Decodes : Codec → LedgerSnapshot → Type 0
Decodes codec snapshot =
    (text : String) → codec.encode snapshot ≡ some text → codec.decode text ≡ some snapshot

pub data RestoreError : Type 0 where
  not_decoded incomplete_state invalid_evidence_record invalid_claim : RestoreError
  duplicate_evidence_record duplicate_claim : String → RestoreError

pub data Restored {ℓ} (A : Type ℓ) : Type ℓ where
  restored : A → Restored A
  not_restored : RestoreError → Restored A

abbrev bind {ℓ κ} : {A : Type ℓ} {B : Type κ} → Restored A → (A → Restored B) → Restored B
bind (restored a) f = f a
bind (not_restored e) f = not_restored e

module _ {V : Type 0} where
  -- `m[id]` for each id of the order: a nil pointer for a missing one.
  unfoldable pub pointers_at : List (String × V) → List String → List (Option V)
  unfolding lookup
  pointers_at m [] = []
  pointers_at m (id ∷ ids) = lookup id m ∷ pointers_at m ids

  module _ (id_of : V → String) (invalid : RestoreError) (duplicate : String → RestoreError) where
    -- One of the two loops of `RestoreLedger`, over the map and the order.
    unfoldable pub restore_rows :
        List (Option V)
        → List (String × V) × List String
        → Restored (List (String × V) × List String)
    unfolding lookup insert
    restore_rows [] rows = restored rows
    restore_rows (none ∷ vs) rows = not_restored invalid
    restore_rows (some v ∷ vs) (m, order) =
        let rest = restore_rows vs (insert (id_of v) v m, order ++ id_of v ∷ []) in
        if str_eq (id_of v) "" then not_restored invalid else elim (lookup (id_of v) m) [
          | some old ↦ not_restored (duplicate (id_of v))
          | none ↦ rest
        ]

-- The snapshot that `MarshalLedger` encodes.
unfoldable pub snapshot_of : EvidenceLedger → LedgerSnapshot
unfolding pointers_at
snapshot_of l = record {
  case_id = l.case_id;
  agent_run_id = l.agent_run_id;
  collector = l.collector;
  records = some (pointers_at l.records l.record_order);
  claims = some (pointers_at l.claims l.claim_order);
  evidence_counter = l.ev_counter;
  claim_counter = l.cl_counter;
}

restore_evidence :
    List (Option EvidenceRecord) → Restored (List (String × EvidenceRecord) × List String)
unfolding restore_rows
restore_evidence vs =
    restore_rows (λ (v : EvidenceRecord). v.id) invalid_evidence_record duplicate_evidence_record vs
      ([], [])

restore_claims : List (Option Claim) → Restored (List (String × Claim) × List String)
unfolding restore_rows
restore_claims vs = restore_rows (λ (v : Claim). v.id) invalid_claim duplicate_claim vs ([], [])

restore_snapshot : LedgerSnapshot → Restored EvidenceLedger
unfolding restore_evidence restore_claims new_evidence_ledger
restore_snapshot s = elim (s.records) [
  | none ↦ not_restored incomplete_state
  | some records ↦ elim (s.claims) [
    | none ↦ not_restored incomplete_state
    | some claims ↦ do_restore s records claims
  ]
]
  where
    do_restore :
        LedgerSnapshot
        → List (Option EvidenceRecord)
        → List (Option Claim)
        → Restored EvidenceLedger
    do_restore s records claims = bind (restore_evidence records) λ evidence_rows.
        bind (restore_claims claims) λ claim_rows.
          restored (record (new_evidence_ledger s.case_id s.agent_run_id s.collector) {
            ev_counter = s.evidence_counter;
            cl_counter = s.claim_counter;
            records = evidence_rows.0;
            record_order = evidence_rows.1;
            claims = claim_rows.0;
            claim_order = claim_rows.1;
          })

-- `none` is the nil pointer; the error of a nil ledger or of the encoding is `none` in the result.
unfoldable pub marshal_ledger : Codec → Option EvidenceLedger → Option String
unfolding snapshot_of
marshal_ledger codec none = none
marshal_ledger codec (some l) = codec.encode (snapshot_of l)

unfoldable pub restore_ledger : Codec → String → Restored EvidenceLedger
unfolding restore_snapshot
restore_ledger codec text = elim (codec.decode text) [
  | none ↦ not_restored not_decoded
  | some snapshot ↦ restore_snapshot snapshot
]
