-- ===== src/Runtime/Loop/Growth.antt =====
-- How the ledger of a run grows: the operations of the agent loop on it.
use magi_system.Prelude.{String, List, [], ◌∷◌, ◌≡◌, all, Bool-cases, inl, inr, FloatOps}
use magi_system.Entity.Evidence.{EvidenceSummary, EvidenceSummaryClaim}
use magi_system.Evidence.Ledger.{EvidenceLedger, recompute_corroboration, exists_collected}
use magi_system.Evidence.Ledger.Snapshot.Reached.{Reached, recorded, claimed, recomputed}
use magi_system.Runtime.Checkpoints.{History}
use magi_system.Runtime.Messages.{Phase, ToolCall}
use magi_system.Runtime.Loop.{AgentWorld, ToolDefinition, Candidate, executed}
use magi_system.Runtime.Loop.Tools.{record_candidates, observed_of}
use magi_system.Runtime.Loop.Responses.{record_claims, submit_claims}

-- The second ledger is a later stage of the first: since then evidence was recorded, all of which the
-- tool runtime returned for a call; claims were submitted; summaries were judged, which recomputes the
-- scores; and the claims of accepted summaries were recorded.
pub data Extends (w : AgentWorld) (first : EvidenceLedger) : EvidenceLedger → Type 0 where
  same : Extends w first first
  observed :
      {l : EvidenceLedger} (history : History) (phase : Phase) (td : ToolDefinition) (tc : ToolCall)
      (output : String) (cs : List Candidate)
      → w.run_tool history phase td tc ≡ executed output cs
      → Extends w first l
      → Extends w first (record_candidates tc td cs l)
  submitted :
      {l : EvidenceLedger} (cs : List EvidenceSummaryClaim)
      → Extends w first l
      → Extends w first (submit_claims cs l)
  judged :
      {l : EvidenceLedger} (summary : EvidenceSummary)
      → Extends w first l
      → Extends w first (recompute_corroboration w.parsers.floats l summary.claims)
  accepted :
      {l : EvidenceLedger} (cs : List EvidenceSummaryClaim)
      → Extends w first l
      → Extends w first (record_claims cs l)

module _ (ops : FloatOps) where
  record_candidates-Reached :
      (tc : ToolCall) (td : ToolDefinition) (cs : List Candidate) (l : EvidenceLedger)
      → Reached ops l
      → Reached ops (record_candidates tc td cs l)
  unfolding record_candidates
  record_candidates-Reached tc td [] l r = r
  record_candidates-Reached tc td (c ∷ cs) l r =
      record_candidates-Reached tc td cs _ (recorded (observed_of tc td c) r)

  record_claims-Reached :
      (cs : List EvidenceSummaryClaim) (l : EvidenceLedger)
      → Reached ops l
      → Reached ops (record_claims cs l)
  unfolding record_claims
  record_claims-Reached [] l r = r
  record_claims-Reached (c ∷ cs) l r =
      record_claims-Reached cs _ (claimed c.statement c.supports c.contradicts r)

  submit_claims-Reached :
      (cs : List EvidenceSummaryClaim) (l : EvidenceLedger)
      → Reached ops l
      → Reached ops (submit_claims cs l)
  unfolding submit_claims
  submit_claims-Reached [] l r = r
  submit_claims-Reached (c ∷ cs) l r =
      elim (Bool-cases (all (λ id. exists_collected l id "") c.supports)) [
        | inl e ↦
            rw (e) (submit_claims-Reached cs _ (claimed c.statement c.supports c.contradicts r))
        | inr e ↦ rw (e) (submit_claims-Reached cs l r)
      ]

-- A ledger that a run's operations reach from a new one is a ledger that the ledger's own operations
-- reach.
pub Extends-Reached :
    (w : AgentWorld) (first : EvidenceLedger) {l : EvidenceLedger}
    → Reached w.parsers.floats first
    → Extends w first l
    → Reached w.parsers.floats l
Extends-Reached w first r same = r
Extends-Reached w first r (observed history phase td tc output cs e x) =
    record_candidates-Reached w.parsers.floats tc td cs _ (Extends-Reached w first r x)
Extends-Reached w first r (submitted cs x) =
    submit_claims-Reached w.parsers.floats cs _ (Extends-Reached w first r x)
Extends-Reached w first r (judged summary x) =
    recomputed summary.claims (Extends-Reached w first r x)
Extends-Reached w first r (accepted cs x) =
    record_claims-Reached w.parsers.floats cs _ (Extends-Reached w first r x)
