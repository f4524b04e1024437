-- ===== src/Runtime/Loop/Soundness.antt =====
-- What the agent loop keeps, and what a run that completes rests on.
pub mod Branches
use magi_system.Prelude.{
  ℕ, String, Bool, true, false, Option, none, some, ◌≡◌, refl, str_eq, GoError, Bool-cases,
  Option-cases, inl, inr, ◌∷◌, if◌then◌else◌, arith, FloatOps, List, [],
}
use magi_system.Entity.Evidence.{EvidenceSummary}
use magi_system.Entity.Vote.{Vote}
use magi_system.Evidence.Ledger.{EvidenceLedger, recompute_corroboration}
use magi_system.Runtime.Loop.Growth.{Extends}
use magi_system.Evidence.RoleDecision.{validate_role_decision}
use magi_system.Runtime.Messages.{
  Phase, gather, reconsider_gather, reconsider_reflect, vote_phase, unknown_phase,
}
use magi_system.Runtime.VoteDimensions.{validate_vote_dimensions}
use magi_system.Runtime.Checkpoints.{invocation_succeeded, Pending, Checkpoint, History}
use magi_system.Runtime.Result.{LoopStatus, is_completed_status, error}
use magi_system.Runtime.Loop.{
  AgentWorld, AgentConfig, LoopState, Ending, Flow, next, stop, ◌>>=◌, ends, commit_checkpoint,
  commit_encoded, committed, checkpoint_of,
}
use magi_system.Runtime.Loop.Ensures.{Ensures, bind-Ensures, Unvoted}
use magi_system.Runtime.Loop.Tools.{terminate, end_by}
use magi_system.Runtime.Loop.Compaction.{Compacted, unchanged, replaced, wants_compaction}
use magi_system.Runtime.Loop.Model.{
  apply_compaction, compact, check_context, unless_error, receive, ask, obtain_from, obtain,
}
use magi_system.Runtime.Loop.{Generated, generated, generation_failed}
use magi_system.Runtime.Termination.{TerminationState, LoopPolicy, check_termination, Ended, ended}
use magi_system.Runtime.Loop.Responses.{judge, passes}

module _ (w : AgentWorld) (cfg : AgentConfig) (first : EvidenceLedger) where
  -- The gates passed the summary against a stage of the run's ledger, which started as `first`: the
  -- present ledger is a later stage of the one that the gates saw.
  pub record Verified (summary : EvidenceSummary) (present : EvidenceLedger) : Type 0 where
    pub ledger : EvidenceLedger
    pub grew : Extends w first ledger
    pub passed : passes (judge w cfg summary ledger) ≡ true
    pub kept : Extends w (recompute_corroboration w.parsers.floats ledger summary.claims) present

  -- After the gather phase there is a summary, and a summary is verified.
  abbrev pub Early : Phase → Type 0
  Early reconsider_reflect = ⊥
  Early vote_phase = ⊥
  Early phase = Unit

  abbrev pub Backed : Phase → Option EvidenceSummary → EvidenceLedger → Type 0
  Backed phase none present = Early phase
  Backed phase (some summary) present = Verified summary present

  abbrev pub Sound : LoopState → Type 0
  Sound s = Extends w first s.ledger × Backed s.phase s.summary s.ledger

  Backed-grown :
      (phase : Phase) (summary : Option EvidenceSummary) (l l' : EvidenceLedger)
      → ((start : EvidenceLedger) → Extends w start l → Extends w start l')
      → Backed phase summary l
      → Backed phase summary l'
  Backed-grown phase none l l' grow b = b
  Backed-grown phase (some summary) l l' grow b = record {
    ledger = b.ledger;
    grew = b.grew;
    passed = b.passed;
    kept = grow _ b.kept;
  }

  -- An operation of the run on the ledger.
  pub grown :
      (s : LoopState) (l' : EvidenceLedger)
      → ((start : EvidenceLedger) → Extends w start s.ledger → Extends w start l')
      → Sound s
      → Extends w first l' × Backed s.phase s.summary l'
  grown s l' grow k = (grow first k.0, Backed-grown s.phase s.summary s.ledger l' grow k.1)

  -- The checks that a vote has passed.
  abbrev pub Concluded : LoopState → Option Vote → LoopStatus → Type 0
  Concluded s none status = is_completed_status status ≡ false
  Concluded s (some v) status =
      (is_completed_status status ≡ true)
      × (validate_vote_dimensions (some v) cfg.objective ≡ none)
      × (validate_role_decision w.parsers.floats (some v) s.summary cfg.role_policy cfg.objective
          ≡ none)
      × (s.phase ≡ vote_phase)

  abbrev pub Closed : LoopState → Ending → Type 0
  Closed s e = Sound s × Concluded s e.vote e.status

  abbrev pub Keeps : {A : Type 0} → Flow A → Type 0
  Keeps {A = A} m = Ensures (λ s (a : A). Sound s) Closed m

  committed-Keeps : (s : LoopState) (r : History × Option GoError) → Sound s → Keeps (committed s r)
  unfolding is_completed_status
  committed-Keeps s (h, none) k = record { it = k }
  committed-Keeps s (h, some e) k = record { it = (k, refl) }

  commit_encoded-Keeps :
      (c : Checkpoint) (e : Option GoError) (s : LoopState)
      → Sound s
      → Keeps (commit_encoded w c e s)
  unfolding is_completed_status
  commit_encoded-Keeps c none s k = committed-Keeps s _ k
  commit_encoded-Keeps c (some e) s k = record { it = (k, refl) }

  pub commit_checkpoint-Keeps :
      (step : ℕ) (p : Option Pending) (s : LoopState)
      → Sound s
      → Keeps (commit_checkpoint w step p s)
  unfolding commit_checkpoint is_completed_status
  commit_checkpoint-Keeps step p s k = elim (Bool-cases (str_eq w.run_id "")) [
    | inl e ↦ rw (e) (record { it = k })
    | inr e ↦ elim (Bool-cases (w.lease_gone s.history)) [
      | inl l ↦ rw (e, l) (record { it = (k, refl) })
      | inr l ↦
          let c = checkpoint_of w step p s in
          rw (e, l) (commit_encoded-Keeps c (w.marshal_error c) s k)
    ]
  ]

  end_by-Keeps :
      (e : Option Ended) (s : LoopState)
      → ((status : LoopStatus) (n : ℕ)
          → e ≡ some (ended status n)
          → is_completed_status status ≡ false)
      → Sound s
      → Keeps (end_by e s)
  end_by-Keeps none s h k = record { it = k }
  end_by-Keeps (some (ended status n)) s h k = record { it = (k, h status n refl) }

  check_termination-uncompleted :
      (ts : TerminationState) (policy : LoopPolicy) (status : LoopStatus) (n : ℕ)
      → check_termination ts policy ≡ some (ended status n)
      → is_completed_status status ≡ false
  unfolding check_termination is_completed_status
  check_termination-uncompleted ts policy status n h = ground arith

  pub terminate-Keeps : (s : LoopState) → Sound s → Keeps (terminate cfg s)
  unfolding terminate
  terminate-Keeps s k =
      end_by-Keeps (check_termination s.termination cfg.policy) s
        (check_termination-uncompleted s.termination cfg.policy) k

  apply_compaction-Keeps :
      (step : ℕ) (c : Compacted) (s : LoopState) → Sound s → Keeps (apply_compaction w cfg step c s)
  apply_compaction-Keeps step unchanged s k = record { it = k }
  apply_compaction-Keeps step (replaced ms tokens) s k = commit_checkpoint-Keeps step none _ k

  compact-Keeps : (step : ℕ) (s : LoopState) → Sound s → Keeps (compact w cfg step s)
  unfolding compact
  compact-Keeps step s k = elim (Bool-cases (wants_compaction w.parsers.floats cfg s)) [
    | inl e ↦ rw (e) (apply_compaction-Keeps step _ s k)
    | inr e ↦ rw (e) (record { it = k })
  ]

  check_context-Keeps :
      (step : ℕ) (e : Option GoError) (s : LoopState)
      → Sound s
      → Keeps (check_context w cfg step e s)
  unfolding is_completed_status
  check_context-Keeps step none s k = record { it = k }
  check_context-Keeps step (some e) s k = record { it = (k, refl) }

  unless_error-Keeps : (e : Option GoError) (s : LoopState) → Sound s → Keeps (unless_error e s)
  unfolding is_completed_status
  unless_error-Keeps none s k = record { it = k }
  unless_error-Keeps (some e) s k = record { it = (k, refl) }

  receive-Keeps :
      (step : ℕ) (g : Generated) (s : LoopState) → Sound s → Keeps (receive w cfg step g s)
  unfolding is_completed_status
  receive-Keeps step (generation_failed e) s k = record { it = (k, refl) }
  receive-Keeps step (generated a) s k =
      bind-Ensures {f = λ s u. next s a}
        (unless_error-Keeps (w.record_critical s.history (invocation_succeeded step)) s k)
        (λ s _ k. record { it = k })

  ask-Keeps : (step : ℕ) (s : LoopState) → Sound s → Keeps (ask w cfg step s)
  unfolding ask
  ask-Keeps step s k =
      bind-Ensures
        (bind-Ensures
          (bind-Ensures
            (bind-Ensures
              (bind-Ensures (commit_checkpoint-Keeps step none s k)
                (λ s _ k. compact-Keeps step s k))
              (λ s _ k. check_context-Keeps step _ s k))
            (λ s _ k. unless_error-Keeps _ s k))
          (λ s _ k. receive-Keeps step _ _ k))
        (λ s resp k. bind-Ensures (commit_checkpoint-Keeps step _ _ k) (λ s _ k. record { it = k }))

  obtain_from-Keeps :
      (step : ℕ) (p : Option Pending) (s : LoopState) → Sound s → Keeps (obtain_from w cfg step p s)
  obtain_from-Keeps step (some p) s k = record { it = k }
  obtain_from-Keeps step none s k = bind-Ensures (ask-Keeps step s k) (λ s _ k. record { it = k })

  pub obtain-Keeps : (step : ℕ) (s : LoopState) → Sound s → Keeps (obtain w cfg step s)
  unfolding obtain is_completed_status
  obtain-Keeps step s k = elim (Bool-cases (w.lease_gone s.history)) [
    | inl e ↦ rw (e) (record { it = (k, refl) })
    | inr e ↦ rw (e) (obtain_from-Keeps step s.pending s k)
  ]
