-- ===== src/Runtime/Loop/Calm.antt =====
-- An iteration of the agent loop where nothing fails: a new response is read.
use magi_system.Prelude.{
  ℕ, false, Option, none, some, ◌∷◌, ◌≡◌, refl, arith, str_eq, Bool-cases, inl, inr, GoError,
}
use magi_system.Runtime.Termination.{check_termination, reached}
use magi_system.Runtime.Messages.{Answer}
use magi_system.Runtime.Checkpoints.{
  Checkpoint, Pending, History, Critical, commit_for_execution, invoked, model_invocation,
  invocation_started, invocation_succeeded,
}
use magi_system.Runtime.Loop.{
  AgentWorld, AgentConfig, LoopState, Flow, next, commit_checkpoint, committed, commit_encoded,
  checkpoint_of, generated,
}
use magi_system.Runtime.Loop.Compaction.{wants_compaction}
use magi_system.Runtime.Loop.Model.{ask, obtain, compact, spend, obtain_from}
use magi_system.Runtime.Loop.Tools.{terminate}
use magi_system.Runtime.Loop.Run.{iterate, read_response}

-- Nothing fails: the lease is kept, the context is not cancelled, every checkpoint is stored and every
-- event recorded, there is no token budget, and no compaction is asked for.
pub record Calm (w : AgentWorld) (cfg : AgentConfig) : Type 0 where
  pub leased : (h : History) → w.lease_gone h ≡ false
  pub current : (h : History) → w.context_error h ≡ none
  pub records : (h : History) (e : Critical) → w.record_critical h e ≡ none
  pub marshals : (c : Checkpoint) → w.marshal_error c ≡ none
  pub stores :
      (h : History) (c : Checkpoint) → (commit_for_execution w.checkpoints w.owner h c).1 ≡ none
  pub uncompacted : (s : LoopState) → wants_compaction w.parsers.floats cfg s ≡ false
  pub unbudgeted : (n : ℕ) → reached cfg.policy.token_budget_limit n ≡ false

-- The state goes on with another history.
abbrev pub GoesOn : LoopState → Flow Unit → Type 0
GoesOn s m = (h : History) × (m ≡ next (record s { history = h }) tt)

module _ (w : AgentWorld) (cfg : AgentConfig) (calm : Calm w cfg) where
  committed-GoesOn :
      (s : LoopState) (r : History × Option GoError) → r.1 ≡ none → GoesOn s (committed s r)
  committed-GoesOn s (h, none) e = (h, refl)
  committed-GoesOn s (h, some f) e = absurd (ground arith)

  encoded-GoesOn :
      (c : Checkpoint) (e : Option GoError) (s : LoopState)
      → e ≡ none
      → GoesOn s (commit_encoded w c e s)
  encoded-GoesOn c none s q = committed-GoesOn s _ (calm.stores s.history c)
  encoded-GoesOn c (some f) s q = absurd (ground arith)

  pub commit-GoesOn :
      (step : ℕ) (p : Option Pending) (s : LoopState) → GoesOn s (commit_checkpoint w step p s)
  unfolding commit_checkpoint
  commit-GoesOn step p s = elim (Bool-cases (str_eq w.run_id "")) [
    | inl e ↦ rw (e) (s.history, refl)
    | inr e ↦
        rw (e, calm.leased s.history)
          (encoded-GoesOn (checkpoint_of w step p s) _ s (calm.marshals (checkpoint_of w step p s)))
  ]

  compact-none : (step : ℕ) (s : LoopState) → compact w cfg step s ≡ next s tt
  unfolding compact
  compact-none step s = rw (compact, calm.uncompacted s) refl

  -- The model's answer is obtained; its tokens are counted.
  ask-answer :
      (step : ℕ) (s : LoopState) (a : Answer)
      → ((h : History) → w.generate h s.messages ≡ generated a)
      → (h : History) × (ask w cfg step s
          ≡ next
              (spend a.total_tokens
                (record s { history = h; last_committed = model_invocation step }))
              a)
  unfolding ask
  ask-answer step s a answers =
      let (h, e) = commit-GoesOn step none s in
      let (h', e') = commit-GoesOn step (some (record { response = a; tool_index = none })) (
        spend a.total_tokens
          (record s { history = invoked step ∷ h; last_committed = model_invocation step })) in
      (
        h',
        rw
            (
              ask,
              e,
              compact-none step (record s { history = h }),
              calm.current h,
              calm.records h (invocation_started step),
              answers h,
              calm.records (invoked step ∷ h) (invocation_succeeded step),
              e',
            )
            refl,
      )

  -- The state in which a new response is read.
  abbrev pub asked : ℕ → Answer → LoopState → History → LoopState
  asked step a s h =
      spend a.total_tokens (record s { history = h; last_committed = model_invocation step })

  obtain_from-answer :
      (step : ℕ) (p : Option Pending) (s : LoopState) (a : Answer)
      → p ≡ none
      → ((h : History) → w.generate h s.messages ≡ generated a)
      → (h : History) × (obtain_from w cfg step p s
          ≡ next (asked step a s h) (record { response = a; tool_index = none }))
  obtain_from-answer step none s a idle answers =
      let (h, e) = ask-answer step s a answers in (h, rw (e) refl)
  obtain_from-answer step (some p) s a idle answers = absurd (ground arith)

  obtain-answer :
      (step : ℕ) (s : LoopState) (a : Answer)
      → s.pending ≡ none
      → ((h : History) → w.generate h s.messages ≡ generated a)
      → (h : History) × (obtain w cfg step s
          ≡ next (asked step a s h) (record { response = a; tool_index = none }))
  unfolding obtain
  obtain-answer step s a idle answers =
      rw (calm.leased s.history) (obtain_from-answer step s.pending s a idle answers)

  pub terminate-next :
      (s : LoopState)
      → s.termination.gate_fail ≡ 0
      → s.termination.consec_tool_fail ≡ 0
      → s.termination.validation_fail ≡ 0
      → terminate cfg s ≡ next s tt
  unfolding terminate check_termination
  terminate-next s g c v =
      let none_reached : check_termination s.termination cfg.policy ≡ none =
        ground (arith, calm.unbudgeted s.termination.token_used) in
      rw (terminate, none_reached) refl

  -- No failure was counted, and no response is pending.
  pub record Fair (s : LoopState) : Type 0 where
    pub gates : s.termination.gate_fail ≡ 0
    pub tools : s.termination.consec_tool_fail ≡ 0
    pub invalid : s.termination.validation_fail ≡ 0
    pub idle : s.pending ≡ none

  pub read_after :
      (step : ℕ) (s : LoopState) (a : Answer)
      → Fair s
      → ((h : History) → w.generate h s.messages ≡ generated a)
      → (h : History) × (iterate w cfg step s
          ≡ read_response w cfg step
              (record { response = a; tool_index = none })
              (asked step a s h))
  unfolding iterate
  read_after step s a fair answers =
      let (h, e) = obtain-answer step s a fair.idle answers in
      (
        h,
        rw (iterate, e, terminate-next (asked step a s h) fair.gates fair.tools fair.invalid) refl,
      )
