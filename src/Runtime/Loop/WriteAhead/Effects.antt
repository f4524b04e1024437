-- ===== src/Runtime/Loop/WriteAhead/Effects.antt =====
-- The effects of an iteration of the agent loop, each after its commit.
use magi_system.Prelude.{
  ℕ, suc, ◌+◌, ◌≤◌, Bool, true, false, Option, none, some, ◌≡◌, refl, sym, arith, str_eq, GoError,
  Bool-cases, inl, inr,
}
use mathlib.Core.Path.{subst}
use magi_system.Runtime.Messages.{Answer}
use magi_system.Runtime.Checkpoints.{Pending, CheckpointRepository, invocation_succeeded}
use magi_system.Runtime.Loop.{
  AgentWorld, AgentConfig, LoopState, Flow, next, commit_checkpoint, checkpoint_of, Generated,
  generated, generation_failed,
}
use magi_system.Runtime.Loop.Ensures.{Ensures, bind-Ensures, weaken}
use magi_system.Runtime.Loop.Compaction.{Compacted, unchanged, replaced, wants_compaction}
use magi_system.Runtime.Loop.Model.{
  apply_compaction, compact, check_context, unless_error, receive, accept, ask, obtain_from, obtain,
}
use magi_system.Runtime.Loop.WriteAhead.{
  Newest, Logged, allowance, Quiet, commit_checkpoint-Commits, commit_checkpoint-Quiet,
}

-- The newest event is the commit of the step.
abbrev Prepared : ℕ → ℕ → LoopState → Type 0
Prepared n step s = Logged n s × Newest (λ c. c.next_step ≡ step) s.history

-- At most one call of the model more.
abbrev Asks : {A : Type 0} → ℕ → (LoopState → Type 0) → Flow A → Type 0
Asks {A = A} n P m = Ensures (λ s (a : A). P s) (λ s e. Logged (suc n) s) m

more : (n : ℕ) (s : LoopState) → Logged n s → Logged (suc n) s
more n s (a, (b, c)) = (a, (omega (arith, b), c))

module _ (w : AgentWorld) (cfg : AgentConfig) (named : str_eq w.run_id "" ≡ false)
    (repo : CheckpointRepository) (stored : w.checkpoints.repo ≡ some repo) (step : ℕ) where
  commit-Asks :
      (n : ℕ) (s : LoopState)
      → Logged n s
      → Asks n (Prepared n step) (commit_checkpoint w step none s)
  unfolding checkpoint_of
  commit-Asks n s k =
      weaken (commit_checkpoint-Commits w cfg named repo stored (suc n) step none s (more n s k))
        (λ s' u eq. subst (Prepared n step) (sym eq) (k, refl))

  -- The call of a compaction, in a history that was not compacted before.
  compacted-Bounded :
      (n calls compactions : ℕ) (flag : Bool)
      → flag ≡ false
      → (calls ≤ n + compactions) × (compactions ≤ allowance flag)
      → (suc calls ≤ n + suc compactions) × (suc compactions ≤ 1)
  compacted-Bounded n calls compactions false e (b, c) = (omega (arith, b), omega (arith, c))
  compacted-Bounded n calls compactions true e k = absurd (ground arith)

  apply_compaction-Asks :
      (n : ℕ) (c : Compacted) (s : LoopState)
      → s.compacted ≡ false
      → Prepared n step s
      → Asks n (Prepared n step) (apply_compaction w cfg step c s)
  apply_compaction-Asks n unchanged s e k = record { it = k }
  apply_compaction-Asks n (replaced ms tokens) s e k =
      commit-Asks n _ ((k.1, k.0.0), compacted-Bounded n _ _ s.compacted e k.0.1)

  -- A compaction is asked for only once.
  wants_compaction-first :
      (s : LoopState) → wants_compaction w.parsers.floats cfg s ≡ true → s.compacted ≡ false
  unfolding wants_compaction
  wants_compaction-first s h = ground arith

  compact-Asks :
      (n : ℕ) (s : LoopState) → Prepared n step s → Asks n (Prepared n step) (compact w cfg step s)
  unfolding compact
  compact-Asks n s k = elim (Bool-cases (wants_compaction w.parsers.floats cfg s)) [
    | inl e ↦ rw (e) (apply_compaction-Asks n _ s (wants_compaction-first s e) k)
    | inr e ↦ rw (e) (record { it = k })
  ]

  check_context-Asks :
      (n : ℕ) (e : Option GoError) (s : LoopState)
      → Prepared n step s
      → Asks n (Prepared n step) (check_context w cfg step e s)
  check_context-Asks n none s k = record { it = k }
  check_context-Asks n (some e) s k = record { it = more n s k.0 }

  started-Asks :
      (n : ℕ) (e : Option GoError) (s : LoopState)
      → Prepared n step s
      → Asks n (Prepared n step) (unless_error e s)
  started-Asks n none s k = record { it = k }
  started-Asks n (some e) s k = record { it = more n s k.0 }

  unless_error-Quiet :
      (n : ℕ) (e : Option GoError) (s : LoopState) → Logged n s → Quiet n (unless_error e s)
  unless_error-Quiet n none s k = record { it = k }
  unless_error-Quiet n (some e) s k = record { it = k }

  receive-Quiet :
      (n : ℕ) (g : Generated) (s : LoopState) → Logged n s → Quiet n (receive w cfg step g s)
  receive-Quiet n (generation_failed e) s k = record { it = k }
  receive-Quiet n (generated a) s k =
      bind-Ensures {f = λ s u. next s a}
        (unless_error-Quiet n (w.record_critical s.history (invocation_succeeded step)) s k)
        (λ s _ k. record { it = k })

  accept-Quiet :
      (n : ℕ) (s : LoopState) (resp : Answer) → Logged n s → Quiet n (accept w cfg step s resp)
  accept-Quiet n s resp k =
      bind-Ensures (commit_checkpoint-Quiet w cfg named repo stored n step _ _ k)
        (λ s _ k. record { it = k })

  ask-Quiet : (n : ℕ) (s : LoopState) → Logged n s → Quiet (suc n) (ask w cfg step s)
  unfolding ask
  ask-Quiet n s k =
      bind-Ensures
        (bind-Ensures
          (bind-Ensures
            (bind-Ensures (bind-Ensures (commit-Asks n s k) (λ s _ k. compact-Asks n s k))
              (λ s _ k. check_context-Asks n _ s k))
            (λ s _ k. started-Asks n _ s k))
          (λ s _ k. receive-Quiet (suc n) _ _ ((k.1, k.0.0), (omega (arith, k.0.1.0), k.0.1.1))))
        (λ s resp k. accept-Quiet (suc n) s resp k)

  obtain_from-Quiet :
      (n : ℕ) (p : Option Pending) (s : LoopState)
      → Logged n s
      → Quiet (suc n) (obtain_from w cfg step p s)
  obtain_from-Quiet n (some p) s k = record { it = more n s k }
  obtain_from-Quiet n none s k = bind-Ensures (ask-Quiet n s k) (λ s _ k. record { it = k })

  pub obtain-Quiet : (n : ℕ) (s : LoopState) → Logged n s → Quiet (suc n) (obtain w cfg step s)
  unfolding obtain
  obtain-Quiet n s k = elim (Bool-cases (w.lease_gone s.history)) [
    | inl e ↦ rw (e) (record { it = more n s k })
    | inr e ↦ rw (e) (obtain_from-Quiet n s.pending s k)
  ]
