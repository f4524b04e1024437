-- ===== src/Runtime/Loop/WriteAhead.antt =====
-- What stands in the history of a run with a checkpoint repository: a commit before each effect.
pub mod Effects
pub mod Branches
pub mod Runs
use magi_system.Prelude.{
  ℕ, zero, suc, ◌+◌, ◌≤◌, String, Bool, true, false, Option, none, some, List, [], ◌∷◌, ◌≡◌, refl,
  sym, arith, str_eq, GoError, Option-cases, Bool-cases, inl, inr, ◌⊎◌, get_elem?, drop,
  if◌then◌else◌,
}
use mathlib.Core.Path.{subst, ap}
use magi_system.Runtime.Termination.{check_termination, Ended, ended}
use magi_system.Runtime.Messages.{Answer, ToolCall}
use magi_system.Runtime.Checkpoints.{
  Checkpoint, Pending, Event, History, saved, invoked, summarized, tool_executed,
  CheckpointRepository, commit_for_execution,
}
use magi_system.Runtime.Checkpoints.Laws.{commit_for_execution_cases}
use magi_system.Runtime.Loop.{
  AgentWorld, AgentConfig, LoopState, Ending, Flow, next, stop, ends, committed, commit_encoded,
  commit_checkpoint, checkpoint_of,
}
use magi_system.Runtime.Loop.Ensures.{Ensures, bind-Ensures, weaken}
use magi_system.Runtime.Loop.Tools.{terminate, end_by}

-- The checkpoint names the tool call of its pending response that the ordinal counts.
pub record Names (c : Checkpoint) (step ordinal : ℕ) (call : ToolCall) : Type 0 where
  pub response : Answer
  pub at_step : c.next_step ≡ step
  pub pending : c.pending ≡ some (record { response = response; tool_index = some ordinal })
  pub indexed : get_elem? response.tool_calls ordinal ≡ some call

-- The newest event stored a checkpoint with the property.
abbrev pub Newest : (Checkpoint → Type 0) → History → Type 0
Newest P (saved c ∷ h) = P c
Newest P _ = ⊥

-- Every execution of a tool directly follows the commit of a checkpoint that names the call, and
-- every call of the model, for a response or to compact the history, that of a checkpoint of its step.
abbrev pub WriteAhead : History → Type 0
WriteAhead [] = Unit
WriteAhead (saved c ∷ h) = WriteAhead h
WriteAhead (summarized step ∷ h) = Newest (λ c. c.next_step ≡ step) h × WriteAhead h
WriteAhead (invoked step ∷ h) = Newest (λ c. c.next_step ≡ step) h × WriteAhead h
WriteAhead (tool_executed step ordinal call ∷ h) =
    Newest (λ c. Names c step ordinal call) h × WriteAhead h

-- How often the model was called, for a response or to compact the history.
abbrev pub model_calls : History → ℕ
model_calls [] = 0
model_calls (invoked step ∷ h) = suc (model_calls h)
model_calls (summarized step ∷ h) = suc (model_calls h)
model_calls (saved c ∷ h) = model_calls h
model_calls (tool_executed step ordinal call ∷ h) = model_calls h

-- How often it was called to compact the history.
abbrev pub compaction_calls : History → ℕ
compaction_calls [] = 0
compaction_calls (invoked step ∷ h) = compaction_calls h
compaction_calls (summarized step ∷ h) = suc (compaction_calls h)
compaction_calls (saved c ∷ h) = compaction_calls h
compaction_calls (tool_executed step ordinal call ∷ h) = compaction_calls h

-- How often the history may have been compacted, by the flag of the loop.
abbrev pub allowance : Bool → ℕ
allowance false = 0
allowance true = 1

abbrev pub Bounded : ℕ → LoopState → Type 0
Bounded n s =
    (model_calls s.history ≤ n + compaction_calls s.history)
    × (compaction_calls s.history ≤ allowance s.compacted)

abbrev pub Logged : ℕ → LoopState → Type 0
Logged n s = WriteAhead s.history × Bounded n s

-- A part that calls the model no more.
abbrev pub Quiet : {A : Type 0} → ℕ → Flow A → Type 0
Quiet {A = A} n m = Ensures (λ s (a : A). Logged n s) (λ s e. Logged n s) m

module _ (w : AgentWorld) (cfg : AgentConfig) (named : str_eq w.run_id "" ≡ false)
    (repo : CheckpointRepository) (stored : w.checkpoints.repo ≡ some repo) where
  -- A commit that succeeds changes the history only, and puts its checkpoint there.
  abbrev pub Commits : ℕ → ℕ → Option Pending → LoopState → Flow Unit → Type 0
  Commits n step p s m =
      Ensures (λ s' u. s' ≡ record s { history = saved (checkpoint_of w step p s) ∷ s.history })
        (λ s' e. Logged n s') m

  committed-Commits :
      (n step : ℕ) (p : Option Pending) (s : LoopState) (r : History × Option GoError)
      → Logged n s
      → (r.0 ≡ saved (checkpoint_of w step p s) ∷ s.history)
        ⊎ ((e : GoError) × (r ≡ (s.history, some e)))
      → Commits n step p s (committed s r)
  committed-Commits n step p s (h, none) k (inl eq) = record {
    it = ap (λ x. record s { history = x }) eq;
  }
  committed-Commits n step p s (h, some e) k (inl eq) = record {
    it = subst (λ x. Logged n (record s { history = x })) (sym eq) k;
  }
  committed-Commits n step p s r k (inr (e, eq)) =
      subst (λ x. Commits n step p s (committed s x)) (sym eq) (record { it = k })

  commit_encoded-Commits :
      (n step : ℕ) (p : Option Pending) (s : LoopState) (e : Option GoError)
      → Logged n s
      → Commits n step p s (commit_encoded w (checkpoint_of w step p s) e s)
  commit_encoded-Commits n step p s none k =
      committed-Commits n step p s _ k
        (commit_for_execution_cases w.checkpoints repo w.owner s.history _ stored)
  commit_encoded-Commits n step p s (some e) k = record { it = k }

  pub commit_checkpoint-Commits :
      (n step : ℕ) (p : Option Pending) (s : LoopState)
      → Logged n s
      → Commits n step p s (commit_checkpoint w step p s)
  unfolding commit_checkpoint
  commit_checkpoint-Commits n step p s k = elim (Bool-cases (w.lease_gone s.history)) [
    | inl l ↦ rw (named, l) (record { it = k })
    | inr l ↦
        let c = checkpoint_of w step p s in
        rw (named, l) (commit_encoded-Commits n step p s (w.marshal_error c) k)
  ]

  -- A commit whose checkpoint nothing asks for.
  pub commit_checkpoint-Quiet :
      (n step : ℕ) (p : Option Pending) (s : LoopState)
      → Logged n s
      → Quiet n (commit_checkpoint w step p s)
  commit_checkpoint-Quiet n step p s k =
      weaken (commit_checkpoint-Commits n step p s k) (λ s' u eq. subst (Logged n) (sym eq) k)

  end_by-Quiet : (n : ℕ) (e : Option Ended) (s : LoopState) → Logged n s → Quiet n (end_by e s)
  end_by-Quiet n none s k = record { it = k }
  end_by-Quiet n (some (ended status m)) s k = record { it = k }

  pub terminate-Quiet : (n : ℕ) (s : LoopState) → Logged n s → Quiet n (terminate cfg s)
  unfolding terminate
  terminate-Quiet n s k = end_by-Quiet n _ s k
