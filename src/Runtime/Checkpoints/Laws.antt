-- ===== src/Runtime/Checkpoints/Laws.antt =====
-- What a commit does to the history.
use magi_system.Prelude.{Option, some, ◌≡◌, ◌⊎◌, inl, inr, refl, ◌∷◌, GoError, Option-cases}
use magi_system.Entity.Case.{ExecutionContext}
use magi_system.Runtime.Checkpoints.{
  CheckpointService, CheckpointRepository, Checkpoint, History, commit_for_execution, saved,
  save_state, commit_in, after_save, durable_owner,
}

-- With a repository, a commit either puts the checkpoint at the head of the history, or reports an
-- error and leaves the history.
pub commit_for_execution_cases :
    (service : CheckpointService) (repo : CheckpointRepository) (owner : Option ExecutionContext)
    (h : History) (state : Checkpoint)
    → service.repo ≡ some repo
    → ((commit_for_execution service owner h state).0 ≡ saved state ∷ h)
      ⊎ ((e : GoError) × (commit_for_execution service owner h state ≡ (h, some e)))
unfolding commit_for_execution commit_in
commit_for_execution_cases service repo owner h state e =
    elim (Option-cases (save_state repo (durable_owner owner) h state)) [
      | inl ok ↦ inl (rw (e, commit_in, ok, after_save) refl)
      | inr (f, bad) ↦ inr (f, rw (e, commit_in, bad, after_save) refl)
    ]
