-- ===== src/Orchestration/Commit/Laws.antt =====
-- What the fences of the status writes give.
use magi_system.Prelude.{
  ℕ, Bool, true, false, Option, none, some, List, [], ◌∷◌, ◌≡◌, ◌≢◌, ◌⊎◌, arith, GoError, ltb_ℤ,
  pos, commit_outcome_unknown, errors_is, Bool-cases, Option-cases, inl, inr, refl, is_empty,
  lease_lost,
}
use magi_system.Entity.Case.{CaseStatus, ExecutionContext}
use magi_system.Orchestration.Commit.{
  Answer, done, not_current, broken, unconfirmed, after, fails_with, expected_statuses, Ports,
  committed, DecisionCase, Wrote, is_owned_run, owns_case, advance_status, commit_terminal, fail,
  is_public_terminal,
}

-- The error says that the outcome of a commit is not known.
abbrev pub IsUnknownOutcome : Option GoError → Type 0
IsUnknownOutcome none = ⊥
IsUnknownOutcome (some e) = errors_is e commit_outcome_unknown ≡ true

-- An error and no effect; or exactly one atomic commit by the owner of the case, which is reported
-- either as done or as a commit whose outcome is not known.
abbrev pub AtomicByOwner : DecisionCase → Option ExecutionContext → CaseStatus → Wrote → Type 0
AtomicByOwner c owner to w =
    ((w.effects ≡ []) × (w.err ≢ none))
    ⊎ ((w.effects ≡ committed to ∷ [])
        × (owns_case owner c ≡ true)
        × ((w.err ≡ none) ⊎ IsUnknownOutcome w.err))

-- A commit of the owner, by what the repository answers.
after-AtomicByOwner :
    (c : DecisionCase) (owner : Option ExecutionContext) (to : CaseStatus) (a : Answer)
    → owns_case owner c ≡ true
    → AtomicByOwner c owner to (after a (committed to ∷ []))
unfolding errors_is
after-AtomicByOwner c owner to done h = inr (refl, h, inl refl)
after-AtomicByOwner c owner to not_current h = inl (refl, λ e. ground arith)
after-AtomicByOwner c owner to (broken e) h = inl (refl, λ e. ground arith)
after-AtomicByOwner c owner to (unconfirmed true text) h = inr (refl, h, inr refl)
after-AtomicByOwner c owner to (unconfirmed false text) h = inl (refl, λ e. ground arith)

refused-AtomicByOwner :
    (c : DecisionCase) (owner : Option ExecutionContext) (to : CaseStatus)
    → AtomicByOwner c owner to (fails_with lease_lost)
refused-AtomicByOwner c owner to = inl (refl, λ e. ground arith)

-- In a run with a positive execution generation, of the case or of the owner, a status transition
-- either returns an error and has no effect, or its effect is one atomic commit made by the durable
-- owner of exactly this case and generation. In the second case it returns no error, or the error that
-- the outcome of the commit is not known.
pub advance_status-AtomicByOwner :
    (ports : Ports) (c : DecisionCase) (from : List CaseStatus) (to : CaseStatus) (round : ℕ)
    (owner : Option ExecutionContext)
    → is_owned_run c owner ≡ true
    → AtomicByOwner c owner to (advance_status ports c from to round owner)
unfolding advance_status
advance_status-AtomicByOwner ports c from to round owner h =
    let refused = refused-AtomicByOwner c owner to in
    elim (Bool-cases (is_empty (expected_statuses from))) [
      | inl e ↦ rw e refused
      | inr e ↦ elim (Option-cases ports.owned_committer) [
        | inl n ↦ rw (e, h, n) refused
        | inr (oc, n) ↦ elim (Bool-cases (owns_case owner c)) [
          | inl o ↦
              let held = after-AtomicByOwner c owner to (oc.commit_status_owned to round) o in
              rw (e, h, n, o) (rw o at held)
          | inr o ↦ rw (e, h, n, o) (rw o at refused)
        ]
      ]
    ]

-- The same for a terminal commit: in a run with a positive execution generation it either returns an
-- error and has no effect, or its effect is one atomic commit made by the durable owner of exactly
-- this case and generation; in the second case it returns no error, or the error that the outcome of
-- the commit is not known.
pub commit_terminal-AtomicByOwner :
    (ports : Ports) (c : DecisionCase) (to : CaseStatus) (round : ℕ) (r : Bool)
    (owner : Option ExecutionContext)
    → is_owned_run c owner ≡ true
    → AtomicByOwner c owner to (commit_terminal ports c to round r owner)
unfolding commit_terminal
commit_terminal-AtomicByOwner ports c to round r owner h =
    let refused = refused-AtomicByOwner c owner to in
    elim (Option-cases ports.owned_committer) [
      | inl n ↦ rw (h, n) refused
      | inr (oc, n) ↦ elim (Bool-cases (owns_case owner c)) [
        | inl o ↦
            let held = after-AtomicByOwner c owner to (oc.commit_terminal_owned to round) o in
            rw (h, n, o) (rw o at held)
        | inr o ↦ rw (h, n, o) (rw o at refused)
      ]
    ]

-- A failed orchestration always returns an error. It writes something only if the case is neither in
-- a public terminal status nor managed by a durable worker.
pub fail-guarded :
    (ports : Ports) (c : DecisionCase) (round : ℕ) (cause : GoError)
    → ((fail ports c round cause).err ≢ none)
      × (((fail ports c round cause).effects ≡ [])
          ⊎ ((is_public_terminal c.status ≡ false)
              × (ltb_ℤ (pos 0) c.execution_attempt ≡ false)
              × (ltb_ℤ (pos 0) c.execution_generation ≡ false)))
unfolding fail
fail-guarded ports c round cause = ground arith
