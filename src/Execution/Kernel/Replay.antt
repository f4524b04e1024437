-- ===== src/Execution/Kernel/Replay.antt =====
-- When `Kernel.execute` does not call the executor again.
use magi_system.Prelude.{
  String, true, false, Option, none, some, ◌≡◌, refl, ◌⊎◌, arith, inl, inr, Bool-cases,
}
use magi_system.Execution.Invocation.{
  RuntimeInvocation, succeeded, unknown, Answer, answered, call_failed, InvocationRepository,
  IsFenced, Ensures,
}
use magi_system.Execution.Kernel.{
  Request, Run, Environment, InputMatcher, returned, refused, invocation_repository, cached_result,
  has_identity, scoped, accepts, may_retry_unknown, execute, admit, proceed, invocation_of,
}

module _ {S : Type 0} {repo : InvocationRepository S} (contract : IsFenced repo)
    (digest : String → String) where
  open contract use {find}

  -- The executor is not called, and the journalled output is returned, unless the journal itself
  -- fails.
  pub record Replays (i : RuntimeInvocation) (r : Run S) : Type 0 where
    pub not_run : r.ran ≡ false
    pub answers :
        (r.result ≡ returned (cached_result i))
        ⊎ ((text : String) × (r.result ≡ refused (invocation_repository "ensure invocation" text)))

  admit-Replays :
      (env : Environment S) (matcher : Option InputMatcher) (req : Request) (s : S) (id : String)
      (i : RuntimeInvocation) (e : S × Answer (Option RuntimeInvocation))
      → find s id ≡ some i
      → i.status ≡ succeeded
      → accepts repo digest matcher i req ≡ true
      → Ensures find s id e
      → Replays i (admit repo digest env matcher req e)
  unfolding admit proceed
  admit-Replays env matcher req s id i (t, call_failed text) found done same known = record {
    not_run = refl;
    answers = inr (text, refl);
  }
  admit-Replays env matcher req s id i (t, answered none) found done same known = absurd known
  admit-Replays env matcher req s id i (t, answered (some j)) found done same (held, earlier) =
      let eq : j ≡ i = ground arith in
      record { not_run = ground arith; answers = inl (ground arith) }

  -- An invocation that the journal holds as succeeded is replayed: for a request that it matches, the
  -- executor is not called and the journalled output is returned, or the journal's own error.
  pub execute-Replays :
      (env : Environment S) (matcher : Option InputMatcher) (req : Request) (s : S)
      (i : RuntimeInvocation)
      → has_identity req.identity ≡ true
      → find s req.identity.invocation_id ≡ some i
      → i.status ≡ succeeded
      → accepts repo digest matcher i (scoped req) ≡ true
      → Replays i (execute repo digest env matcher req s)
  unfolding execute
  execute-Replays env matcher req s i named found done same = rw named (
      admit-Replays env matcher (scoped req) s req.identity.invocation_id i
        (repo.ensure (invocation_of repo digest (scoped req)) s) found done same
        (contract.ensures (invocation_of repo digest (scoped req)) s))

  admit-refuses :
      (env : Environment S) (matcher : Option InputMatcher) (req : Request) (s : S) (id : String)
      (i : RuntimeInvocation) (e : S × Answer (Option RuntimeInvocation))
      → find s id ≡ some i
      → i.status ≡ unknown
      → may_retry_unknown req.retry_safety ≡ false
      → Ensures find s id e
      → (admit repo digest env matcher req e).ran ≡ false
  unfolding admit proceed
  admit-refuses env matcher req s id i (t, call_failed text) found lost unsafe known = refl
  admit-refuses env matcher req s id i (t, answered none) found lost unsafe known = refl
  admit-refuses env matcher req s id i (t, answered (some j)) found lost unsafe (held, earlier) =
      let eq : j ≡ i = ground arith in ground arith

  -- A request that is not safe to retry does not run the executor where the journal holds the
  -- invocation's outcome as unknown when `execute` starts.
  pub execute_unsafe :
      (env : Environment S) (matcher : Option InputMatcher) (req : Request) (s : S)
      (i : RuntimeInvocation)
      → find s req.identity.invocation_id ≡ some i
      → i.status ≡ unknown
      → may_retry_unknown req.retry_safety ≡ false
      → (execute repo digest env matcher req s).ran ≡ false
  unfolding execute
  execute_unsafe env matcher req s i found lost unsafe =
      elim (Bool-cases (has_identity req.identity)) [
        | inr e ↦ rw e refl
        | inl e ↦ rw e (
            admit-refuses env matcher (scoped req) s req.identity.invocation_id i
              (repo.ensure (invocation_of repo digest (scoped req)) s) found lost unsafe
              (contract.ensures (invocation_of repo digest (scoped req)) s))
      ]
