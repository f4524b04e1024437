-- ===== src/Execution/Kernel/Running.antt =====
-- When `Kernel.execute` calls the executor.
use mathlib.Core.Path.{subst}
use magi_system.Prelude.{String, Bool, true, false, not, ◌&&◌, Option, none, some, ◌≡◌, refl, sym}
use magi_system.Execution.Invocation.{
  RuntimeInvocation, running, is_succeeded, is_unknown, Answer, answered, call_failed,
  InvocationRepository,
}
use magi_system.Execution.Kernel.{
  Request, Environment, InputMatcher, Outcome, produced, outcome_unknown, executor_failed,
  ExecutionError, has_identity, scoped, accepts, may_retry_unknown, execute, admit, proceed,
  attempt, settle, settle_output, settle_error, invocation_of,
}

module _ {S : Type 0} (repo : InvocationRepository S) (digest : String → String) where
  settle_output_ran :
      (output : String) (rec : Option String) (a : S × Answer Bool)
      → (settle_output repo digest output rec a).ran ≡ true
  unfolding settle_output
  settle_output_ran output rec (s, call_failed text) = refl
  settle_output_ran output rec (s, answered false) = refl
  settle_output_ran output none (s, answered true) = refl
  settle_output_ran output (some text) (s, answered true) = refl

  settle_error_ran :
      (call recording : String) (e : ExecutionError) (rec : Option String) (a : S × Answer Bool)
      → (settle_error repo digest call recording e rec a).ran ≡ true
  unfolding settle_error
  settle_error_ran call recording e rec (s, call_failed text) = refl
  settle_error_ran call recording e rec (s, answered false) = refl
  settle_error_ran call recording e rec (s, answered true) = refl

  settle_ran :
      (env : Environment S) (req : Request) (a : S × Outcome)
      → (settle repo digest env req a).ran ≡ true
  unfolding settle
  settle_ran env req (s, produced output) = settle_output_ran _ _ _
  settle_ran env req (s, outcome_unknown text) = settle_error_ran _ _ _ _ _
  settle_ran env req (s, executor_failed text) = settle_error_ran _ _ _ _ _

  attempt_ran :
      (env : Environment S) (req : Request) (u : S) (j : Option RuntimeInvocation)
      (a : S × Answer (Option RuntimeInvocation × Bool))
      → a ≡ (u, answered (j, true))
      → env.record_invocation running ≡ none
      → (attempt repo digest env req a).ran ≡ true
  unfolding attempt
  attempt_ran env req u j a begun recorded =
      subst (λ x. (attempt repo digest env req x).ran ≡ true) (sym begun)
        (rw (attempt, recorded) (settle_ran env req (env.executor u)))

  proceed_ran :
      (env : Environment S) (req : Request) (i : RuntimeInvocation) (t u : S)
      (j : Option RuntimeInvocation)
      → is_succeeded i.status ≡ false
      → (is_unknown i.status && not (may_retry_unknown req.retry_safety)) ≡ false
      → repo.begin_attempt req.identity.invocation_id req.identity.attempt_id (env.meanwhile t)
        ≡ (u, answered (j, true))
      → env.record_invocation running ≡ none
      → (proceed repo digest env req i t).ran ≡ true
  unfolding proceed
  proceed_ran env req i t u j open_still allowed begun recorded =
      rw (proceed, open_still, allowed) (attempt_ran env req u j _ begun recorded)

  admit_ran :
      (env : Environment S) (matcher : Option InputMatcher) (req : Request) (i : RuntimeInvocation)
      (t : S) (a : S × Answer (Option RuntimeInvocation))
      → a ≡ (t, answered (some i))
      → accepts repo digest matcher i req ≡ true
      → (proceed repo digest env req i t).ran ≡ true
      → (admit repo digest env matcher req a).ran ≡ true
  unfolding admit
  admit_ran env matcher req i t a ensured same ran =
      subst (λ x. (admit repo digest env matcher req x).ran ≡ true) (sym ensured)
        (rw (admit, same) ran)

  -- The invocation is admitted, its attempt wins, and the recording succeeds.
  pub execute_ran :
      (env : Environment S) (matcher : Option InputMatcher) (req : Request) (s t u : S)
      (i : RuntimeInvocation) (j : Option RuntimeInvocation)
      → has_identity req.identity ≡ true
      → repo.ensure (invocation_of repo digest (scoped req)) s ≡ (t, answered (some i))
      → accepts repo digest matcher i (scoped req) ≡ true
      → is_succeeded i.status ≡ false
      → (is_unknown i.status && not (may_retry_unknown req.retry_safety)) ≡ false
      → repo.begin_attempt
          (scoped req).identity.invocation_id
          (scoped req).identity.attempt_id
          (env.meanwhile t)
        ≡ (u, answered (j, true))
      → env.record_invocation running ≡ none
      → (execute repo digest env matcher req s).ran ≡ true
  unfolding execute
  execute_ran env matcher req s t u i j named ensured same open_still allowed begun recorded =
      rw named (
        admit_ran env matcher (scoped req) i t _ ensured same
          (proceed_ran env (scoped req) i t u j open_still allowed begun recorded))
