-- ===== src/Execution/Kernel/Unrun.antt =====
-- What a run of the kernel that does not call the executor leaves as it was.
use magi_system.Prelude.{
  String, Bool, true, false, not, ◌&&◌, Option, none, some, ◌≡◌, ◌⊎◌, inl, inr, refl, ◌∙◌,
  Bool-cases, Option-cases,
}
use magi_system.Execution.Invocation.{
  RuntimeInvocation, Answer, answered, call_failed, InvocationRepository, running, is_succeeded,
  is_unknown,
}
use magi_system.Execution.Kernel.{
  Request, Run, Environment, InputMatcher, execute, admit, proceed, attempt, give_up, settle,
  settle_error, settle_output, has_identity, scoped, accepts, may_retry_unknown, Outcome, produced,
  outcome_unknown, executor_failed,
}

module _ {S X : Type 0} (repo : InvocationRepository S) (digest : String → String) (seen : S → X)
    (ensures : (i : RuntimeInvocation) (s : S) → seen (repo.ensure i s).0 ≡ seen s)
    (begins : (id a : String) (s : S) → seen (repo.begin_attempt id a s).0 ≡ seen s)
    (fails : (id a reason : String) (s : S) → seen (repo.fail id a reason s).0 ≡ seen s)
    (env : Environment S) (waits : (s : S) → seen (env.meanwhile s) ≡ seen s)
    (gives : (s : S) → seen (env.until_failed s) ≡ seen s) where
  -- The executor was called, or what is seen of the journal is as before.
  abbrev pub Unchanged : S → Run S → Type 0
  Unchanged s run = (run.ran ≡ true) ⊎ (seen run.journal ≡ seen s)

  give_up-Unchanged :
      (s : S) (text : String) (r : S × Answer Bool)
      → seen r.0 ≡ seen s
      → Unchanged s (give_up repo digest text r)
  unfolding give_up
  give_up-Unchanged s text (t, call_failed e) k = inr k
  give_up-Unchanged s text (t, answered false) k = inr k
  give_up-Unchanged s text (t, answered true) k = inr k

  settle_error-ran :
      (call recording : String) (e : _) (o : Option String) (r : S × Answer Bool)
      → (settle_error repo digest call recording e o r).ran ≡ true
  unfolding settle_error
  settle_error-ran call recording e o (t, call_failed text) = refl
  settle_error-ran call recording e o (t, answered false) = refl
  settle_error-ran call recording e o (t, answered true) = refl

  settle_output-ran :
      (output : String) (o : Option String) (r : S × Answer Bool)
      → (settle_output repo digest output o r).ran ≡ true
  unfolding settle_output
  settle_output-ran output o (t, call_failed text) = refl
  settle_output-ran output o (t, answered false) = refl
  settle_output-ran output none (t, answered true) = refl
  settle_output-ran output (some text) (t, answered true) = refl

  settle-ran : (req : Request) (r : S × Outcome) → (settle repo digest env req r).ran ≡ true
  unfolding settle
  settle-ran req (t, produced output) = settle_output-ran output _ _
  settle-ran req (t, outcome_unknown text) = settle_error-ran _ _ _ _ _
  settle-ran req (t, executor_failed text) = settle_error-ran _ _ _ _ _

  attempt-Unchanged :
      (s : S) (req : Request) (r : S × Answer (Option RuntimeInvocation × Bool))
      → seen r.0 ≡ seen s
      → Unchanged s (attempt repo digest env req r)
  unfolding attempt
  attempt-Unchanged s req (t, call_failed e) k = inr k
  attempt-Unchanged s req (t, answered (i, false)) k = inr k
  attempt-Unchanged s req (t, answered (i, true)) k =
      elim (Option-cases (env.record_invocation running)) [
        | inl e ↦ rw (attempt, e) (inl (settle-ran req (env.executor t)))
        | inr (text, e) ↦ rw (attempt, e) (give_up-Unchanged s text _ (fails _ _ _ _ ∙ gives t ∙ k))
      ]

  proceed-Unchanged :
      (s : S) (req : Request) (i : RuntimeInvocation) (t : S)
      → seen t ≡ seen s
      → Unchanged s (proceed repo digest env req i t)
  unfolding proceed
  proceed-Unchanged s req i t k = elim (Bool-cases (is_succeeded i.status)) [
    | inl e ↦ rw (e) (inr k)
    | inr e ↦ elim (Bool-cases (is_unknown i.status && not (may_retry_unknown req.retry_safety))) [
      | inl e' ↦ rw (e, e') (inr k)
      | inr e' ↦ rw (e, e') (attempt-Unchanged s req _ (begins _ _ _ ∙ waits t ∙ k))
    ]
  ]

  admit-Unchanged :
      (matcher : Option InputMatcher) (s : S) (req : Request)
      (r : S × Answer (Option RuntimeInvocation))
      → seen r.0 ≡ seen s
      → Unchanged s (admit repo digest env matcher req r)
  unfolding admit
  admit-Unchanged matcher s req (t, call_failed e) k = inr k
  admit-Unchanged matcher s req (t, answered none) k = inr k
  admit-Unchanged matcher s req (t, answered (some i)) k =
      elim (Bool-cases (accepts repo digest matcher i req)) [
        | inl e ↦ rw (e) (proceed-Unchanged s req i t k)
        | inr e ↦ rw (e) (inr k)
      ]

  pub execute-Unchanged :
      (matcher : Option InputMatcher) (req : Request) (s : S)
      → Unchanged s (execute repo digest env matcher req s)
  unfolding execute
  execute-Unchanged matcher req s = elim (Bool-cases (has_identity req.identity)) [
    | inl e ↦ rw (e) (admit-Unchanged matcher s (scoped req) _ (ensures _ s))
    | inr e ↦ rw (e) (inr refl)
  ]
