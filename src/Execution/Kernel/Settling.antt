-- ===== src/Execution/Kernel/Settling.antt =====
-- What `Kernel.execute` leaves in the journal after it called the executor.
use Prim.Native.String.{◌++◌ as ◌<>◌}
use magi_system.Prelude.{String, false, Option, none, some, ◌≡◌, ◌⊎◌}
use magi_system.Execution.Invocation.{
  succeeded, failed, unknown, InvocationRepository, IsFenced, Settled,
}
use magi_system.Execution.Kernel.{
  Request, Run, Environment, Outcome, produced, outcome_unknown, executor_failed, Outcomes,
  returned, refused, ExecutionError, invocation_repository, invocation_recorder, joined,
  ambiguous_invocation, executor_error, invocation_of,
}

module _ {S : Type 0} {repo : InvocationRepository S} (contract : IsFenced repo)
    (digest : String → String) where
  open contract use {find, owner, Others}

  -- The error of the executor, alone or with that of the recorder.
  abbrev pub Reports : ExecutionError → Outcomes → Type 0
  Reports e result =
      (result ≡ refused e)
      ⊎ ((operation : String) × (text : String) × (result
            ≡ refused (joined e (invocation_recorder operation text))))

  -- What an outcome of the executor that is no output amounts to.
  abbrev pub fault : Outcome → Option ExecutionError
  fault (produced output) = none
  fault (outcome_unknown text) = some (ambiguous_invocation (some text))
  fault (executor_failed text) = some (executor_error text)

  -- The executor's error, if it had one, before the error of the journal.
  abbrev pub Broken : Option ExecutionError → ExecutionError → Outcomes → Type 0
  Broken none e result = result ≡ refused e
  Broken (some first) e result = result ≡ refused (joined first e)

  -- How a run accounts for what the executor did. No case is a lost ownership.
  pub data Accounted (id : String) (o : Outcome) (r : Run S) : Type 0 where
    not_run : r.ran ≡ false → Accounted id o r
    journalled :
        (output : String)
        → o ≡ produced output
        → Settled find r.journal id succeeded output
        → (r.result ≡ returned (record { output = output; cached = false }))
          ⊎ ((text : String) × (r.result
                ≡ refused (invocation_recorder "record succeeded attempt" text)))
        → Accounted id o r
    reported :
        (text : String)
        → o ≡ executor_failed text
        → Settled find r.journal id failed ""
        → Reports (executor_error text) r.result
        → Accounted id o r
    ambiguous :
        (text : String)
        → o ≡ outcome_unknown text
        → Settled find r.journal id unknown ""
        → Reports (ambiguous_invocation (some text)) r.result
        → Accounted id o r
    unsettled :
        (call text : String)
        → Broken (fault o) (invocation_repository call text) r.result
        → Accounted id o r

  -- The journal in which the executor runs, when the invocation was found in the journal `s`.
  abbrev pub started : Environment S → Request → S → S
  started env req s =
      (repo.begin_attempt req.identity.invocation_id req.identity.attempt_id (env.meanwhile s)).0

  -- What the executor does if the request gets that far.
  abbrev pub outcome_of : Environment S → Request → S → Outcome
  outcome_of env req s =
      (env.executor (started env req (repo.ensure (invocation_of repo digest req) s).0)).1
