-- ===== src/Execution/Invocation.antt =====
-- The invocation journal of backend/domain/entity/execution.go, and the port
-- `RuntimeInvocationRepository` (backend/domain/port/execution.go) as an interface. Time stamps are
-- left out; byte sequences are texts.
use magi_system.Prelude.{ℕ, ℤ, String, Bool, true, false, Option, none, some, ◌≡◌, ◌⊎◌}

pub data InvocationStatus : Type 0 where
  pending running succeeded failed unknown : InvocationStatus
  other_status : String → InvocationStatus

pub record ExecutionIdentity : Type 0 where
  pub run_id : String
  pub step_id : String
  pub invocation_id : String
  pub attempt_id : String

-- `none` is the nil pointer of the idempotency key.
pub record RuntimeInvocation : Type 0 where
  pub invocation_id : String
  pub run_id : String
  pub step_id : String
  pub kind : String
  pub logical_ordinal : ℤ
  pub status : InvocationStatus
  pub attempt_count : ℕ
  pub operation_name : String
  pub retry_safety : String
  pub idempotency_key : Option String
  pub input_digest : String
  pub input_json : String
  pub output_json : String
  pub error : String

pub record RuntimeInvocationAttempt : Type 0 where
  pub attempt_id : String
  pub invocation_id : String
  pub attempt_no : ℕ
  pub status : InvocationStatus

abbrev pub is_succeeded : InvocationStatus → Bool
is_succeeded succeeded = true
is_succeeded _ = false

abbrev pub is_unknown : InvocationStatus → Bool
is_unknown unknown = true
is_unknown _ = false

-- The answer of a call of the repository, or the text of its error.
pub data Answer {ℓ} (A : Type ℓ) : Type ℓ where
  answered : A → Answer A
  call_failed : String → Answer A

-- Each call takes the state of the journal and returns the next one. The arguments are the invocation
-- id, the attempt id, and the output or the reason.
pub record InvocationRepository (S : Type 0) : Type 0 where
  pub ensure : RuntimeInvocation → S → S × Answer (Option RuntimeInvocation)
  pub begin_attempt : String → String → S → S × Answer (Option RuntimeInvocation × Bool)
  pub complete : String → String → String → S → S × Answer Bool
  pub fail : String → String → String → S → S × Answer Bool
  pub mark_unknown : String → String → String → S → S × Answer Bool

-- What an attempt that holds an invocation sees of it.
pub record Holds {S : Type 0} (find : S → String → Option RuntimeInvocation)
    (owner : S → String → Option String) (s : S) (id attempt : String) : Type 0 where
  pub invocation : RuntimeInvocation
  pub found : find s id ≡ some invocation
  pub is_running : invocation.status ≡ running
  pub owned : owner s id ≡ some attempt

-- How a settled invocation reads.
pub record Settled {S : Type 0} (find : S → String → Option RuntimeInvocation) (s : S) (id : String)
    (status : InvocationStatus) (output : String) : Type 0 where
  pub invocation : RuntimeInvocation
  pub found : find s id ≡ some invocation
  pub reads : invocation.status ≡ status
  pub holds_output : invocation.output_json ≡ output

-- A call that ends the attempt either fails, or wins and leaves the invocation in that status.
abbrev pub Wins :
    {S : Type 0}
    → (S → String → Option RuntimeInvocation)
    → String
    → InvocationStatus
    → String
    → S × Answer Bool
    → Type 0
Wins find id status output (s, call_failed e) = Unit
Wins find id status output (s, answered won) = (won ≡ true) × Settled find s id status output

-- Ensuring answers what the journal holds, and an invocation that it held already is as before.
abbrev pub Ensures :
    {S : Type 0}
    → (S → String → Option RuntimeInvocation)
    → S
    → String
    → S × Answer (Option RuntimeInvocation)
    → Type 0
Ensures find s id (t, call_failed e) = Unit
Ensures find s id (t, answered none) = ⊥
Ensures find s id (t, answered (some i)) =
    (find t id ≡ some i) × ((find s id ≡ none) ⊎ (find s id ≡ some i))

-- An attempt that has won holds its invocation.
abbrev pub Begins :
    {S : Type 0}
    → (S → String → Option RuntimeInvocation)
    → (S → String → Option String)
    → String
    → String
    → S × Answer (Option RuntimeInvocation × Bool)
    → Type 0
Begins find owner id attempt (t, call_failed e) = Unit
Begins find owner id attempt (t, answered (i, false)) = Unit
Begins find owner id attempt (t, answered (i, true)) = Holds find owner t id attempt

-- The contract of the port: a journal with an owner for each running invocation.
pub record IsFenced {S : Type 0} (repo : InvocationRepository S) : Type 1 where
  pub find : S → String → Option RuntimeInvocation
  pub owner : S → String → Option String
  -- What the other attempts may do to the journal.
  pub Others : String → S → S → Type 0
  pub ensures : (i : RuntimeInvocation) (s : S) → Ensures find s i.invocation_id (repo.ensure i s)
  pub begins :
      (id attempt : String) (s : S) → Begins find owner id attempt (repo.begin_attempt id attempt s)
  pub keeps :
      (id attempt : String) (s t : S)
      → Others attempt s t
      → Holds find owner s id attempt
      → Holds find owner t id attempt
  pub completes :
      (id attempt output : String) (s : S)
      → Holds find owner s id attempt
      → Wins find id succeeded output (repo.complete id attempt output s)
  pub fails :
      (id attempt reason : String) (s : S)
      → Holds find owner s id attempt
      → Wins find id failed "" (repo.fail id attempt reason s)
  pub marks :
      (id attempt reason : String) (s : S)
      → Holds find owner s id attempt
      → Wins find id unknown "" (repo.mark_unknown id attempt reason s)
