-- ===== src/Execution/Memory.antt =====
-- `memoryInvocationRepository` of backend/domain/runtime/invocations_memory.go. Each call holds the
-- mutex, so it is one step; the clones that it hands out are values.
pub mod Fence
pub mod Stable
pub mod Race
use magi_system.Prelude.{
  ◌+◌, String, Bool, true, false, not, ◌||◌, Option, none, some, List, [], ◌∷◌, ◌++◌, str_eq,
  if◌then◌else◌,
}
use magi_system.Prelude.Dict.{lookup, insert}
use magi_system.Execution.Invocation.{
  RuntimeInvocation, RuntimeInvocationAttempt, InvocationStatus, pending, running, succeeded,
  failed, unknown, Answer, answered, InvocationRepository,
}

pub record MemoryInvocations : Type 0 where
  pub invocations : List (String × RuntimeInvocation)
  pub attempts : List (String × List RuntimeInvocationAttempt)
  pub current : List (String × String)

unfoldable pub new_memory_invocations : MemoryInvocations
new_memory_invocations = record { invocations = []; attempts = []; current = [] }

abbrev pub may_begin : InvocationStatus → Bool
may_begin pending = true
may_begin failed = true
may_begin unknown = true
may_begin _ = false

abbrev pub is_running : InvocationStatus → Bool
is_running running = true
is_running _ = false

-- `m[key]` of a map to slices or to texts: the zero value for a missing key.
abbrev listed {ℓ} : {A : Type ℓ} → Option (List A) → List A
listed none = []
listed (some xs) = xs

abbrev text_or_empty : Option String → String
text_or_empty none = ""
text_or_empty (some text) = text

-- `Ensure`, by what the map holds under the id.
ensure_at :
    Option RuntimeInvocation
    → RuntimeInvocation
    → MemoryInvocations
    → MemoryInvocations × Answer (Option RuntimeInvocation)
unfolding insert
ensure_at none i s =
    (record s { invocations = insert i.invocation_id i s.invocations }, answered (some i))
ensure_at (some existing) i s = (s, answered (some existing))

unfoldable pub ensure :
    RuntimeInvocation → MemoryInvocations → MemoryInvocations × Answer (Option RuntimeInvocation)
unfolding lookup ensure_at
ensure i s = ensure_at (lookup i.invocation_id s.invocations) i s

-- `Get`
unfoldable pub get : String → MemoryInvocations → Option RuntimeInvocation
unfolding lookup
get id s = lookup id s.invocations

begun : RuntimeInvocation → RuntimeInvocation
begun i = record i { status = running; attempt_count = i.attempt_count + 1 }

-- `BeginAttempt` of an invocation that is there.
start :
    String
    → String
    → RuntimeInvocation
    → MemoryInvocations
    → MemoryInvocations × Answer (Option RuntimeInvocation × Bool)
unfolding lookup insert begun
start id attempt i s = (
  record {
    invocations = insert id (begun i) s.invocations;
    current = insert id attempt s.current;
    attempts =
        insert id
          (listed (lookup id s.attempts)
            ++ record {
              attempt_id = attempt;
              invocation_id = id;
              attempt_no = i.attempt_count + 1;
              status = running;
            }
              ∷ [])
          s.attempts;
  },
  answered (some (begun i), true),
)

begin_at :
    Option RuntimeInvocation
    → String
    → String
    → MemoryInvocations
    → MemoryInvocations × Answer (Option RuntimeInvocation × Bool)
unfolding start
begin_at none id attempt s = (s, answered (none, false))
begin_at (some i) id attempt s =
    if may_begin i.status then start id attempt i s else (s, answered (some i, false))

unfoldable pub begin_attempt :
    String
    → String
    → MemoryInvocations
    → MemoryInvocations × Answer (Option RuntimeInvocation × Bool)
unfolding lookup begin_at
begin_attempt id attempt s = begin_at (lookup id s.invocations) id attempt s

-- `finish` of an invocation that is there: only the current attempt of a running one may.
settled_as : InvocationStatus → String → String → RuntimeInvocation → RuntimeInvocation
settled_as status output reason i = record i {
  status = status;
  output_json = output;
  error = reason;
}

finish_at :
    Option RuntimeInvocation
    → InvocationStatus
    → String
    → String
    → String
    → String
    → MemoryInvocations
    → MemoryInvocations × Answer Bool
unfolding lookup insert settled_as
finish_at none status output reason id attempt s = (s, answered false)
finish_at (some i) status output reason id attempt s =
    if not (is_running i.status) || not (str_eq (text_or_empty (lookup id s.current)) attempt)
    then (s, answered false)
    else (
      record s { invocations = insert id (settled_as status output reason i) s.invocations },
      answered true,
    )

-- `finish`
unfoldable pub finish :
    InvocationStatus
    → String
    → String
    → String
    → String
    → MemoryInvocations
    → MemoryInvocations × Answer Bool
unfolding lookup finish_at
finish status output reason id attempt s =
    finish_at (lookup id s.invocations) status output reason id attempt s

-- `Complete`, `Fail` and `MarkUnknown`
unfoldable pub memory_repository : InvocationRepository MemoryInvocations
unfolding ensure begin_attempt finish
memory_repository = record {
  ensure = ensure;
  begin_attempt = begin_attempt;
  complete = λ id attempt output s. finish succeeded output "" id attempt s;
  fail = λ id attempt reason s. finish failed "" reason id attempt s;
  mark_unknown = λ id attempt reason s. finish unknown "" reason id attempt s;
}
