-- ===== src/Execution/Examples.antt =====
-- One request against the in-memory journal: run, replayed, and run again after a race.
use magi_system.Prelude.{pos, true, false, String, none, [], ◌∷◌, ◌≡◌, refl}
use magi_system.Execution.Invocation.{
  RuntimeInvocation, InvocationStatus, running, succeeded, unknown, Settled,
}
use magi_system.Execution.Kernel.{
  Request, Environment, produced, retry_unsafe, execute, scoped, has_identity, accepts,
}
use magi_system.Execution.Kernel.Replay.{Replays, execute-Replays, execute_unsafe}
use magi_system.Execution.Memory.{MemoryInvocations, memory_repository, begin_attempt, finish}
use magi_system.Execution.Memory.Fence.{find, stay, began, memory_repository-IsFenced}
use magi_system.Execution.Memory.Stable.{Moves-Settled}
use magi_system.Execution.Memory.Race.{execute_race}

abbrev digest : String → String
digest s = s

abbrev request : Request
request = record {
  identity = record {
    run_id = "run-1";
    step_id = "step-1";
    invocation_id = "inv-1";
    attempt_id = "attempt-1";
  };
  kind = "tool";
  operation_name = "send";
  input = "{}";
  retry_safety = retry_unsafe;
  idempotency_key = "";
  logical_ordinal = pos 0;
}

-- The row of the request, with a status and an output.
abbrev row : InvocationStatus → String → RuntimeInvocation
row status output = record {
  invocation_id = "inv-1";
  run_id = "run-1";
  step_id = "step-1";
  kind = "tool";
  logical_ordinal = pos 0;
  status = status;
  attempt_count = 1;
  operation_name = "send";
  retry_safety = "unsafe";
  idempotency_key = none;
  input_digest = "{}";
  input_json = "{}";
  output_json = output;
  error = "";
}

abbrev journal_of : InvocationStatus → String → MemoryInvocations
journal_of status output = record {
  invocations = ("inv-1", row status output) ∷ [];
  attempts = [];
  current = ("inv-1", "other:inv-1") ∷ [];
}

-- Nobody interferes, and the executor answers.
abbrev quiet : Environment MemoryInvocations
quiet = record {
  meanwhile = λ s. s;
  until_failed = λ s. s;
  executor = λ s. (s, produced "sent");
  record_invocation = λ status. none;
}

-- The other attempt marks the outcome as unknown before this one begins.
abbrev raced : Environment MemoryInvocations
raced = record quiet { meanwhile = λ s. (finish unknown "" "lost" "inv-1" "other:inv-1" s).0 }

execute-Replays_example :
    Replays memory_repository-IsFenced digest
      (row succeeded "sent")
      (execute memory_repository digest quiet none request (journal_of succeeded "sent"))
unfolding has_identity accepts scoped memory_repository-IsFenced find
execute-Replays_example =
    execute-Replays memory_repository-IsFenced digest quiet none request
      (journal_of succeeded "sent") (row succeeded "sent") refl refl refl refl

execute_unsafe_example :
    (execute memory_repository digest quiet none request (journal_of unknown "")).ran ≡ false
unfolding memory_repository-IsFenced find
execute_unsafe_example =
    execute_unsafe memory_repository-IsFenced digest quiet none request (journal_of unknown "")
      (row unknown "") refl refl refl

Moves-Settled_example :
    Settled find
      (begin_attempt "inv-1" "attempt-2" (journal_of succeeded "sent")).0
      "inv-1"
      succeeded
      "sent"
Moves-Settled_example =
    Moves-Settled "inv-1" "sent" (journal_of succeeded "sent")
      (begin_attempt "inv-1" "attempt-2" (journal_of succeeded "sent")).0
      (began "inv-1" "attempt-2" stay)
      (record {
        invocation = row succeeded "sent";
        found = unfold find in refl;
        reads = refl;
        holds_output = refl;
      })

-- An unsafe request runs its executor although the outcome of the other attempt is unknown.
execute_race_example :
    (execute memory_repository digest raced none request (journal_of running "")).ran ≡ true
unfolding has_identity accepts scoped find finish
execute_race_example =
    execute_race digest raced none request (journal_of running "") (row running "")
      (record (row unknown "") { error = "lost" }) refl refl refl refl refl refl refl
