-- ===== src/Execution/Memory/Race.antt =====
-- The kernel's check of an unknown outcome and the attempt that follows are two steps.
use magi_system.Prelude.{String, true, Option, none, some, ◌≡◌, refl}
use magi_system.Execution.Invocation.{RuntimeInvocation, running, unknown}
use magi_system.Execution.Kernel.{
  Request, Environment, InputMatcher, has_identity, scoped, accepts, execute, invocation_of,
}
use magi_system.Execution.Kernel.Running.{execute_ran}
use magi_system.Execution.Memory.{
  MemoryInvocations, memory_repository, ensure, ensure_at, begin_attempt, begin_at, start, begun,
}
use magi_system.Execution.Memory.Fence.{find}

-- A run that finds its invocation running by another attempt goes on to begin its own. If the other
-- attempt marks the outcome as unknown in between, the executor runs again, whether or not the
-- request is safe to retry, unless the recorder fails.
pub execute_race :
    (digest : String → String) (env : Environment MemoryInvocations) (matcher : Option InputMatcher)
    (req : Request) (s : MemoryInvocations) (i j : RuntimeInvocation)
    → has_identity req.identity ≡ true
    → find s req.identity.invocation_id ≡ some i
    → i.status ≡ running
    → accepts memory_repository digest matcher i (scoped req) ≡ true
    → find (env.meanwhile s) req.identity.invocation_id ≡ some j
    → j.status ≡ unknown
    → env.record_invocation running ≡ none
    → (execute memory_repository digest env matcher req s).ran ≡ true
unfolding invocation_of scoped
execute_race digest env matcher req s i j named found busy same lost unknown_now recorded =
    execute_ran memory_repository digest env matcher req s s
      (start req.identity.invocation_id (scoped req).identity.attempt_id j (env.meanwhile s)).0 i
      (some (begun j)) named (unfold memory_repository ensure ensure_at find in rw found refl) same
      (rw busy refl) (rw busy refl)
      (unfold memory_repository begin_attempt begin_at find start in
        rw (lost, begin_at, unknown_now) refl)
      recorded
