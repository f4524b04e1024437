-- ===== src/Execution/Memory/Stable.antt =====
-- A success in the in-memory journal is final.
use magi_system.Prelude.{
  String, false, Option, none, some, ◌≡◌, refl, arith, inl, inr, Bool-cases, eq_iff, str_eq, not,
  ◌||◌,
}
use magi_system.Prelude.Dict.{lookup, insert, lookup-insert}
use magi_system.Execution.Invocation.{RuntimeInvocation, InvocationStatus, succeeded, Settled}
use magi_system.Execution.Memory.{
  MemoryInvocations, ensure, ensure_at, begin_attempt, begin_at, start, finish, finish_at,
  settled_as, may_begin, begun, text_or_empty, is_running,
}
use magi_system.Execution.Memory.Fence.{find, Moves, stay, ensured, began, ended}

module _ (s : MemoryInvocations) (id output : String) where
  ensure_at-Settled :
      (i : RuntimeInvocation) (o : Option RuntimeInvocation)
      → find s i.invocation_id ≡ o
      → Settled find s id succeeded output
      → Settled find (ensure_at o i s).0 id succeeded output
  unfolding ensure_at find
  ensure_at-Settled i (some j) e h = h
  ensure_at-Settled i none e h = record {
    invocation = h.invocation;
    found =
        let f = h.found in
        ground (arith, lookup-insert i.invocation_id id i s.invocations, eq_iff i.invocation_id id);
    reads = h.reads;
    holds_output = h.holds_output;
  }

  -- A row that is written is another's, if its status was not `succeeded`.
  written :
      (other : String) (i j : RuntimeInvocation)
      → find s other ≡ some i
      → (i.status ≡ succeeded → ⊥)
      → Settled find s id succeeded output
      → lookup id (insert other j s.invocations) ≡ lookup id s.invocations
  unfolding find
  written other i j e open_still h =
      let different : str_eq other id ≡ false =
        (let f = h.found in let r = h.reads in ground (arith, eq_iff other id, open_still)) in
      rw (lookup-insert other id j s.invocations, different) refl

  begin_at-Settled :
      (other b : String) (o : Option RuntimeInvocation)
      → find s other ≡ o
      → Settled find s id succeeded output
      → Settled find (begin_at o other b s).0 id succeeded output
  unfolding begin_at
  begin_at-Settled other b none e h = h
  begin_at-Settled other b (some i) e h = elim (Bool-cases (may_begin i.status)) [
    | inr idle ↦ rw (idle, begin_at) h
    | inl free ↦
        let same = written other i (begun i) e (λ d. ground arith) h in
        rw (free, begin_at)
          (unfold start find in
            record {
              invocation = h.invocation;
              found = rw same (unfold find in h.found);
              reads = h.reads;
              holds_output = h.holds_output;
            })
  ]

  finish_at-Settled :
      (status : InvocationStatus) (result reason other b : String) (o : Option RuntimeInvocation)
      → find s other ≡ o
      → Settled find s id succeeded output
      → Settled find (finish_at o status result reason other b s).0 id succeeded output
  unfolding finish_at
  finish_at-Settled status result reason other b none e h = h
  finish_at-Settled status result reason other b (some i) e h =
      elim (Bool-cases
        (not (is_running i.status) || not (str_eq (text_or_empty (lookup other s.current)) b))) [
          | inl refused ↦ rw (refused, finish_at) h
          | inr free ↦
              let same =
                written other i (settled_as status result reason i) e (λ d. ground arith) h in
              rw (free, finish_at)
                (unfold find in
                  record {
                    invocation = h.invocation;
                    found = rw same (unfold find in h.found);
                    reads = h.reads;
                    holds_output = h.holds_output;
                  })
        ]

-- Once an invocation has succeeded, no sequence of operations of any attempts, its own among them,
-- changes its status or its output.
pub Moves-Settled :
    (id output : String) (s t : MemoryInvocations)
    → Moves (λ b. Unit) s t
    → Settled find s id succeeded output
    → Settled find t id succeeded output
unfolding ensure begin_attempt finish
Moves-Settled id output s t stay h = h
Moves-Settled id output s t (ensured {t = u} i m) h =
    ensure_at-Settled u id output i _ (unfold find in refl) (Moves-Settled id output s u m h)
Moves-Settled id output s t (began {t = u} other b m) h =
    begin_at-Settled u id output other b _ (unfold find in refl) (Moves-Settled id output s u m h)
Moves-Settled id output s t (ended {t = u} status result reason other b allowed m) h =
    finish_at-Settled u id output status result reason other b _ (unfold find in refl)
      (Moves-Settled id output s u m h)
