-- ===== src/Execution/Memory/Fence.antt =====
-- The in-memory journal meets the contract of the port: an attempt that holds an invocation keeps it
-- until it settles it.
use magi_system.Prelude.{
  String, false, Option, none, some, ◌≡◌, ◌≢◌, refl, arith, inl, inr, Bool-cases, str_eq, eq_iff,
  eq_refl, List, not, ◌||◌,
}
use magi_system.Prelude.Dict.{lookup, insert, lookup-insert}
use magi_system.Execution.Invocation.{
  RuntimeInvocation, InvocationStatus, succeeded, failed, unknown, Holds, Wins, Begins, Ensures,
  IsFenced,
}
use magi_system.Execution.Memory.{
  MemoryInvocations, memory_repository, ensure, ensure_at, begin_attempt, begin_at, start, finish,
  finish_at, settled_as, may_begin, begun, text_or_empty, is_running,
}

unfoldable pub find : MemoryInvocations → String → Option RuntimeInvocation
unfolding lookup
find s id = lookup id s.invocations

unfoldable pub owner : MemoryInvocations → String → Option String
unfolding lookup
owner s id = lookup id s.current

-- What the attempts may do, in any order, if those that satisfy `Allowed` may settle. Ensuring and
-- beginning are open to every attempt.
pub data Moves (Allowed : String → Type 0) (s : MemoryInvocations)
    : MemoryInvocations → Type 0 where
  stay : Moves Allowed s s
  ensured :
      {t : MemoryInvocations} (i : RuntimeInvocation)
      → Moves Allowed s t
      → Moves Allowed s (ensure i t).0
  began :
      {t : MemoryInvocations} (id b : String)
      → Moves Allowed s t
      → Moves Allowed s (begin_attempt id b t).0
  ended :
      {t : MemoryInvocations} (status : InvocationStatus) (output reason id b : String)
      → Allowed b
      → Moves Allowed s t
      → Moves Allowed s (finish status output reason id b t).0

module _ (s : MemoryInvocations) where
  found_at :
      {V : Type 0} (key : String) (v : V) (m : List (String × V))
      → lookup key (insert key v m) ≡ some v
  found_at key v m = ground (arith, lookup-insert key key v m, eq_refl key)

  ensure_at-Ensures :
      (i : RuntimeInvocation) (o : Option RuntimeInvocation)
      → find s i.invocation_id ≡ o
      → Ensures find s i.invocation_id (ensure_at o i s)
  unfolding ensure_at find
  ensure_at-Ensures i none e = (found_at i.invocation_id i s.invocations, inl e)
  ensure_at-Ensures i (some j) e = (e, inr e)

  begin_at-Begins :
      (id a : String) (o : Option RuntimeInvocation) → Begins find owner id a (begin_at o id a s)
  unfolding begin_at
  begin_at-Begins id a none = tt
  begin_at-Begins id a (some i) = elim (Bool-cases (may_begin i.status)) [
    | inr e ↦ rw (e, begin_at) tt
    | inl e ↦
        rw (e, begin_at)
          (unfold start find owner in
            record {
              invocation = begun i;
              found = found_at id (begun i) s.invocations;
              is_running = unfold begun in refl;
              owned = found_at id a s.current;
            })
  ]

  finish_at-Wins :
      (status : InvocationStatus) (output reason id a : String) (o : Option RuntimeInvocation)
      → find s id ≡ o
      → Holds find owner s id a
      → Wins find id status output (finish_at o status output reason id a s)
  unfolding finish_at find owner
  finish_at-Wins status output reason id a none e h = absurd (let f = h.found in ground arith)
  finish_at-Wins status output reason id a (some i) e h =
      let f = h.found in
      let free : (not (is_running i.status) || not (str_eq (text_or_empty (lookup id s.current)) a))
          ≡ false =
        (let o = h.owned in let r = h.is_running in ground (arith, eq_refl a)) in
      rw (free, finish_at)
        (
          refl,
          record {
            invocation = settled_as status output reason i;
            found = found_at id (settled_as status output reason i) s.invocations;
            reads = unfold settled_as in refl;
            holds_output = unfold settled_as in refl;
          },
        )

  -- Each operation of another attempt leaves a held invocation as it is.
  ensure_at-Holds :
      (id a : String) (i : RuntimeInvocation) (o : Option RuntimeInvocation)
      → find s i.invocation_id ≡ o
      → Holds find owner s id a
      → Holds find owner (ensure_at o i s).0 id a
  unfolding ensure_at find owner
  ensure_at-Holds id a i (some j) e h = h
  ensure_at-Holds id a i none e h = record {
    invocation = h.invocation;
    found =
        let f = h.found in
        ground (arith, lookup-insert i.invocation_id id i s.invocations, eq_iff i.invocation_id id);
    is_running = h.is_running;
    owned = h.owned;
  }

  begin_at-Holds :
      (id a other b : String) (o : Option RuntimeInvocation)
      → find s other ≡ o
      → Holds find owner s id a
      → Holds find owner (begin_at o other b s).0 id a
  unfolding begin_at find owner
  begin_at-Holds id a other b none e h = h
  begin_at-Holds id a other b (some i) e h = elim (Bool-cases (may_begin i.status)) [
    | inr idle ↦ rw (idle, begin_at) h
    | inl free ↦
        let different : str_eq other id ≡ false =
          (let f = h.found in let r = h.is_running in ground (arith, eq_iff other id)) in
        rw (free, begin_at)
          (unfold start in
            record {
              invocation = h.invocation;
              found = rw (lookup-insert other id (begun i) s.invocations, different) h.found;
              is_running = h.is_running;
              owned = rw (lookup-insert other id b s.current, different) h.owned;
            })
  ]

  finish_at-Holds :
      (status : InvocationStatus) (output reason id a other b : String)
      (o : Option RuntimeInvocation)
      → b ≢ a
      → find s other ≡ o
      → Holds find owner s id a
      → Holds find owner (finish_at o status output reason other b s).0 id a
  unfolding finish_at find owner
  finish_at-Holds status output reason id a other b none differs e h = h
  finish_at-Holds status output reason id a other b (some i) differs e h =
      elim (Bool-cases
        (not (is_running i.status) || not (str_eq (text_or_empty (lookup other s.current)) b))) [
          | inl refused ↦ rw (refused, finish_at) h
          | inr free ↦
              let different : str_eq other id ≡ false =
                (let f = h.owned in
                  ground (
                    arith,
                    eq_iff other id,
                    eq_iff (text_or_empty (lookup other s.current)) b,
                    differs,
                  )) in
              rw (free, finish_at)
                (record {
                  invocation = h.invocation;
                  found =
                      rw
                        (
                          lookup-insert other id (settled_as status output reason i) s.invocations,
                          different,
                        )
                        h.found;
                  is_running = h.is_running;
                  owned = h.owned;
                })
        ]

pub Moves-Holds :
    (id a : String) (s t : MemoryInvocations)
    → Moves (λ b. b ≢ a) s t
    → Holds find owner s id a
    → Holds find owner t id a
unfolding ensure begin_attempt finish
Moves-Holds id a s t stay h = h
Moves-Holds id a s t (ensured {t = u} i m) h =
    ensure_at-Holds u id a i _ (unfold find in refl) (Moves-Holds id a s u m h)
Moves-Holds id a s t (began {t = u} other b m) h =
    begin_at-Holds u id a other b _ (unfold find in refl) (Moves-Holds id a s u m h)
Moves-Holds id a s t (ended {t = u} status output reason other b differs m) h =
    finish_at-Holds u status output reason id a other b _ differs (unfold find in refl)
      (Moves-Holds id a s u m h)

pub ensure-Ensures :
    (i : RuntimeInvocation) (s : MemoryInvocations) → Ensures find s i.invocation_id (ensure i s)
unfolding ensure find
ensure-Ensures i s = ensure_at-Ensures s i (find s i.invocation_id) refl

pub begin_attempt-Begins :
    (id a : String) (s : MemoryInvocations) → Begins find owner id a (begin_attempt id a s)
unfolding begin_attempt
begin_attempt-Begins id a s = begin_at-Begins s id a _

pub finish-Wins :
    (status : InvocationStatus) (output reason id a : String) (s : MemoryInvocations)
    → Holds find owner s id a
    → Wins find id status output (finish status output reason id a s)
unfolding finish find
finish-Wins status output reason id a s h =
    finish_at-Wins s status output reason id a (find s id) refl h

-- Ensuring answers what is stored; a begun attempt holds its invocation, keeps it through whatever
-- other attempts do, and settles it when it completes, fails or is marked unknown.
unfoldable pub memory_repository-IsFenced : IsFenced memory_repository
unfolding memory_repository
memory_repository-IsFenced = record {
  find = find;
  owner = owner;
  Others = λ a. Moves (λ b. b ≢ a);
  ensures = ensure-Ensures;
  begins = begin_attempt-Begins;
  keeps = Moves-Holds;
  completes = λ id a output s h. finish-Wins succeeded output "" id a s h;
  fails = λ id a reason s h. finish-Wins failed "" reason id a s h;
  marks = λ id a reason s h. finish-Wins unknown "" reason id a s h;
}
