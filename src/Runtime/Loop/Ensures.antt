-- ===== src/Runtime/Loop/Ensures.antt =====
-- What a part of an iteration ensures: one condition where it goes on, another where the run returns.
use magi_system.Prelude.{false, none, ◌≡◌}
use magi_system.Runtime.Result.{is_completed_status}
use magi_system.Runtime.Loop.{LoopState, Ending, Flow, next, stop, ◌>>=◌}

abbrev pub Ensured :
    {A : Type 0} → (LoopState → A → Type 0) → (LoopState → Ending → Type 0) → Flow A → Type 0
Ensured Q E (next s a) = Q s a
Ensured Q E (stop s e) = E s e

pub record Ensures {A : Type 0} (Q : LoopState → A → Type 0) (E : LoopState → Ending → Type 0)
    (m : Flow A) : Type 0 where
  pub it : Ensured Q E m

-- A sequence of two parts.
pub bind-Ensures :
    {A B : Type 0} {Q : LoopState → A → Type 0} {R : LoopState → B → Type 0}
    {E : LoopState → Ending → Type 0} {m : Flow A} {f : LoopState → A → Flow B}
    → Ensures Q E m
    → ((s : LoopState) (a : A) → Q s a → Ensures R E (f s a))
    → Ensures R E (m >>= f)
bind-Ensures {m = next s a} q k = k s a q.it
bind-Ensures {m = stop s e} q k = record { it = q.it }

-- A weaker condition where it goes on.
pub weaken :
    {A : Type 0} {Q R : LoopState → A → Type 0} {E : LoopState → Ending → Type 0} {m : Flow A}
    → Ensures Q E m
    → ((s : LoopState) (a : A) → Q s a → R s a)
    → Ensures R E m
weaken {m = next s a} q k = record { it = k s a q.it }
weaken {m = stop s e} q k = record { it = q.it }

-- The ways a run ends without a vote.
abbrev pub Unvoted : Ending → Type 0
Unvoted e = (e.vote ≡ none) × (is_completed_status e.status ≡ false)
