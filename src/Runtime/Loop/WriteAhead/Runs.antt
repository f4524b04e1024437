-- ===== src/Runtime/Loop/WriteAhead/Runs.antt =====
-- The calls of the model and of tools in a whole run.
use magi_system.Prelude.{
  ℕ, zero, suc, ◌+◌, ◌-◌, ◌≤◌, String, Bool, true, false, some, ◌≡◌, arith, str_eq,
}
use magi_system.Runtime.Checkpoints.{CheckpointRepository}
use magi_system.Runtime.Loop.{AgentWorld, AgentConfig, LoopState, Ending, Flow, next, stop}
use magi_system.Runtime.Loop.Run.{iterate}
use magi_system.Runtime.Loop.WriteAhead.{
  WriteAhead, model_calls, compaction_calls, allowance, Logged, Quiet, terminate-Quiet,
}
use magi_system.Runtime.Loop.WriteAhead.Branches.{iterate-Quiet}
use magi_system.Runtime.Loop.Run.{continued, loop, run_loop, run_fresh, fresh, max_steps_of}

continued-Logged :
    (n m : ℕ) (rest : LoopState → LoopState × Ending) (flow : Flow Unit)
    → n ≤ m
    → ((s : LoopState) → Logged n s → Logged m (rest s).0)
    → Quiet n flow
    → Logged m (continued rest flow).0
continued-Logged n m rest (next s u) le after q = after s q.it
continued-Logged n m rest (stop s e) le after q = (q.it.0, (omega (arith, q.it.1.0), q.it.1.1))

module _ (w : AgentWorld) (cfg : AgentConfig) (named : str_eq w.run_id "" ≡ false)
    (repo : CheckpointRepository) (stored : w.checkpoints.repo ≡ some repo) where
  loop-Logged :
      (left step n : ℕ) (s : LoopState) → Logged n s → Logged (n + left) (loop w cfg left step s).0
  unfolding loop
  loop-Logged zero step n s k = (k.0, (omega (arith, k.1.0), k.1.1))
  loop-Logged (suc left) step n s k =
      continued-Logged (suc n) (n + suc left) (λ s. loop w cfg left (step + 1) s)
        (iterate w cfg step s) (omega arith)
        (λ s k.
          let r = loop-Logged left (step + 1) (suc n) s k in (r.0, (omega (arith, r.1.0), r.1.1)))
        (iterate-Quiet w cfg named repo stored step n s k)

  allowance_le : (b : Bool) → allowance b ≤ 1
  allowance_le false = omega arith
  allowance_le true = omega arith

  run_fresh-Logged :
      (case_id prompt task : String)
      → Logged (max_steps_of cfg.policy) (run_fresh w cfg case_id prompt task).0
  unfolding run_fresh run_loop fresh
  run_fresh-Logged case_id prompt task =
      continued-Logged 0 (max_steps_of cfg.policy) _ _ (omega arith)
        (λ s k.
          let r = loop-Logged (suc (max_steps_of cfg.policy) - 1) 1 0 s k in
          (r.0, (omega (arith, r.1.0), r.1.1)))
        (terminate-Quiet w cfg named repo stored 0 _ (tt, (omega arith, omega arith)))

  -- With a run id and a checkpoint repository, a run without a checkpoint calls the model at most once
  -- to compact the history, and apart from that, for a response, at most as often as the bound on its
  -- steps says, which is 12 where the policy has none. Every call of the model, for a response or a
  -- compaction, directly follows the commit of a checkpoint of its step, and every execution of a tool
  -- directly follows the commit of a checkpoint whose pending response and index name the call.
  pub run_fresh-WriteAhead :
      (case_id prompt task : String)
      → WriteAhead (run_fresh w cfg case_id prompt task).0.history
        × (model_calls (run_fresh w cfg case_id prompt task).0.history
            ≤ max_steps_of cfg.policy
              + compaction_calls (run_fresh w cfg case_id prompt task).0.history)
        × (compaction_calls (run_fresh w cfg case_id prompt task).0.history ≤ 1)
  run_fresh-WriteAhead case_id prompt task =
      let (ahead, (calls, compactions)) = run_fresh-Logged case_id prompt task in
      (
        ahead,
        calls,
        omega (arith, compactions, allowance_le (run_fresh w cfg case_id prompt task).0.compacted),
      )
