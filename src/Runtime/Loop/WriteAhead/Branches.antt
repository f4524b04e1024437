-- ===== src/Runtime/Loop/WriteAhead/Branches.antt =====
-- The branches of the agent loop execute a tool only after its commit, and never call the model.
use magi_system.Prelude.{
  ℕ, zero, suc, ◌+◌, Bool, true, false, Option, none, some, List, [], ◌∷◌, ◌≡◌, refl, sym, arith,
  str_eq, Bool-cases, inl, inr, get_elem?, drop,
}
use mathlib.Core.Path.{subst}
use magi_system.Entity.Evidence.{EvidenceSummary}
use magi_system.Entity.Vote.{Vote}
use magi_system.Evidence.RoleDecision.{RoleDecisionError}
use magi_system.Runtime.VoteDimensions.{VoteDimensionError}
use magi_system.Runtime.Termination.{reached}
use magi_system.Runtime.Messages.{Answer, ToolCall}
use magi_system.Runtime.Response.{
  ParsedResponse, tool_call, invalid, claim_submission, evidence_summary, reflection, vote,
}
use magi_system.Runtime.Checkpoints.{Pending, tool_executed, CheckpointRepository}
use magi_system.Runtime.Loop.{
  AgentWorld, AgentConfig, LoopState, commit_checkpoint, checkpoint_of, ToolDefinition, ToolRun,
  executed, not_executed, arguments_invalid, tool_error, approval_rejected,
}
use magi_system.Runtime.Loop.Ensures.{Ensures, bind-Ensures, weaken}
use magi_system.Runtime.Loop.Tools.{
  after_tool, run_known, run_found, run_call, find_tool, count_call, run_calls, refuse_calls,
  finish_calls, heard, answer_tool_calls, is_resumed, start_of,
}
use magi_system.Runtime.Loop.Responses.{
  judge, passes, on_claims, on_refused, on_passed, on_summary, on_reflection, on_vote, on_invalid,
  decide, respond,
}
use magi_system.Runtime.Loop.Run.{read_response, iterate}
use magi_system.Runtime.Loop.WriteAhead.{
  Names, Newest, Logged, Quiet, commit_checkpoint-Commits, commit_checkpoint-Quiet, terminate-Quiet,
}
use magi_system.Runtime.Loop.WriteAhead.Effects.{obtain-Quiet}

drop-indexed {ℓ} :
    {A : Type ℓ} (n : ℕ) (xs : List A) (y : A) (ys : List A)
    → drop n xs ≡ y ∷ ys
    → (get_elem? xs n ≡ some y) × (drop (suc n) xs ≡ ys)
drop-indexed zero [] y ys h = absurd (ground arith)
drop-indexed zero (x ∷ xs) y ys h = ground arith
drop-indexed (suc n) [] y ys h = absurd (ground arith)
drop-indexed (suc n) (x ∷ xs) y ys h = drop-indexed n xs y ys h

-- The newest event is the commit of a tool call.
abbrev Called : ℕ → ℕ → ℕ → ToolCall → LoopState → Type 0
Called n step ordinal tc s = Logged n s × Newest (λ c. Names c step ordinal tc) s.history

after_tool-Logged :
    (n : ℕ) (tc : ToolCall) (td : ToolDefinition) (r : ToolRun) (s : LoopState)
    → Logged n s
    → Logged n (after_tool tc td r s)
unfolding after_tool
after_tool-Logged n tc td (executed output cs) s k = k
after_tool-Logged n tc td not_executed s k = k
after_tool-Logged n tc td (arguments_invalid text) s k = k
after_tool-Logged n tc td (tool_error text) s k = k
after_tool-Logged n tc td (approval_rejected reason) s k = k

module _ (w : AgentWorld) (cfg : AgentConfig) (named : str_eq w.run_id "" ≡ false)
    (repo : CheckpointRepository) (stored : w.checkpoints.repo ≡ some repo) (step : ℕ) where
  run_known-Logged :
      (n : ℕ) (has_runtime : Bool) (ordinal : ℕ) (tc : ToolCall) (td : ToolDefinition)
      (s : LoopState)
      → Called n step ordinal tc s
      → Logged n (run_known w cfg step has_runtime ordinal tc td s)
  run_known-Logged n false ordinal tc td s k = k.0
  run_known-Logged n true ordinal tc td s k =
      after_tool-Logged n tc td (w.run_tool s.history s.phase td tc)
        (record s { history = tool_executed step ordinal tc ∷ s.history }) ((k.1, k.0.0), k.0.1)

  run_found-Logged :
      (n ordinal : ℕ) (tc : ToolCall) (found : Option ToolDefinition) (s : LoopState)
      → Called n step ordinal tc s
      → Logged n (run_found w cfg step ordinal tc found s)
  run_found-Logged n ordinal tc none s k = k.0
  run_found-Logged n ordinal tc (some td) s k =
      run_known-Logged n w.has_tool_runtime ordinal tc td s k

  call_committed :
      (n : ℕ) (resp : Answer) (counted : Bool) (ordinal : ℕ) (tc : ToolCall) (s : LoopState)
      → get_elem? resp.tool_calls ordinal ≡ some tc
      → Logged n s
      → Ensures
          (λ s' (u : Unit). Called n step ordinal tc s')
          (λ s' e. Logged n s')
          (commit_checkpoint w step
            (some (record { response = resp; tool_index = some ordinal }))
            (count_call w cfg step counted ordinal s))
  unfolding count_call checkpoint_of
  call_committed n resp counted ordinal tc s at k =
      weaken (commit_checkpoint-Commits w cfg named repo stored n step _ _ k) (λ s' u eq.
        subst (Called n step ordinal tc) (sym eq)
          (k, record { response = resp; at_step = refl; pending = refl; indexed = at }))

  run_calls-Quiet :
      (n : ℕ) (resp : Answer) (counted : Bool) (ordinal : ℕ) (tcs : List ToolCall) (s : LoopState)
      → drop ordinal resp.tool_calls ≡ tcs
      → Logged n s
      → Quiet n (run_calls w cfg step resp counted ordinal tcs s)
  unfolding run_calls run_call
  run_calls-Quiet n resp counted ordinal [] s from k = record { it = k }
  run_calls-Quiet n resp counted ordinal (tc ∷ tcs) s from k =
      let same : suc ordinal ≡ ordinal + 1 = omega arith in
      let (at, rest) = drop-indexed ordinal resp.tool_calls tc tcs from in
      bind-Ensures (call_committed n resp counted ordinal tc s at k) (λ s _ k.
        run_calls-Quiet n resp false (ordinal + 1) tcs _
          (subst (λ m. drop m resp.tool_calls ≡ tcs) same rest)
          (run_found-Logged n ordinal tc (find_tool tc.name w.tools) s k))

  heard-Logged :
      (n : ℕ) (p : Pending) (s : LoopState) → Logged n s → Logged n (heard w cfg step p s)
  heard-Logged n p s k = elim (Bool-cases (is_resumed w cfg step p.tool_index)) [
    | inl e ↦ rw (heard, e) k
    | inr e ↦ rw (heard, e) k
  ]

  finish_calls-Quiet :
      (n : ℕ) (resp : Answer) (s : LoopState)
      → Logged n s
      → Quiet n (finish_calls w cfg step resp s)
  unfolding finish_calls
  finish_calls-Quiet n resp s k =
      bind-Ensures (commit_checkpoint-Quiet w cfg named repo stored n (step + 1) none _ k)
        (λ s _ k. terminate-Quiet w cfg named repo stored n s k)

  answer_tool_calls-Quiet :
      (n : ℕ) (p : Pending) (s : LoopState)
      → Logged n s
      → Quiet n (answer_tool_calls w cfg step p s)
  unfolding answer_tool_calls refuse_calls
  answer_tool_calls-Quiet n p s k =
      let start = start_of w cfg step p.tool_index in
      elim (Bool-cases (reached cfg.policy.max_tool_calls s.termination.tool_calls)) [
        | inl e ↦ rw (e) (
            commit_checkpoint-Quiet w cfg named repo stored n (step + 1) none _
              (heard-Logged n p s k))
        | inr e ↦ rw (e) (
            bind-Ensures {f = λ s u. finish_calls w cfg step p.response s}
              (run_calls-Quiet n p.response (is_resumed w cfg step p.tool_index) start
                (drop start p.response.tool_calls) (heard w cfg step p s) refl
                (heard-Logged n p s k))
              (λ s _ k. finish_calls-Quiet n p.response s k))
      ]

  on_summary-Quiet :
      (n : ℕ) (resp : Answer) (summary : EvidenceSummary) (s : LoopState)
      → Logged n s
      → Quiet n (on_summary w cfg step resp summary s)
  unfolding on_summary on_refused on_passed
  on_summary-Quiet n resp summary s k = elim (Bool-cases (passes (judge w cfg summary s.ledger))) [
    | inl e ↦ rw (e) (commit_checkpoint-Quiet w cfg named repo stored n (step + 1) none _ k)
    | inr e ↦ rw (e) (terminate-Quiet w cfg named repo stored n _ k)
  ]

  decide-Quiet :
      (n : ℕ) (d : Option VoteDimensionError) (r : Option RoleDecisionError) (resp : Answer)
      (v : Vote) (s : LoopState)
      → Logged n s
      → Quiet n (decide w cfg step d r resp v s)
  decide-Quiet n (some e) r resp v s k = record { it = k }
  decide-Quiet n none (some e) resp v s k = record { it = k }
  decide-Quiet n none none resp v s k = record { it = k }

  respond-Quiet :
      (n : ℕ) (pr : ParsedResponse) (p : Pending) (s : LoopState)
      → Logged n s
      → Quiet n (respond w cfg step pr p s)
  unfolding respond on_claims on_reflection on_vote on_invalid
  respond-Quiet n tool_call p s k = answer_tool_calls-Quiet n p s k
  respond-Quiet n invalid p s k = record { it = k }
  respond-Quiet n (claim_submission cs) p s k = record { it = k }
  respond-Quiet n (evidence_summary summary) p s k = on_summary-Quiet n p.response summary s k
  respond-Quiet n (reflection rf) p s k =
      commit_checkpoint-Quiet w cfg named repo stored n (step + 1) none _ k
  respond-Quiet n (vote v) p s k = decide-Quiet n _ _ p.response v s k

  pub iterate-Quiet : (n : ℕ) (s : LoopState) → Logged n s → Quiet (suc n) (iterate w cfg step s)
  unfolding iterate
  iterate-Quiet n s k = bind-Ensures (obtain-Quiet w cfg named repo stored step n s k) (λ s p k.
      bind-Ensures {f = λ s u. read_response w cfg step p s}
        (terminate-Quiet w cfg named repo stored (suc n) s k)
        (λ s _ k. respond-Quiet (suc n) _ _ s k))
