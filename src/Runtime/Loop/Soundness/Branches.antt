-- ===== src/Runtime/Loop/Soundness/Branches.antt =====
-- The branches of the agent loop keep its invariant.
use magi_system.Prelude.{
  ℕ, ◌+◌, Bool, true, false, Option, none, some, List, [], ◌∷◌, ◌≡◌, refl, sym, Bool-cases, inl,
  inr, drop,
}
use mathlib.Core.Path.{subst}
use magi_system.Entity.Evidence.{EvidenceSummary}
use magi_system.Entity.Vote.{Vote}
use magi_system.Evidence.Ledger.{EvidenceLedger}
use magi_system.Runtime.Loop.Growth.{same, observed, submitted, judged, accepted}
use magi_system.Evidence.RoleDecision.{RoleDecisionError, validate_role_decision}
use magi_system.Runtime.Result.{is_completed_status}
use magi_system.Runtime.Termination.{reached}
use magi_system.Runtime.Messages.{Phase, vote_phase, reconsider_reflect, Answer, ToolCall}
use magi_system.Runtime.VoteDimensions.{VoteDimensionError, validate_vote_dimensions}
use magi_system.Runtime.Response.{
  ParsedResponse, tool_call, invalid, claim_submission, evidence_summary, reflection, vote,
}
use magi_system.Runtime.Response.Laws.{Admitted}
use magi_system.Runtime.Checkpoints.{Pending, tool_executed, History}
use magi_system.Runtime.Loop.{
  AgentWorld, AgentConfig, LoopState, ToolDefinition, ToolRun, executed, not_executed,
  arguments_invalid, tool_error, approval_rejected,
}
use magi_system.Runtime.Loop.Ensures.{bind-Ensures}
use magi_system.Runtime.Loop.Tools.{
  after_tool, run_known, run_found, run_call, find_tool, count_call, run_calls, refuse_calls,
  finish_calls, heard, answer_tool_calls, is_resumed, start_of,
}
use magi_system.Runtime.Loop.Responses.{
  submit_claims, judge, passes, on_claims, on_refused, on_passed, on_summary, on_reflection,
  on_vote, on_invalid, decide, respond,
}
use magi_system.Runtime.Loop.Soundness.{
  Early, Backed, Sound, grown, Keeps, commit_checkpoint-Keeps, terminate-Keeps,
}

module _ (w : AgentWorld) (cfg : AgentConfig) (first : EvidenceLedger) (step : ℕ) where
  after_tool-Sound :
      (history : History) (phase : Phase) (tc : ToolCall) (td : ToolDefinition) (r : ToolRun)
      (s : LoopState)
      → w.run_tool history phase td tc ≡ r
      → Sound w cfg first s
      → Sound w cfg first (after_tool tc td r s)
  unfolding after_tool
  after_tool-Sound history phase tc td (executed output cs) s e k =
      grown w cfg first s _ (λ l x. observed history phase td tc output cs e x) k
  after_tool-Sound history phase tc td not_executed s e k = k
  after_tool-Sound history phase tc td (arguments_invalid text) s e k = k
  after_tool-Sound history phase tc td (tool_error text) s e k = k
  after_tool-Sound history phase tc td (approval_rejected reason) s e k = k

  run_known-Sound :
      (has_runtime : Bool) (ordinal : ℕ) (tc : ToolCall) (td : ToolDefinition) (s : LoopState)
      → Sound w cfg first s
      → Sound w cfg first (run_known w cfg step has_runtime ordinal tc td s)
  run_known-Sound false ordinal tc td s k = k
  run_known-Sound true ordinal tc td s k =
      after_tool-Sound s.history s.phase tc td (w.run_tool s.history s.phase td tc)
        (record s { history = tool_executed step ordinal tc ∷ s.history }) refl k

  run_found-Sound :
      (ordinal : ℕ) (tc : ToolCall) (found : Option ToolDefinition) (s : LoopState)
      → Sound w cfg first s
      → Sound w cfg first (run_found w cfg step ordinal tc found s)
  run_found-Sound ordinal tc none s k = k
  run_found-Sound ordinal tc (some td) s k = run_known-Sound w.has_tool_runtime ordinal tc td s k

  run_calls-Keeps :
      (resp : Answer) (counted : Bool) (ordinal : ℕ) (tcs : List ToolCall) (s : LoopState)
      → Sound w cfg first s
      → Keeps w cfg first (run_calls w cfg step resp counted ordinal tcs s)
  unfolding run_calls run_call count_call
  run_calls-Keeps resp counted ordinal [] s k = record { it = k }
  run_calls-Keeps resp counted ordinal (tc ∷ tcs) s k =
      bind-Ensures (commit_checkpoint-Keeps w cfg first step _ _ k) (λ s _ k.
        run_calls-Keeps resp false (ordinal + 1) tcs _
          (run_found-Sound ordinal tc (find_tool tc.name w.tools) s k))

  heard-Sound :
      (p : Pending) (s : LoopState) → Sound w cfg first s → Sound w cfg first (heard w cfg step p s)
  heard-Sound p s k = elim (Bool-cases (is_resumed w cfg step p.tool_index)) [
    | inl e ↦ rw (heard, e) k
    | inr e ↦ rw (heard, e) k
  ]

  finish_calls-Keeps :
      (resp : Answer) (s : LoopState)
      → Sound w cfg first s
      → Keeps w cfg first (finish_calls w cfg step resp s)
  unfolding finish_calls
  finish_calls-Keeps resp s k =
      bind-Ensures (commit_checkpoint-Keeps w cfg first (step + 1) none _ k)
        (λ s _ k. terminate-Keeps w cfg first s k)

  answer_tool_calls-Keeps :
      (p : Pending) (s : LoopState)
      → Sound w cfg first s
      → Keeps w cfg first (answer_tool_calls w cfg step p s)
  unfolding answer_tool_calls refuse_calls
  answer_tool_calls-Keeps p s k =
      let start = start_of w cfg step p.tool_index in
      elim (Bool-cases (reached cfg.policy.max_tool_calls s.termination.tool_calls)) [
        | inl e ↦ rw (e) (commit_checkpoint-Keeps w cfg first (step + 1) none _ (heard-Sound p s k))
        | inr e ↦ rw (e) (
            bind-Ensures {f = λ s u. finish_calls w cfg step p.response s}
              (run_calls-Keeps p.response (is_resumed w cfg step p.tool_index) start
                (drop start p.response.tool_calls) (heard w cfg step p s) (heard-Sound p s k))
              (λ s _ k. finish_calls-Keeps p.response s k))
      ]

  on_summary-Keeps :
      (resp : Answer) (summary : EvidenceSummary) (s : LoopState)
      → Sound w cfg first s
      → Keeps w cfg first (on_summary w cfg step resp summary s)
  unfolding on_summary on_refused on_passed judge
  on_summary-Keeps resp summary s (r, b) =
      elim (Bool-cases (passes (judge w cfg summary s.ledger))) [
        | inl e ↦ rw (e) (
            commit_checkpoint-Keeps w cfg first (step + 1) none _ (
              accepted summary.claims (judged summary r),
              record {
                ledger = s.ledger;
                grew = r;
                passed = e;
                kept = accepted summary.claims same;
              },
            ))
        | inr e ↦
            rw (e) (
              terminate-Keeps w cfg first _
                (grown w cfg first s _ (λ l x. judged summary x) (r, b)))
      ]

  -- A summary that backs the reflection backs the vote.
  later :
      (phase : Phase) (summary : Option EvidenceSummary) (l : EvidenceLedger)
      → phase ≡ reconsider_reflect
      → Backed w cfg first phase summary l
      → Backed w cfg first vote_phase summary l
  later phase none l e k = subst (λ p. Early w cfg first p) e k
  later phase (some summary) l e k = k

  decide-Keeps :
      (dimensions : Option VoteDimensionError) (role : Option RoleDecisionError) (resp : Answer)
      (v : Vote) (s : LoopState)
      → dimensions ≡ validate_vote_dimensions (some v) cfg.objective
      → role
        ≡ validate_role_decision w.parsers.floats (some v) s.summary cfg.role_policy cfg.objective
      → s.phase ≡ vote_phase
      → Sound w cfg first s
      → Keeps w cfg first (decide w cfg step dimensions role resp v s)
  unfolding is_completed_status
  decide-Keeps (some e) role resp v s d r h k = record { it = k }
  decide-Keeps none (some e) resp v s d r h k = record { it = k }
  decide-Keeps none none resp v s d r h k = record { it = (k, (refl, sym d, sym r, h)) }

  pub respond-Keeps :
      (pr : ParsedResponse) (p : Pending) (s : LoopState)
      → Admitted w.parsers s.phase pr
      → Sound w cfg first s
      → Keeps w cfg first (respond w cfg step pr p s)
  unfolding respond on_claims on_reflection on_vote on_invalid
  respond-Keeps tool_call p s a k = answer_tool_calls-Keeps p s k
  respond-Keeps invalid p s a k = record { it = k }
  respond-Keeps (claim_submission cs) p s a (r, b) = record {
    it = grown w cfg first s (submit_claims cs s.ledger) (λ l x. submitted cs x) (r, b);
  }
  respond-Keeps (evidence_summary summary) p s a k = on_summary-Keeps p.response summary s k
  respond-Keeps (reflection rf) p s (e, text, ok) (r, b) =
      commit_checkpoint-Keeps w cfg first (step + 1) none _
        (r, later s.phase s.summary s.ledger e b)
  respond-Keeps (vote v) p s (e, text, raw, ok, n) k = decide-Keeps _ _ p.response v s refl refl e k
