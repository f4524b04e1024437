-- ===== src/Runtime/Loop/Liveness.antt =====
-- An agent that investigates and votes as it is asked completes its run.
use mathlib.Core.Path.{subst}
use magi_system.Prelude.{
  ℕ, suc, ◌+◌, ◌-◌, String, true, false, none, some, [], ◌∷◌, ◌++◌, ◌≡◌, refl, sym, ap, arith,
  if◌then◌else◌,
}
use magi_system.Entity.Evidence.{EvidenceSummary}
use magi_system.Entity.Vote.{Vote}
use magi_system.Evidence.Ledger.{new_evidence_ledger}
use magi_system.Evidence.RoleDecision.{validate_role_decision}
use magi_system.Runtime.Result.{completed}
use magi_system.Runtime.Messages.{
  gather, vote_phase, Answer, assistant, user, gate_passed_vote, gate_passed_reflection,
  reconsider_reflect, reconsider_gather,
}
use magi_system.Runtime.VoteDimensions.{validate_vote_dimensions}
use magi_system.Runtime.Response.{evidence_summary, vote, parse_response, unwrap_function_call}
use magi_system.Runtime.Checkpoints.{History}
use magi_system.Runtime.Loop.{
  AgentWorld, AgentConfig, LoopState, next, stop, commit_checkpoint, generated,
}
use magi_system.Runtime.Loop.Tools.{say}
use magi_system.Runtime.Loop.Responses.{
  Verdict, record_claims, judge, passes, on_summary, on_passed, on_vote, respond,
}
use magi_system.Runtime.Loop.Run.{
  iterate, read_response, loop, run_loop, run_fresh, fresh, max_steps_of,
}
use magi_system.Runtime.Loop.Calm.{Calm, Fair, asked, commit-GoesOn, terminate-next, read_after}

module _ (w : AgentWorld) (cfg : AgentConfig) (calm : Calm w cfg) where
  -- The state after a summary that both gates pass.
  passed : ℕ → Answer → EvidenceSummary → LoopState → History → LoopState
  passed step a summary s h =
      record (say (assistant (unwrap_function_call w.parsers a) ∷ user gate_passed_vote ∷ [])
        (record (asked w cfg calm step a s h) {
          ledger = record_claims summary.claims (judge w cfg summary s.ledger).ledger;
          summary = some summary;
          phase = vote_phase;
        })) { history = h }

  -- Without a debate the vote is asked w cfg calm for next.
  on_passed-vote :
      (step : ℕ) (resp : Answer) (summary : EvidenceSummary) (v : Verdict) (s : LoopState)
      → w.has_debate ≡ false
      → on_passed w cfg step resp summary v s
        ≡ commit_checkpoint w (step + 1) none (
            say (assistant resp ∷ user gate_passed_vote ∷ []) (record s {
              ledger = record_claims summary.claims v.ledger;
              summary = some summary;
              phase = vote_phase;
            }))
  unfolding on_passed
  on_passed-vote step resp summary v s e =
      ap
        (λ b. commit_checkpoint w (step + 1) none (
          say (assistant resp ∷ user (if b then gate_passed_reflection else gate_passed_vote) ∷ [])
            (record s {
              ledger = record_claims summary.claims v.ledger;
              summary = some summary;
              phase = if b then reconsider_reflect else vote_phase;
            })))
        e

  iterate-summary :
      (step : ℕ) (s : LoopState) (a : Answer) (summary : EvidenceSummary)
      → w.has_debate ≡ false
      → Fair w cfg calm s
      → ((h : History) → w.generate h s.messages ≡ generated a)
      → parse_response w.parsers (unwrap_function_call w.parsers a) s.phase
        ≡ evidence_summary summary
      → passes (judge w cfg summary s.ledger) ≡ true
      → (h : History) × (iterate w cfg step s ≡ next (passed step a summary s h) tt)
  unfolding passed on_summary on_passed respond
  iterate-summary step s a summary calm_case fair answers parsed pass =
      let (h, e) = read_after w cfg calm step s a fair answers in
      let resp = unwrap_function_call w.parsers a in
      let (h', e') = commit-GoesOn w cfg calm (step + 1) none (passed step a summary s h) in
      (
        h',
        rw
            (
              e,
              read_response,
              parsed,
              respond,
              on_summary,
              pass,
              on_passed-vote step resp summary (judge w cfg summary s.ledger)
                  (asked w cfg calm step a s h) calm_case,
              e',
            )
            refl,
      )

  iterate-vote :
      (step : ℕ) (s : LoopState) (a : Answer) (v : Vote)
      → Fair w cfg calm s
      → ((h : History) → w.generate h s.messages ≡ generated a)
      → parse_response w.parsers (unwrap_function_call w.parsers a) s.phase ≡ vote v
      → validate_vote_dimensions (some v) cfg.objective ≡ none
      → validate_role_decision w.parsers.floats (some v) s.summary cfg.role_policy cfg.objective
        ≡ none
      → (t : LoopState) × (iterate w cfg step s
          ≡ stop t (record { status = completed; err = none; vote = some v }))
  unfolding respond on_vote
  iterate-vote step s a v fair answers parsed dimensions role =
      let (h, e) = read_after w cfg calm step s a fair answers in
      (
        asked w cfg calm step a s h,
        rw (e, read_response, parsed, respond, on_vote, dimensions, role) refl,
      )

  loop-vote :
      (left step : ℕ) (s : LoopState) (a : Answer) (v : Vote)
      → Fair w cfg calm s
      → ((h : History) → w.generate h s.messages ≡ generated a)
      → parse_response w.parsers (unwrap_function_call w.parsers a) s.phase ≡ vote v
      → validate_vote_dimensions (some v) cfg.objective ≡ none
      → validate_role_decision w.parsers.floats (some v) s.summary cfg.role_policy cfg.objective
        ≡ none
      → (loop w cfg (suc left) step s).1 ≡ record { status = completed; err = none; vote = some v }
  unfolding loop
  loop-vote left step s a v fair answers parsed dimensions role =
      let (t, e) = iterate-vote step s a v fair answers parsed dimensions role in rw (loop, e) refl

  loop-summary :
      (left step : ℕ) (s : LoopState) (a : Answer) (summary : EvidenceSummary)
      → w.has_debate ≡ false
      → Fair w cfg calm s
      → ((h : History) → w.generate h s.messages ≡ generated a)
      → parse_response w.parsers (unwrap_function_call w.parsers a) s.phase
        ≡ evidence_summary summary
      → passes (judge w cfg summary s.ledger) ≡ true
      → (h : History) × (loop w cfg (suc left) step s
          ≡ loop w cfg left (step + 1) (passed step a summary s h))
  unfolding loop
  loop-summary left step s a summary plain fair answers parsed pass =
      let (h, e) = iterate-summary step s a summary plain fair answers parsed pass in
      (h, rw (loop, e) refl)

  -- In a calm world, without a debate, a run with two steps or more completes with the vote: the model
  -- answers the first messages with a summary that both gates pass, and the request for the vote with
  -- a vote that passes its checks.
  pub run_fresh_completes :
      (case_id prompt task : String) (n : ℕ) (first second : Answer) (summary : EvidenceSummary)
      (v : Vote)
      → max_steps_of cfg.policy ≡ suc (suc n)
      → w.has_debate ≡ false
      → ((h : History) → w.generate h (fresh w cfg case_id prompt task).messages ≡ generated first)
      → parse_response w.parsers (unwrap_function_call w.parsers first) gather
        ≡ evidence_summary summary
      → passes (judge w cfg summary (new_evidence_ledger case_id w.run_id cfg.code)) ≡ true
      → ((h : History)
          → w.generate h (
              (fresh w cfg case_id prompt task).messages
              ++ assistant (unwrap_function_call w.parsers first) ∷ user gate_passed_vote ∷ [])
            ≡ generated second)
      → parse_response w.parsers (unwrap_function_call w.parsers second) vote_phase ≡ vote v
      → validate_vote_dimensions (some v) cfg.objective ≡ none
      → validate_role_decision w.parsers.floats
          (some v)
          (some summary)
          cfg.role_policy
          cfg.objective
        ≡ none
      → (run_fresh w cfg case_id prompt task).1
        ≡ record { status = completed; err = none; vote = some v }
  unfolding run_fresh run_loop fresh passed
  run_fresh_completes case_id prompt task n first second summary v steps plain answers parsed pass
        answers' parsed' dimensions role =
      let s = fresh w cfg case_id prompt task in
      let fair : Fair w cfg calm s = record {
        gates = refl;
        tools = refl;
        invalid = refl;
        idle = refl;
      } in
      let gathering : s.phase ≡ gather = ap (λ b. if b then reconsider_gather else gather) plain in
      let parsed_here =
        subst
          (λ p.
            parse_response w.parsers (unwrap_function_call w.parsers first) p
            ≡ evidence_summary summary)
          (sym gathering) parsed in
      let (h, e) = loop-summary (suc n) 1 s first summary plain fair answers parsed_here pass in
      let fair' : Fair w cfg calm (passed 1 first summary s h) = record {
        gates = refl;
        tools = refl;
        invalid = refl;
        idle = refl;
      } in
      let left : suc (max_steps_of cfg.policy) - 1 ≡ suc (suc n) = omega (arith, steps) in
      rw (run_fresh, run_loop, terminate-next w cfg calm s refl refl refl, left, e)
        (loop-vote n 2 (passed 1 first summary s h) second v fair' answers' parsed' dimensions role)
