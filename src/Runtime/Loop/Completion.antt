-- ===== src/Runtime/Loop/Completion.antt =====
-- What a run of the agent loop that completes rests on.
use magi_system.Prelude.{
  ℕ, zero, suc, ◌+◌, String, Bool, true, false, ◌&&◌, none, some, List, [], ◌∷◌, ◌≡◌, refl, arith,
  is_empty, Option-cases, inl, inr, if◌then◌else◌,
}
use mathlib.Core.Path.{subst}
use magi_system.Entity.Evidence.{EvidenceSummary}
use magi_system.Entity.Vote.{Vote}
use magi_system.Evidence.Gate.Laws.{Admissible, evaluate-Admissible}
use magi_system.Evidence.Ledger.{EvidenceLedger, recompute_corroboration, new_evidence_ledger}
use magi_system.Evidence.Ledger.Snapshot.Reached.{Reached, created}
use magi_system.Runtime.Loop.Growth.{Extends, same, judged, Extends-Reached}
use magi_system.Evidence.RoleDecision.{validate_role_decision}
use magi_system.Evidence.RoleGate.{validate_role_assessment, RoleViolation}
use magi_system.Runtime.Result.{completed, is_completed_status}
use magi_system.Runtime.Messages.{vote_phase, gather, reconsider_gather}
use magi_system.Runtime.Checkpoints.{Pending}
use magi_system.Runtime.VoteDimensions.Laws.{Scored, validate_vote_dimensions-Scored}
use magi_system.Runtime.Response.{unwrap_function_call, parse_response}
use magi_system.Runtime.Response.Laws.{parse_response-Admitted}
use magi_system.Runtime.Loop.{AgentWorld, AgentConfig, LoopState, Ending, Flow, next, stop}
use magi_system.Runtime.Loop.Ensures.{bind-Ensures}
use magi_system.Runtime.Loop.Responses.{standard, has_tools, judge}
use magi_system.Runtime.Loop.Run.{
  iterate, read_response, loop, continued, run_loop, fresh, run_fresh,
}
use magi_system.Runtime.Loop.Soundness.{
  Verified, Early, Backed, Sound, Closed, Keeps, Concluded, terminate-Keeps, obtain-Keeps,
}
use magi_system.Runtime.Loop.Soundness.Branches.{respond-Keeps}

both_passed :
    (passed : Bool) (violations : List RoleViolation)
    → passed && is_empty violations ≡ true
    → (passed ≡ true) × (violations ≡ [])
both_passed true [] h = (refl, refl)
both_passed true (v ∷ violations) h = absurd (ground arith)
both_passed false violations h = absurd (ground arith)

-- The checks behind the vote of a run of a case: the vote scores the objective, its summary and the
-- role's boundary admit it, and both gates passed the summary against a stage of the run's own ledger,
-- which started as the new ledger of the case, the run and the agent, and of which the ledger at the
-- end is a later stage.
pub record Completed (w : AgentWorld) (cfg : AgentConfig) (case_id : String) (s : LoopState)
    (e : Ending) : Type 0 where
  pub vote : Vote
  pub given : e.vote ≡ some vote
  pub scored : Scored vote cfg.objective
  pub summary : EvidenceSummary
  pub stated : s.summary ≡ some summary
  pub decided :
      validate_role_decision w.parsers.floats
        (some vote)
        (some summary)
        cfg.role_policy
        cfg.objective
      ≡ none
  pub ledger : EvidenceLedger
  pub reached : Reached w.parsers.floats ledger
  pub grew : Extends w (new_evidence_ledger case_id w.run_id cfg.code) ledger
  pub kept : Extends w ledger s.ledger
  pub admissible : Admissible ledger (standard w cfg) cfg.code w.registry summary
  pub assessed :
      validate_role_assessment
        (some summary)
        (some ledger)
        cfg.role_policy
        cfg.objective
        cfg.code
        (has_tools w cfg)
      ≡ []

module _ (w : AgentWorld) (cfg : AgentConfig) (first : EvidenceLedger) where
  read_response-Keeps :
      (step : ℕ) (p : Pending) (s : LoopState)
      → Sound w cfg first s
      → Keeps w cfg first (read_response w cfg step p s)
  read_response-Keeps step p s k =
      let resp = unwrap_function_call w.parsers p.response in
      respond-Keeps w cfg first step (parse_response w.parsers resp s.phase)
        (record p { response = resp }) s (parse_response-Admitted w.parsers resp s.phase) k

  iterate-Keeps :
      (step : ℕ) (s : LoopState) → Sound w cfg first s → Keeps w cfg first (iterate w cfg step s)
  unfolding iterate
  iterate-Keeps step s k = bind-Ensures (obtain-Keeps w cfg first step s k) (λ s p k.
      bind-Ensures {f = λ s u. read_response w cfg step p s} (terminate-Keeps w cfg first s k)
        (λ s _ k. read_response-Keeps step p s k))

  continued-Closed :
      (rest : LoopState → LoopState × Ending) (m : Flow Unit)
      → ((s : LoopState) → Sound w cfg first s → Closed w cfg first (rest s).0 (rest s).1)
      → Keeps w cfg first m
      → Closed w cfg first (continued rest m).0 (continued rest m).1
  continued-Closed rest (next s u) after k = after s k.it
  continued-Closed rest (stop s e) after k = k.it

  loop-Closed :
      (left step : ℕ) (s : LoopState)
      → Sound w cfg first s
      → Closed w cfg first (loop w cfg left step s).0 (loop w cfg left step s).1
  unfolding loop is_completed_status
  loop-Closed zero step s k = (k, refl)
  loop-Closed (suc left) step s k =
      continued-Closed _ (iterate w cfg step s) (loop-Closed left (step + 1))
        (iterate-Keeps step s k)

  run_loop-Closed :
      (start : ℕ) (s : LoopState)
      → Sound w cfg first s
      → Closed w cfg first (run_loop w cfg start s).0 (run_loop w cfg start s).1
  unfolding run_loop
  run_loop-Closed start s k =
      continued-Closed _ _ (loop-Closed _ start) (terminate-Keeps w cfg first s k)

  -- In the vote phase there is a verified summary.
  vote-Verified :
      (s : LoopState)
      → Sound w cfg first s
      → s.phase ≡ vote_phase
      → (summary : EvidenceSummary) × (s.summary ≡ some summary)
        × Verified w cfg first summary s.ledger
  vote-Verified s (r, b) e = elim (Option-cases s.summary) [
    | inl n ↦ absurd (
        subst (λ p. Backed w cfg first p none s.ledger) e
          (subst (λ o. Backed w cfg first s.phase o s.ledger) n b))
    | inr (summary, n) ↦ (summary, n, subst (λ o. Backed w cfg first s.phase o s.ledger) n b)
  ]

module _ (w : AgentWorld) (cfg : AgentConfig) (case_id : String) where
  abbrev new_ledger : EvidenceLedger
  new_ledger = new_evidence_ledger case_id w.run_id cfg.code

  first-Early :
      (debate : Bool) → Early w cfg new_ledger (if debate then reconsider_gather else gather)
  first-Early true = tt
  first-Early false = tt

  fresh-Sound : (prompt task : String) → Sound w cfg new_ledger (fresh w cfg case_id prompt task)
  unfolding fresh
  fresh-Sound prompt task = (same, first-Early w.has_debate)

  -- A vote that passed its checks, with its verified summary spelled out.
  voted-Completed :
      (s : LoopState) (e : Ending) (v : Vote)
      → e.vote ≡ some v
      → Sound w cfg new_ledger s
      → Concluded w cfg new_ledger s (some v) e.status
      → Completed w cfg case_id s e
  unfolding judge
  voted-Completed s e v given k (ok, dimensions, role, phase) =
      let (summary, stated, verified) = vote-Verified w cfg new_ledger s k phase in
      let (passed, empty) = both_passed _ _ verified.passed in
      let rescored = recompute_corroboration w.parsers.floats verified.ledger summary.claims in
      record {
        vote = v;
        given = given;
        scored = (validate_vote_dimensions-Scored v cfg.objective).0 dimensions;
        summary = summary;
        stated = stated;
        decided =
            subst
              (λ o.
                validate_role_decision w.parsers.floats (some v) o cfg.role_policy cfg.objective
                ≡ none)
              stated role;
        ledger = rescored;
        reached =
            Extends-Reached w new_ledger (created case_id w.run_id cfg.code)
              (judged summary verified.grew);
        grew = judged summary verified.grew;
        kept = verified.kept;
        admissible =
            (evaluate-Admissible rescored (standard w cfg) cfg.code w.registry summary).0.0 passed;
        assessed = empty;
      }

  Closed-Completed :
      (s : LoopState) (e : Ending)
      → Closed w cfg new_ledger s e
      → e.status ≡ completed
      → Completed w cfg case_id s e
  unfolding is_completed_status
  Closed-Completed s e (k, c) done = elim (Option-cases e.vote) [
    | inl n ↦
        absurd
          (let wrong = subst (λ o. Concluded w cfg new_ledger s o e.status) n c in ground arith)
    | inr (v, n) ↦
        voted-Completed s e v n k (subst (λ o. Concluded w cfg new_ledger s o e.status) n c)
  ]

  -- A run without a checkpoint that returns the status completed returns a vote. The vote has one
  -- score from 0 to 100 for each dimension of the objective and no other; a summary of the run is
  -- stored with it, for which the role's decision boundary lets the vote through; and the evidence
  -- gate and the role gate passed this summary against a stage of the run's own ledger. This stage was
  -- reached from the new ledger of this case, run and agent, by recording what the tool runtime
  -- returned as evidence, by claims and by recomputing scores, and the ledger at the end was reached
  -- from it in the same way.
  pub run_fresh-Completed :
      (prompt task : String)
      → (run_fresh w cfg case_id prompt task).1.status ≡ completed
      → Completed w cfg case_id
          (run_fresh w cfg case_id prompt task).0
          (run_fresh w cfg case_id prompt task).1
  unfolding run_fresh
  run_fresh-Completed prompt task = Closed-Completed _ _ (
      run_loop-Closed w cfg new_ledger 1 (fresh w cfg case_id prompt task)
        (fresh-Sound prompt task))
