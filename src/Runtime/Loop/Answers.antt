-- ===== src/Runtime/Loop/Answers.antt =====
-- Every tool call of a response is answered by one tool message, which the model's API requires.
use magi_system.Prelude.{
  ℕ, ◌+◌, Bool, true, false, Option, none, some, List, [], ◌∷◌, ◌++◌, ◌≡◌, refl, sym, ap, ◌∙◌,
  str_eq, GoError, Bool-cases, inl, inr,
}
use mathlib.Core.Path.{subst}
use mathlib.Core.List.{append_assoc, append-nil}
use magi_system.Runtime.Termination.{reached, check_termination, Ended, ended}
use magi_system.Runtime.Messages.{
  Answer, ToolCall, Message, assistant, user, tool, ToolReply, tool_limit_reached,
}
use magi_system.Runtime.Checkpoints.{Pending, History, Checkpoint, tool_executed}
use magi_system.Runtime.Loop.{
  AgentWorld, AgentConfig, LoopState, Flow, next, commit_checkpoint, committed, commit_encoded,
  checkpoint_of, ToolDefinition, ToolRun, executed, not_executed, arguments_invalid, tool_error,
  approval_rejected,
}
use magi_system.Runtime.Loop.Ensures.{Ensures, bind-Ensures, weaken}
use magi_system.Runtime.Loop.Tools.{
  after_tool, run_known, run_found, run_call, find_tool, count_call, run_calls, refuse_calls,
  finish_calls, answer_tool_calls, skipped_calls, terminate, end_by, say,
}

-- One tool message for each call, with its id and in its order.
abbrev pub Replies : List ToolCall → List Message → Type 0
Replies [] [] = Unit
Replies (tc ∷ tcs) (tool reply id ∷ messages) = (id ≡ tc.id) × Replies tcs messages
Replies _ _ = ⊥

-- The history goes on with the response, the answers to its calls, and what is said after them.
pub record Answered (resp : Answer) (before after : List Message) : Type 0 where
  pub replies : List Message
  pub rest : List Message
  pub matched : Replies resp.tool_calls replies
  pub split : after ≡ before ++ assistant resp ∷ (replies ++ rest)

record Appends (tcs : List ToolCall) (before after : List Message) : Type 0 where
  replies : List Message
  matched : Replies tcs replies
  split : after ≡ before ++ replies

-- A part that says nothing.
abbrev Silent : LoopState → Flow Unit → Type 0
Silent s m = Ensures (λ s' (u : Unit). s'.messages ≡ s.messages) (λ s' e. Unit) m

after_tool-tool :
    (tc : ToolCall) (td : ToolDefinition) (r : ToolRun) (s : LoopState)
    → (reply : ToolReply) × ((after_tool tc td r s).messages ≡ s.messages ++ tool reply tc.id ∷ [])
unfolding after_tool
after_tool-tool tc td (executed output cs) s = (_, refl)
after_tool-tool tc td not_executed s = (_, refl)
after_tool-tool tc td (arguments_invalid text) s = (_, refl)
after_tool-tool tc td (tool_error text) s = (_, refl)
after_tool-tool tc td (approval_rejected reason) s = (_, refl)

skipped_calls-Replies :
    (w : AgentWorld) (cfg : AgentConfig) (step : ℕ) (tcs : List ToolCall)
    → Replies tcs (skipped_calls w cfg step tcs)
skipped_calls-Replies w cfg step [] = tt
skipped_calls-Replies w cfg step (tc ∷ tcs) = (refl, skipped_calls-Replies w cfg step tcs)

module _ (w : AgentWorld) (cfg : AgentConfig) (step : ℕ) where
  committed-Silent : (s : LoopState) (r : History × Option GoError) → Silent s (committed s r)
  committed-Silent s (h, none) = record { it = refl }
  committed-Silent s (h, some e) = record { it = tt }

  encoded-Silent :
      (c : Checkpoint) (e : Option GoError) (s : LoopState) → Silent s (commit_encoded w c e s)
  encoded-Silent c none s = committed-Silent s _
  encoded-Silent c (some e) s = record { it = tt }

  commit-Silent :
      (n : ℕ) (p : Option Pending) (s : LoopState) → Silent s (commit_checkpoint w n p s)
  unfolding commit_checkpoint
  commit-Silent n p s = elim (Bool-cases (str_eq w.run_id "")) [
    | inl e ↦ rw (e) (record { it = refl })
    | inr e ↦ elim (Bool-cases (w.lease_gone s.history)) [
      | inl l ↦ rw (e, l) (record { it = tt })
      | inr l ↦ let c = checkpoint_of w n p s in rw (e, l) (encoded-Silent c (w.marshal_error c) s)
    ]
  ]

  end_by-Silent : (e : Option Ended) (s : LoopState) → Silent s (end_by e s)
  end_by-Silent none s = record { it = refl }
  end_by-Silent (some (ended status n)) s = record { it = tt }

  run_known-tool :
      (has_runtime : Bool) (ordinal : ℕ) (tc : ToolCall) (td : ToolDefinition) (s : LoopState)
      → (reply : ToolReply) × ((run_known w cfg step has_runtime ordinal tc td s).messages
          ≡ s.messages ++ tool reply tc.id ∷ [])
  run_known-tool false ordinal tc td s = (_, refl)
  run_known-tool true ordinal tc td s =
      after_tool-tool tc td (w.run_tool s.history s.phase td tc)
        (record s { history = tool_executed step ordinal tc ∷ s.history })

  run_found-tool :
      (ordinal : ℕ) (tc : ToolCall) (found : Option ToolDefinition) (s : LoopState)
      → (reply : ToolReply) × ((run_found w cfg step ordinal tc found s).messages
          ≡ s.messages ++ tool reply tc.id ∷ [])
  run_found-tool ordinal tc none s = (_, refl)
  run_found-tool ordinal tc (some td) s = run_known-tool w.has_tool_runtime ordinal tc td s

  run_calls-Appends :
      (resp : Answer) (counted : Bool) (ordinal : ℕ) (tcs : List ToolCall) (s : LoopState)
      → Ensures
          (λ s' (u : Unit). Appends tcs s.messages s'.messages)
          (λ s' e. Unit)
          (run_calls w cfg step resp counted ordinal tcs s)
  unfolding run_calls run_call count_call
  run_calls-Appends resp counted ordinal [] s = record {
    it = record { replies = []; matched = tt; split = sym (append-nil s.messages) };
  }
  run_calls-Appends resp counted ordinal (tc ∷ tcs) s =
      bind-Ensures (commit-Silent step _ _) (λ t _ same.
        let (reply, said) = run_found-tool ordinal tc (find_tool tc.name w.tools) t in
        weaken (run_calls-Appends resp false (ordinal + 1) tcs _) (λ s' u k. record {
          replies = tool reply tc.id ∷ k.replies;
          matched = (refl, k.matched);
          split =
              k.split
              ∙ ap (λ m. m ++ k.replies) (said ∙ ap (λ m. m ++ tool reply tc.id ∷ []) same)
              ∙ append_assoc s.messages (tool reply tc.id ∷ []) k.replies;
        }))

  finish_calls-Silent : (resp : Answer) (s : LoopState) → Silent s (finish_calls w cfg step resp s)
  unfolding finish_calls terminate
  finish_calls-Silent resp s = bind-Ensures (commit-Silent (step + 1) none _) (λ t _ same.
      weaken (end_by-Silent (check_termination t.termination cfg.policy) t) (λ s' u e. e ∙ same))

  new_response-Answered :
      (resp : Answer) (s : LoopState)
      → Ensures
          (λ s' (u : Unit). Answered resp s.messages s'.messages)
          (λ s' e. Unit)
          (answer_tool_calls w cfg step (record { response = resp; tool_index = none }) s)
  unfolding answer_tool_calls refuse_calls
  new_response-Answered resp s =
      let start = say (assistant resp ∷ []) s in
      elim (Bool-cases (reached cfg.policy.max_tool_calls s.termination.tool_calls)) [
        | inl e ↦ rw (e) (
            weaken (commit-Silent (step + 1) none _) (λ s' u same. record {
              replies = skipped_calls w cfg step resp.tool_calls;
              rest = user (tool_limit_reached cfg.policy.max_tool_calls) ∷ [];
              matched = skipped_calls-Replies w cfg step resp.tool_calls;
              split = same ∙ append_assoc s.messages (assistant resp ∷ []) _;
            }))
        | inr e ↦ rw (e) (
            bind-Ensures {f = λ s u. finish_calls w cfg step resp s}
              (run_calls-Appends resp false 0 resp.tool_calls start)
              (λ t _ k. weaken (finish_calls-Silent resp t) (λ s' u same. record {
                replies = k.replies;
                rest = [];
                matched = k.matched;
                split =
                    same
                    ∙ k.split
                    ∙ append_assoc s.messages (assistant resp ∷ []) k.replies
                    ∙ ap (λ m. s.messages ++ assistant resp ∷ m) (sym (append-nil k.replies));
              })))
      ]

  -- Where the loop goes on after a new response with tool calls, the history is the old one with the
  -- response, one tool message for each of its calls, with the call's id and in the calls' order, and
  -- what is said after them; also where the calls are refused at the limit.
  pub answer_tool_calls-Answered :
      (resp : Answer) (s t : LoopState)
      → answer_tool_calls w cfg step (record { response = resp; tool_index = none }) s ≡ next t tt
      → Answered resp s.messages t.messages
  answer_tool_calls-Answered resp s t e =
      (subst (λ m. Ensures (λ s' (u : Unit). Answered resp s.messages s'.messages) (λ s' e. Unit) m)
        e (new_response-Answered resp s)).it
