-- ===== src/Runtime/Loop/Model.antt =====
-- The part of an iteration up to the response: the commit before the model's call, the compaction of
-- the history, the call with its recordings, and the commit of the response.
use magi_system.Prelude.{
  ℕ, ◌+◌, true, ◌&&◌, Option, none, some, ◌∷◌, if◌then◌else◌, GoError, deadline_exceeded,
  lease_lost, wrapped, errors_is,
}
use magi_system.Runtime.Result.{cancelled, error}
use magi_system.Runtime.Messages.{Answer}
use magi_system.Runtime.Checkpoints.{
  Pending, model_invocation, invoked, summarized, invocation_started, invocation_succeeded,
}
use magi_system.Runtime.Loop.{
  AgentWorld, AgentConfig, LoopState, Flow, next, ◌>>=◌, ends, commit_checkpoint, Generated,
  generated, generation_failed,
}
use magi_system.Runtime.Loop.Compaction.{
  Compacted, unchanged, replaced, compact_history, wants_compaction,
}

-- `ts.TokenUsed += tokens`
abbrev pub spend : ℕ → LoopState → LoopState
spend tokens s = record s {
  termination = record (s.termination) { token_used = s.termination.token_used + tokens };
}

-- An error of a collaborator, if any, ends the run.
abbrev pub unless_error : Option GoError → LoopState → Flow Unit
unless_error none s = next s tt
unless_error (some e) s = ends s error e

module _ (w : AgentWorld) (cfg : AgentConfig) (step : ℕ) where
  abbrev pub apply_compaction : Compacted → LoopState → Flow Unit
  apply_compaction unchanged s = next s tt
  apply_compaction (replaced messages tokens) s = commit_checkpoint w step none (
      spend tokens
        (record s { messages = messages; compacted = true; history = summarized step ∷ s.history }))

  unfoldable pub compact : LoopState → Flow Unit
  unfolding compact_history wants_compaction commit_checkpoint
  compact s =
      if wants_compaction w.parsers.floats cfg s
      then apply_compaction
          (compact_history w.message_text (w.summarize s.history s.messages) s.messages) s
      else next s tt

  abbrev pub check_context : Option GoError → LoopState → Flow Unit
  check_context none s = next s tt
  check_context (some e) s = ends s cancelled e

  -- A deadline under a call timeout is wrapped.
  abbrev pub timed_out : GoError → GoError
  timed_out e =
      if errors_is e deadline_exceeded && cfg.has_call_timeout
      then wrapped "model call timed out" e
      else e

  -- The failure of a call is recorded at best; it cannot change the result.
  abbrev pub receive : Generated → LoopState → Flow Answer
  receive (generation_failed e) s = ends s error (timed_out e)
  receive (generated a) s =
      unless_error (w.record_critical s.history (invocation_succeeded step)) s >>= λ s _. next s a

  abbrev pub call_model : LoopState → Flow Answer
  call_model s =
      receive (w.generate s.history s.messages) (record s { history = invoked step ∷ s.history })

  -- A new response: it is committed before it is read.
  abbrev pub accept : LoopState → Answer → Flow Answer
  accept s resp =
      commit_checkpoint w step (some (record { response = resp; tool_index = none }))
        (spend resp.total_tokens (record s { last_committed = model_invocation step }))
      >>= λ s _. next s resp

  unfoldable pub ask : LoopState → Flow Answer
  unfolding commit_checkpoint compact errors_is
  ask s =
      commit_checkpoint w step none s
      >>= (λ s _. compact s)
      >>= (λ s _. check_context (w.context_error s.history) s)
      >>= (λ s _. unless_error (w.record_critical s.history (invocation_started step)) s)
      >>= (λ s _. call_model s)
      >>= accept

  -- The response of an iteration: the pending one, with its tool index, or a new one.
  abbrev pub obtain_from : Option Pending → LoopState → Flow Pending
  obtain_from (some p) s = next (record s { pending = none }) p
  obtain_from none s = ask s >>= λ s resp. next s (record { response = resp; tool_index = none })

  -- The head of an iteration: a lost lease ends the run.
  unfoldable pub obtain : LoopState → Flow Pending
  unfolding ask
  obtain s = if w.lease_gone s.history then ends s cancelled lease_lost else obtain_from s.pending s
