-- ===== src/Runtime/Loop/Compaction.antt =====
-- `compactHistory` of backend/domain/runtime/compaction.go, and the test that asks for it.
use magi_system.Prelude.{
  ℕ, ◌-◌, pos, pos_part, FloatOps, float_zero, lt_float, ge_float, String, Bool, not, ◌&&◌, Option,
  none, some, List, [], ◌∷◌, ◌++◌, length, take, drop, any, leb, ltb_ℤ, if◌then◌else◌, str_eq,
}
use magi_system.Prelude.Texts.{contains, trim_space}
use magi_system.Runtime.Messages.{
  Message, user, assistant, Answer, Notice, compacted_history, history_omitted,
}
use magi_system.Runtime.Loop.{AgentConfig, LoopState}

-- What `compactHistory` returns: the new messages with the tokens that the summary used, or nothing
-- (an error, or the messages nil: the loop goes on alike).
pub data Compacted : Type 0 where
  unchanged : Compacted
  replaced : List Message → ℕ → Compacted

-- `messages[1:len-keep]`
abbrev compacted_head : List Message → List Message
compacted_head messages = take (length messages - 5) (drop 1 messages)

-- `messages[len-keep:]`
abbrev recent_tail : List Message → List Message
recent_tail messages = drop (length messages - 4) messages

-- `sysMessage(messages[0])` keeps the role and the content.
abbrev first_message : List Message → List Message
first_message [] = []
first_message (assistant a ∷ messages) =
    assistant (record { content = a.content; tool_calls = []; total_tokens = 0 }) ∷ []
first_message (m ∷ messages) = m ∷ []

abbrev with_replacement : List Message → Notice → List Message
with_replacement messages n = first_message messages ++ (user n ∷ []) ++ recent_tail messages

compact_by : Option Answer → List Message → Compacted
unfolding trim_space
compact_by none messages =
    replaced (with_replacement messages (history_omitted (length (compacted_head messages)))) 0
compact_by (some summary) messages =
    let trimmed = trim_space summary.content in
    let text = if str_eq trimmed "" then "(empty summary)" else trimmed in
    replaced (with_replacement messages (compacted_history text)) summary.total_tokens

-- A history of 5 messages or fewer, or one that was compacted before, is left as it is.
unfoldable pub compact_history : (Message → String) → Option Answer → List Message → Compacted
unfolding compact_by any
compact_history text summary messages =
    if leb (length messages) 5
    then unchanged
    else if any (λ m. contains (text m) "[compacted]") messages
    then unchanged
    else compact_by summary messages

-- The condition of the loop: a budget and a threshold are set, and the tokens have reached the
-- threshold's part of the budget.
unfoldable pub wants_compaction : FloatOps → AgentConfig → LoopState → Bool
unfolding lt_float ge_float
wants_compaction ops cfg s =
    ltb_ℤ (pos 0) cfg.policy.token_budget_limit
    && lt_float float_zero cfg.token_compaction_threshold
    && not s.compacted
    && ge_float (ops.of_int s.termination.token_used) (
        ops.mul (ops.of_int (pos_part cfg.policy.token_budget_limit))
          cfg.token_compaction_threshold)
