-- ===== src/Runtime/Termination.antt =====
-- `CheckTermination` of backend/domain/runtime/termination.go with the counters of the agent loop and
-- the bounds of `LoopPolicy` (backend/domain/entity/config.go) that it reads.
use magi_system.Prelude.{
  ℕ, ◌<◌, ℤ, pos, pos_part, Bool, ◌&&◌, Option, none, some, ◌≡◌, ◌⊎◌, ◌↔◌, arith, ltb_ℤ, leb_ℤ,
  if◌then◌else◌,
}
use magi_system.Runtime.Result.{
  LoopStatus, gate_failed, tool_failures, token_budget, validation_failed,
}

-- The counters only grow by additions of token counts and ones, and are reset to 0.
pub record TerminationState : Type 0 where
  pub gate_fail : ℕ
  pub consec_tool_fail : ℕ
  pub token_used : ℕ
  pub validation_fail : ℕ
  pub tool_calls : ℕ

pub record LoopPolicy : Type 0 where
  pub max_steps : ℤ
  pub max_gate_failures : ℤ
  pub max_consecutive_tool_failures : ℤ
  pub max_consecutive_validation_failures : ℤ
  pub token_budget_limit : ℤ
  pub max_tool_calls : ℤ

-- `limit > 0 && count >= limit`
abbrev pub reached : ℤ → ℕ → Bool
reached limit count = ltb_ℤ (pos 0) limit && leb_ℤ limit (pos count)

-- The status with its error is one constructor for each; the count stands in the error's text.
pub data Ended : Type 0 where
  ended : LoopStatus → ℕ → Ended

-- `none` is the result false, with nothing written.
unfoldable pub check_termination : TerminationState → LoopPolicy → Option Ended
check_termination ts policy =
    if reached policy.max_gate_failures ts.gate_fail
    then some (ended gate_failed ts.gate_fail)
    else if reached policy.max_consecutive_tool_failures ts.consec_tool_fail
    then some (ended tool_failures ts.consec_tool_fail)
    else if reached policy.token_budget_limit ts.token_used
    then some (ended token_budget ts.token_used)
    else if reached policy.max_consecutive_validation_failures ts.validation_fail
    then some (ended validation_failed ts.validation_fail)
    else none

-- A bound of 0 or less is no bound.
abbrev pub Below : ℤ → ℕ → Type 0
Below limit count = (pos_part limit ≡ 0) ⊎ (count < pos_part limit)

-- The loop goes on exactly if each of the four counters is below its bound, where a bound that is
-- not positive is none.
check_termination-none :
    (ts : TerminationState) (policy : LoopPolicy)
    → (check_termination ts policy ≡ none) ↔ (
        Below policy.max_gate_failures ts.gate_fail
        × Below policy.max_consecutive_tool_failures ts.consec_tool_fail
        × Below policy.token_budget_limit ts.token_used
        × Below policy.max_consecutive_validation_failures ts.validation_fail)
unfolding check_termination
check_termination-none ts policy = ground arith
