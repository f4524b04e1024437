-- ===== src/Prelude/Errors.antt =====
-- Go errors: the sentinels that the code tests for, plain texts, and errors wrapped by `%w`.
use Prim.Native.String.{String}
use mathlib.Core.Bool.{Bool, true, false}

pub data GoError : Type 0 where
  deadline_exceeded canceled lease_lost commit_outcome_unknown execution_owner_required : GoError
  agent_failed case_ended : GoError
  plain : String → GoError
  -- The whole text, and the error inside.
  wrapped : String → GoError → GoError

-- `err == target`, for the sentinels.
abbrev same_sentinel : GoError → GoError → Bool
same_sentinel deadline_exceeded deadline_exceeded = true
same_sentinel canceled canceled = true
same_sentinel lease_lost lease_lost = true
same_sentinel commit_outcome_unknown commit_outcome_unknown = true
same_sentinel execution_owner_required execution_owner_required = true
same_sentinel agent_failed agent_failed = true
same_sentinel case_ended case_ended = true
same_sentinel _ _ = false

-- `errors.Is(err, target)`: the error or one that it wraps is the sentinel.
unfoldable pub errors_is : GoError → GoError → Bool
errors_is (wrapped text e) target = errors_is e target
errors_is e target = same_sentinel e target

-- `err.Error()`
unfoldable pub error_text : GoError → String
error_text deadline_exceeded = "context deadline exceeded"
error_text canceled = "context canceled"
error_text lease_lost = "decision job lease lost"
error_text commit_outcome_unknown = "decision commit outcome unknown"
error_text execution_owner_required = "durable decision execution requires an owner"
error_text agent_failed = "agent failed: case aborted by failure policy"
error_text case_ended = "case ended"
error_text (plain text) = text
error_text (wrapped text e) = text
