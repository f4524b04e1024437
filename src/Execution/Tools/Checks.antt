-- ===== src/Execution/Tools/Checks.antt =====
-- The requests of backend/domain/toolruntime and the checks of `Execute` before the kernel.
use magi_system.Prelude.{
  ℤ, String, Bool, true, false, not, ◌&&◌, ◌||◌, Option, none, some, str_eq, if◌then◌else◌,
}
use magi_system.Execution.Invocation.{ExecutionIdentity}
use magi_system.Execution.Kernel.{ExecutionError}
use magi_system.Execution.Tools.Results.{ResultCodec}

pub data ToolEffectClass : Type 0 where
  effect_read_only effect_idempotent effect_non_idempotent effect_unknown : ToolEffectClass
  other_effect : String → ToolEffectClass

-- What the runtime reads of a `port.ToolDefinition`.
pub record GovernedTool : Type 0 where
  pub name : String
  pub args_schema : String
  pub effect_class : ToolEffectClass

-- What the approval function answers, with who decided and the reason.
pub data Approval : Type 0 where
  decided : Bool → String → String → Approval
  approval_error : String → Approval

-- `permission` is `Permission.ToolName`; a nil approval function is `none`.
pub record ToolRequest : Type 0 where
  pub identity : ExecutionIdentity
  pub definition : GovernedTool
  pub arguments_json : String
  pub user_id : String
  pub ordinal : ℤ
  pub permission : String
  pub approval : Option Approval

pub record ToolPolicy : Type 0 where
  pub requires_approval : String → Bool
  pub allowed : String → Bool

pub data QuotaAnswer : Type 0 where
  quota_allows quota_refuses : QuotaAnswer
  quota_error : String → QuotaAnswer

-- The collaborators of the runtime; a nil policy or quota is `none`. `violations` answers the text of
-- the validation's errors if the arguments are not valid. `canonical` is `canonicalArguments`.
pub record ToolDeps : Type 0 where
  pub policy : Option ToolPolicy
  pub quota : Option (String → String → QuotaAnswer)
  pub violations : String → String → Option String
  pub redact : String → String
  pub canonical : String → String
  pub digest : String → String
  pub digest_bytes : String → String
  pub codec : ResultCodec

pub data ToolError : Type 0 where
  no_definition not_permitted : ToolError
  approval_required : ToolError
  approval_failed approval_rejected : String → ToolError
  quota_failed quota_exceeded : String → ToolError
  arguments_invalid : String → ToolError
  kernel_error : ExecutionError → ToolError

-- The name of the tool is resolved and permitted.
unfoldable pub check_permission : ToolRequest → Option ToolError
check_permission req =
    if str_eq req.definition.name ""
    then some no_definition
    else if str_eq req.permission "" || not (str_eq req.permission req.definition.name)
    then some not_permitted
    else none

unfoldable pub needs_approval : Option ToolPolicy → String → Bool
needs_approval none name = false
needs_approval (some policy) name = policy.requires_approval name && not (policy.allowed name)

unfoldable pub check_decision : (String → String) → Option Approval → Option ToolError
check_decision redact none = some approval_required
check_decision redact (some (approval_error text)) = some (approval_failed (redact text))
check_decision redact (some (decided true who reason)) = none
check_decision redact (some (decided false who reason)) = some (approval_rejected (redact reason))

unfoldable pub check_quota : (String → String) → String → QuotaAnswer → Option ToolError
check_quota redact name quota_allows = none
check_quota redact name quota_refuses = some (quota_exceeded name)
check_quota redact name (quota_error text) = some (quota_failed (redact text))

abbrev pub quota_answer : Option (String → String → QuotaAnswer) → String → String → QuotaAnswer
quota_answer none user name = quota_allows
quota_answer (some allow) user name = allow user name

abbrev pub then_check {ℓ} : {E : Type ℓ} → Option E → Option E → Option E
then_check (some e) rest = some e
then_check none rest = rest

module _ (deps : ToolDeps) where
  -- A tool that needs approval asks for it.
  unfoldable pub check_approval : ToolRequest → Option ToolError
  unfolding needs_approval check_decision
  check_approval req =
      if needs_approval deps.policy req.definition.name
      then check_decision deps.redact req.approval
      else none

  abbrev pub invalid_arguments : Option String → Option ToolError
  invalid_arguments none = none
  invalid_arguments (some text) = some (arguments_invalid (deps.redact text))

  -- The checks before the kernel, in their order.
  unfoldable pub check_request : ToolRequest → Option ToolError
  unfolding check_permission check_approval check_quota
  check_request req = then_check (check_permission req) (
      then_check (check_approval req) (
        then_check
          (check_quota deps.redact req.definition.name
            (quota_answer deps.quota req.user_id req.definition.name))
          (invalid_arguments (deps.violations req.definition.args_schema req.arguments_json))))
