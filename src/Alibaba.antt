-- ===== src/Alibaba.antt =====
-- The Alibaba implementation of provider.Interface (pkg/iaas/provider/alibaba): what the SDK and the
-- templates answer, and the helpers that the operations share.
pub mod Instances
pub mod Commands
pub mod Scaling
pub mod Groups
pub mod Stacks
pub mod Waits
pub mod Disks
pub mod Idle
pub mod Outcomes
use ooc.Base.{
  ℕ, ℤ, zero, suc, ◌-◌, String, ◌==◌, leb, Bool, true, Option, none, some, List, [], ◌∷◌, str_eq,
  if◌then◌else◌, concat,
}
use ooc.Cloud.{NodePool, Error, text}
use ooc.Cloud.Sdk.{SdkCall, describe_instance}
use ooc.Cloud.Exec.{
  Trace, Reply, Exec, pure, fail, crash, ask, deref, ◌>>=◌, ◌>>◌, refused, sdk, pause, outcome,
}
use ooc.Help.{lookup}

-- ecs.Instance
pub record Machine : Type 0 where
  pub instance_id : String
  pub status : String
  pub image_id : String
  pub key_pair_name : String
  pub creation_time : String
  pub ip_addresses : List String
  pub tags : List (String × String)

-- ess.ScalingRule
pub record ScalingRule : Type 0 where
  pub rule_id : String
  pub rule_ari : String
  pub group_id : String
  pub rule_name : String

-- ess.ScalingGroup
pub record ScalingGroup : Type 0 where
  pub group_id : String
  pub vpc_id : String

-- A result of a command: the status of its record, and its output in base 64.
pub record CommandResult : Type 0 where
  pub record_status : String
  pub output : String

-- The parts of `ctx.BootCFG()` that the operations read.
pub record BootCfg : Type 0 where
  pub resource_id : String

-- What the SDK answers to each request, as a function of all calls before it, with the context of the
-- operations and the functions of other packages.
pub record Sdk : Type 0 where
  -- requests of which the code reads only the error
  pub refusal : Trace → SdkCall → Option Error
  pub status_of : Trace → String → Reply String
  pub machines : Trace → List String → Reply (List Machine)
  -- TotalCount, and the status of each invocation
  pub invocations : Trace → String → Reply (ℕ × List String)
  pub invoke : Trace → String → String → Reply String
  -- the status of the invocation, and its results
  pub results : Trace → String → String → Reply (String × List CommandResult)
  -- the zones of the switches
  pub vswitches : Trace → String → Reply (List String)
  pub groups : Trace → String → Reply (List ScalingGroup)
  pub named_groups : Trace → String → Reply (List ScalingGroup)
  pub new_group_id : Trace → String → Reply String
  pub configurations : Trace → String → String → Reply (List String)
  pub new_configuration_id : Trace → String → Reply String
  pub rules : Trace → String → Reply (List ScalingRule)
  pub group_rules : Trace → String → Reply (List ScalingRule)
  -- the id and the Ari of the new rule
  pub new_rule : Trace → String → Reply (String × String)
  -- how many activities of a group are in progress
  pub activities : Trace → String → Reply ℕ
  pub group_members : Trace → String → Reply (List String)
  -- Status and StatusReason of a stack
  pub stack_status : Trace → String → Reply (String × String)
  -- name and id of the stacks by a name, the outputs of a stack, and the logical and physical ids of
  -- its resources
  pub stacks : Trace → String → Reply (List (String × String))
  pub stack_outputs : Trace → String → Reply (List (String × String))
  pub stack_resources : Trace → String → Reply (List (String × String))
  -- the id of a new stack by its name; its template, the built-in one or a file, and the template with
  -- the user data put in (RenderUserData)
  pub new_stack_id : Trace → String → Reply String
  pub template_file : Trace → Reply String
  pub stack_template : Trace → String → Reply String
  -- base64.StdEncoding.DecodeString
  pub decode : String → Reply String
  -- Devel.UserData, made from templates
  pub templates : Trace → String → Reply String
  -- ctx.Stack(), whose values are all texts, and ctx.BootCFG(); a nil map or pointer is `none`
  pub stack : Option (List (String × String))
  pub boot : Option BootCfg
  -- the UID of a node pool, and fmt's print of a number
  pub uid_of : NodePool → String
  pub print_int : ℤ → String
  -- n.Cfg.Region
  pub region : String
  -- how often wait.PollImmediate tries, from its interval and timeout
  pub attempts : ℕ → ℕ → ℕ

-- a request of which the code reads only the error
unfoldable pub issue : Sdk → SdkCall → Exec (Unit {0})
unfolding ask
issue api c = ask (sdk c) (λ t. refused (api.refusal t c))

-- `stack[key].Val.(string)`: a missing key has a nil value, and the assertion panics
unfoldable pub stack_value : Sdk → String → Exec String
unfolding lookup deref
stack_value api key = elim api.stack [ none ↦ crash | some stack ↦ deref (lookup key stack) ]

-- `tries` rounds of wait.PollImmediate, on a state that the condition keeps
unfoldable pub poll_state : {S : Type 0} → ℕ → ℕ → (S → Exec (Bool × S)) → S → Exec S
poll_state zero interval condition s = fail (text "timed out waiting for the condition")
poll_state (suc tries) interval condition s = do
  r ← condition s
  if r.0 then pure r.1 else pause interval >> poll_state tries interval condition r.1

-- WaitECS: DefaultWaitForInterval is 5 seconds. Fuel that ran out would be a panic.
unfoldable pub describe : Sdk → String → Exec String
unfolding ask
describe api id = ask (sdk (describe_instance id)) (λ t. api.status_of t id)

unfoldable pub wait_timeout : String → String → Error
wait_timeout id status = text (concat ("timeout waiting " ∷ id ∷ " " ∷ status ∷ []))

unfoldable pub status_rounds : Sdk → String → String → ℕ → ℕ → Exec (Unit {0})
unfolding describe wait_timeout
status_rounds api id status zero timeout = crash
status_rounds api id status (suc fuel) timeout = do
  now ← describe api id
  if str_eq now status
      then pause 5
      else if leb timeout 5
      then fail (wait_timeout id status)
      else pause 5 >> status_rounds api id status fuel (timeout - 5)

unfoldable pub wait_ecs : Sdk → String → String → ℕ → Exec (Unit {0})
unfolding status_rounds
wait_ecs api id status timeout =
    let left = if timeout == 0 then 120 else timeout in status_rounds api id status (suc left) left

-- Devel.UserData, by its category
unfoldable pub user_data : Sdk → String → Exec String
user_data api category t = (outcome (api.templates t category), t)
