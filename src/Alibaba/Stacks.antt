-- ===== src/Alibaba/Stacks.antt =====
-- The stack of a cluster (ros.go, resource.go): its resources and outputs, the wait for its creation,
-- its deletion, and the recovery of a cluster on its only master. An output's value is a text
-- here, so that its way through JSON cannot fail.
use ooc.Base.{
  ℕ, zero, suc, ◌+◌, pos, String, ◌==◌, Bool, false, not, ◌||◌, Option, none, some, List, [], ◌∷◌,
  ◌++◌, map, length, find, str_eq, if◌then◌else◌, concat, contains,
}
use ooc.Cloud.{Instance, ClusterId, ClusterSpec, text}
use ooc.Cloud.Sdk.{
  create_stack, describe_members, get_stack, delete_stack, list_stack_resources, list_stacks,
}
use ooc.Cloud.Exec.{outcome, Exec, pure, fail, ask, catch, ◌>>=◌, ◌>>◌, wrap, message, sdk, pause}
use ooc.Help.{lookup, insert}
use ooc.Alibaba.{Sdk, issue, stack_value, poll_state, user_data}
use ooc.Alibaba.Instances.{find_machines, instance_of_machine, replace_system_disk}
use ooc.Alibaba.Scaling.{scale_master_group}

-- the loops of GetInfraStack and toActionMap: a later entry replaces an earlier one
unfoldable pub to_map : List (String × String) → List (String × String) → List (String × String)
unfolding insert
to_map [] out = out
to_map ((k, v) ∷ entries) out = to_map entries (insert k v out)

-- GetInfraStack
unfoldable pub get_infra_stack : Sdk → ClusterId → Exec (List (String × String))
unfolding to_map ask
get_infra_stack api id = if str_eq id.resource_id "" then fail (text "EmptyStackID") else do
  resources ←
      catch
        (ask (sdk (list_stack_resources id.resource_id))
          (λ t. api.stack_resources t id.resource_id))
        (λ e. fail (text (concat ("find resource k8s_nodes_scaling_rule fail, " ∷ message e ∷ []))))
        pure
  pure (to_map resources [])

-- GetStackOutPuts: the stack to read, by its id or else by its name. Several stacks by one name are a
-- fault of the API that the code works round.
unfoldable pub pick_stack : Sdk → String → List (String × String) → Exec String
pick_stack api name [] = fail (text (concat ("no stacks found by name: " ∷ name ∷ [])))
pick_stack api name (s ∷ []) = pure s.1
pick_stack api name (s ∷ s' ∷ stacks) =
    elim (find (λ (x : String × String). str_eq x.0 name) (s ∷ s' ∷ stacks)) [
      | none ↦ fail (
          text (
            concat (
              "multiple ros stacks by name: "
              ∷ name
              ∷ ", count="
              ∷ api.print_int (pos (length stacks + 2))
              ∷ [])))
      | some x ↦ pure x.1
    ]

unfoldable pub resolve_stack : Sdk → ClusterId → Exec String
unfolding pick_stack ask
resolve_stack api id =
    if not (str_eq id.resource_id "")
    then pure id.resource_id
    else if str_eq id.name ""
    then fail (text "id or name must be provided.")
    else do
      stacks ←
          wrap "list rsource get stack"
            (ask (sdk (list_stacks id.name)) (λ t. api.stacks t id.name))
      pick_stack api id.name stacks

unfoldable pub get_stack_out_puts : Sdk → ClusterId → Exec (List (String × String))
unfolding resolve_stack to_map ask
get_stack_out_puts api id = do
  sid ← resolve_stack api id
  outputs ← wrap "list rsource get stack" (ask (sdk (get_stack sid)) (λ t. api.stack_outputs t sid))
  pure (to_map (outputs ++ ("StackID", sid) ∷ []) [])

-- WaitDesiredCnt: `instances` is shared by all rounds, and each round appends what it sees
unfoldable pub count_round : Sdk → String → ℕ → List Instance → Exec (Bool × List Instance)
unfolding find_machines instance_of_machine ask
count_round api gid desired instances = do
  members ← ask (sdk (describe_members gid)) (λ t. api.group_members t gid)
  if length members == 0 then pure (false, instances) else do
    machines ← wrap "instance detail call" (find_machines api members)
    let grown = instances ++ map (λ m. record (instance_of_machine "" m) { tags = [] }) machines
    pure (length grown == desired, grown)

unfoldable pub wait_desired_cnt : Sdk → String → ℕ → Exec (List Instance)
unfolding stack_value poll_state count_round
wait_desired_cnt api gid desired = do
  group ← if str_eq gid "" then stack_value api "k8s_master_sg" else pure gid
  wrap "[WaitDesiredMasterCount] timeouted"
      (poll_state (api.attempts 10 240) 10 (count_round api group desired) [])

-- the condition of WaitStack; `out` is the last answer, and none before the first
unfoldable pub is_failed : String → Bool
is_failed s = str_eq s "CREATE_FAILED" || str_eq s "CREATE_ROLLBACK_FAILED"

unfoldable pub is_created : String → Bool
is_created s = str_eq s "CREATE_ROLLBACK_COMPLETE" || str_eq s "CREATE_COMPLETE"

unfoldable pub stack_round : Sdk → String → Option String → Exec (Bool × Option String)
unfolding is_failed is_created ask
stack_round api sid out =
    catch (ask (sdk (get_stack sid)) (λ t. api.stack_status t sid)) (λ _. pure (false, none))
      (λ s.
        if is_failed s.0
        then fail (text (concat ("stack create failed: " ∷ s.0 ∷ ", " ∷ s.1 ∷ [])))
        else pure (is_created s.0, some s.0))

-- WaitStack: wait.Poll sleeps before each round
unfoldable pub poll_later : {S : Type 0} → ℕ → ℕ → (S → Exec (Bool × S)) → S → Exec S
poll_later zero interval condition s = fail (text "timed out waiting for the condition")
poll_later (suc tries) interval condition s = do
  pause interval
  r ← condition s
  if r.0 then pure r.1 else poll_later tries interval condition r.1

unfoldable pub wait_stack : Sdk → ClusterId → Exec (Option String)
unfolding poll_later stack_round
wait_stack api id = poll_later (api.attempts 10 600) 10 (stack_round api id.resource_id) none

-- Delete: a stack that does not exist counts as deleted
unfoldable pub delete : Sdk → ClusterId → Exec (Unit {0})
unfolding issue
delete api id =
    if str_eq id.resource_id ""
    then fail (text "resourceid empty, delete operation failed")
    else catch (issue api (delete_stack id.resource_id))
        (λ e.
          if contains (message e) "NotFound"
          then pure tt
          else fail (text (concat ("delete Ros stack: " ∷ message e ∷ []))))
        pure

-- findEndpoint and SetEndpoint: the two addresses of the API server, each empty if no output has it
unfoldable pub find_endpoint : List (String × String) → String → String
unfolding lookup to_map
find_endpoint outputs id = elim (lookup id (to_map outputs [])) [ none ↦ "" | some v ↦ v ]

pub record Endpoints : Type 0 where
  pub intranet : String
  pub internet : String

unfoldable pub set_endpoint : List (String × String) → Endpoints
unfolding find_endpoint
set_endpoint outputs = record {
  intranet = find_endpoint outputs "APIServerIntranet";
  internet = find_endpoint outputs "APIServerInternet";
}

-- Recover after GetInfraStack, whose answer is the stack of the context from then on
unfoldable pub recover_first : Sdk → ClusterId → List Instance → Exec (Unit {0})
unfolding user_data replace_system_disk
recover_first api id (inst ∷ []) = do
  userdata ← wrap (concat ("build recover userdata: " ∷ inst.id ∷ [])) (user_data api "Recover")
  wrap (concat ("replace system disk: " ∷ inst.id ∷ [])) (replace_system_disk api inst.id userdata)
  pause 120
recover_first api id instances = fail (
    text
      (concat ("master ess not equal 1, actually " ∷ api.print_int (pos (length instances)) ∷ [])))

unfoldable pub recover_stack : Sdk → ClusterId → Exec (Unit {0})
unfolding scale_master_group wait_desired_cnt recover_first
recover_stack api id = do
  catch (scale_master_group api (pos 1))
      (λ e.
        if not (contains (message e) "IncorrectCapacity.NoChange")
        then wrap "scaling master ess to 1" (fail e)
        else pure tt)
      pure
  instances ← wrap "wait desired master cnt" (wait_desired_cnt api "" 1)
  recover_first api id instances

unfoldable pub recover : Sdk → ClusterId → Exec (Unit {0})
unfolding get_infra_stack recover_stack
recover api id = do
  stack ← wrap (concat ("get stack infra: " ∷ id.name ∷ [])) (get_infra_stack api id)
  recover_stack (record api { stack = some stack }) id

-- Create: `stamp` is the time of the call
unfoldable pub create : Sdk → ClusterSpec → String → Exec ClusterId
unfolding ask
create api boot stamp = do
  tpl ← wrap "read Ros template file" (λ t. (outcome (api.template_file t), t))
  body ← wrap "render userdata" (λ t. (outcome (api.stack_template t tpl), t))
  sid ←
      wrap "create Ros stack"
        (ask (sdk (create_stack boot.cluster_id body)) (λ t. api.new_stack_id t boot.cluster_id))
  pure (record {
    name = boot.cluster_id;
    resource_id = sid;
    created_at = stamp;
    updated_at = stamp;
    spec = boot;
  })
