-- ===== src/Alibaba/Scaling.antt =====
-- Scaling groups (scaling.go): their rules, activities, members and configuration.
use ooc.Base.{
  ℤ, pos, String, ◌==◌, Bool, false, not, ◌&&◌, Option, none, some, List, [], ◌∷◌, length, find,
  str_eq, if◌then◌else◌, concat, contains,
}
use ooc.Cloud.{Instance, text}
use ooc.Cloud.Sdk.{
  describe_groups, describe_rule, describe_group_rules, create_rule, modify_rule, execute_rule,
  describe_activities, describe_members, remove_instances, modify_configuration,
}
use ooc.Cloud.Exec.{
  Exec, pure, fail, crash, ask, deref, catch, ◌>>=◌, ◌>>◌, wrap, message, sdk, maybe,
}
use ooc.Help.{insert}
use ooc.Alibaba.{Sdk, Machine, ScalingRule, ScalingGroup, issue, stack_value, poll_state}
use ooc.Alibaba.Instances.{find_machines, instance_of_machine}

-- the loop of ModifyScalingConfig over its options: the action and the value of each
unfoldable pub first_user_data : Sdk → String → List (String × String) → Exec (Unit {0})
unfolding issue
first_user_data api id [] = crash
first_user_data api id (o ∷ opts) =
    let others = first_user_data api id opts in
    if str_eq o.0 ""
    then issue api (modify_configuration id o.1)
    else if str_eq o.0 "UserData"
    then issue api (modify_configuration id o.1)
    else others

-- ModifyScalingConfig
unfoldable pub modify_scaling_config : Sdk → List (String × String) → Exec (Unit {0})
unfolding stack_value first_user_data
modify_scaling_config api opts = do
  id ← stack_value api "k8s_master_sconfig"
  first_user_data api id opts

-- provider.ScaleGroupDetail; a map of instances is a list of its entries
pub record ScaleGroupDetail : Type 0 where
  pub group_id : String
  pub instances : List (String × Instance)

unfoldable pub insert_machines :
    String → List Machine → List (String × Instance) → List (String × Instance)
unfolding insert instance_of_machine
insert_machines region [] found = found
insert_machines region (i ∷ machines) found =
    insert_machines region machines (insert i.instance_id (instance_of_machine region i) found)

-- the branch of ScalingGroupDetail for ActionInstanceIDS, once it has the members of the group
unfoldable pub detail_of_members : Sdk → String → List String → Exec ScaleGroupDetail
unfolding insert_machines find_machines
detail_of_members api gid [] = pure (record { group_id = gid; instances = [] })
detail_of_members api gid (m ∷ members) = do
  machines ← wrap "instance detail call" (find_machines api (m ∷ members))
  pure (record { group_id = gid; instances = insert_machines api.region machines [] })

unfoldable pub check_group :
    Sdk → String → String → String → List ScalingGroup → Exec ScaleGroupDetail
unfolding detail_of_members ask
check_group api gid vpc action [] =
    fail (text (concat ("sgroupid [" ∷ gid ∷ "] not found[ScalingGroupNotFound]" ∷ [])))
check_group api gid vpc action (group ∷ others) =
    if not (str_eq group.vpc_id vpc)
    then fail (text "InvalidVPC")
    else if str_eq action "InstanceIDS"
    then ask (sdk (describe_members gid)) (λ t. api.group_members t gid)
      >>= detail_of_members api gid
    else fail (text (concat ("[ScalingGroupDetail] unknown action: " ∷ action ∷ [])))

-- ScalingGroupDetail
unfoldable pub scaling_group_detail : Sdk → String → String → Exec ScaleGroupDetail
unfolding stack_value check_group ask
scaling_group_detail api gid action =
    maybe api.stack (fail (text "stack context must be exist")) λ stack. do
      vpc ← stack_value api "k8s_vpc"
      group ← if str_eq gid "" then stack_value api "k8s_master_sg" else pure gid
      groups ← wrap "ess api:" (ask (sdk (describe_groups group)) (λ t. api.groups t group))
      check_group api group vpc (if str_eq action "" then "InstanceIDS" else action) groups

-- the condition of WaitActivity; an error of the request is only logged
unfoldable pub activities_done : Sdk → String → Unit {0} → Exec (Bool × Unit {0})
unfolding ask
activities_done api id s =
    catch (ask (sdk (describe_activities id)) (λ t. api.activities t id)) (λ _. pure (false, tt))
      (λ running. pure (running == 0, tt))

-- WaitActivity, and the same closure in RemoveScalingGroupECS
unfoldable pub wait_activity : Sdk → String → Exec (Unit {0})
unfolding poll_state activities_done
wait_activity api id = poll_state (api.attempts 10 240) 10 (activities_done api id) tt

unfoldable pub wait_enabled : Sdk → String → Exec (Unit {0})
unfolding wait_activity
wait_enabled api id =
    catch (wait_activity api id)
      (λ _. fail (text (concat ("wait for activity enable: " ∷ id ∷ [])))) pure

unfoldable pub set_rule : Sdk → String → ℤ → Exec (Unit {0})
unfolding issue
set_rule api rule_id desired =
    wrap (concat ("set scaling rule to " ∷ api.print_int desired ∷ " fail" ∷ []))
      (issue api (modify_rule rule_id desired))

unfoldable pub only_rule : Sdk → String → List ScalingRule → Exec ScalingRule
only_rule api id (r ∷ []) = pure r
only_rule api id rules = fail (
    text (
      concat (
        "multiple scaling rule found: "
        ∷ api.print_int (pos (length rules))
        ∷ " by id "
        ∷ id
        ∷ [])))

-- ScaleMasterGroup, which does not read its group id
unfoldable pub scale_master_group : Sdk → ℤ → Exec (Unit {0})
unfolding stack_value set_rule only_rule wait_enabled wait_activity issue ask
scale_master_group api desired = do
  sgid ← stack_value api "k8s_master_sg"
  srid ← stack_value api "k8s_master_srule"
  set_rule api srid desired
  rules ← wrap "find scaling rule detail" (ask (sdk (describe_rule srid)) (λ t. api.rules t srid))
  rule ← only_rule api srid rules
  wait_enabled api sgid
  catch (issue api (execute_rule rule.rule_ari))
      (λ e.
        if not (contains (message e) "IncorrectCapacity.NoChange")
        then fail (text (concat ("execute scaling rule failed: " ∷ message e ∷ [])))
        else pure tt)
      pure
  wait_activity api sgid

unfoldable pub is_node_scale : String → ScalingRule → Bool
is_node_scale gid r = str_eq r.group_id gid && str_eq r.rule_name "NodeScale"

-- what ScaleNodeGroup does with its rule NodeScale, or without one
unfoldable pub ensure_rule : Sdk → String → ℤ → Option ScalingRule → Exec (Unit {0})
unfolding set_rule ask
ensure_rule api gid desired none = do
  created ←
      wrap "create scaling rule [NodeScale] error"
        (ask (sdk (create_rule gid desired)) (λ t. api.new_rule t gid))
  pure tt
ensure_rule api gid desired (some r) = set_rule api r.rule_id desired

abbrev pub first : List ScalingRule → Option ScalingRule
first [] = none
first (r ∷ rest) = some r

-- ScaleNodeGroup: it executes the first rule of the answer, not the one it has found or created
unfoldable pub scale_node_group : Sdk → String → ℤ → Exec (Unit {0})
unfolding ensure_rule is_node_scale wait_enabled wait_activity issue ask
scale_node_group api gid desired = do
  rules ←
      wrap "find node scaling rule detail"
        (ask (sdk (describe_group_rules gid)) (λ t. api.group_rules t gid))
  ensure_rule api gid desired (find (is_node_scale gid) rules)
  wait_enabled api gid
  rule ← deref (first rules)
  wrap "execute node scaling rule failed" (issue api (execute_rule rule.rule_ari))
  wait_activity api gid

-- RemoveScalingGroupECS, which does not read its group id
unfoldable pub remove_scaling_group_ecs : Sdk → String → Exec (Unit {0})
unfolding stack_value wait_enabled wait_activity issue
remove_scaling_group_ecs api ecs = do
  sgid ← stack_value api "k8s_master_sg"
  wait_enabled api sgid
  wrap (concat ("remove sg instance: " ∷ ecs ∷ [])) (issue api (remove_instances sgid ecs))
  wait_activity api sgid
