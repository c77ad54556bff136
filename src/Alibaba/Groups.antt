-- ===== src/Alibaba/Groups.antt =====
-- The scaling group of a node pool (nodepool.go).
use Prim.Native.Char.{code}
use ooc.Base.{
  text_length, ℕ, zero, suc, pos, String, ◌==◌, ltb, none, some, List, [], ◌∷◌, length, str_eq,
  if◌then◌else◌, concat, contains,
}
use ooc.Cloud.{BindId, NodePool, Error, text}
use ooc.Cloud.Sdk.{
  describe_vswitches, describe_groups_by_name, create_group, describe_configurations,
  create_configuration, enable_group, delete_group, modify_group,
}
use ooc.Cloud.Exec.{Exec, pure, fail, ask, catch, ◌>>=◌, ◌>>◌, wrap, wrapped, message, sdk, maybe}
use ooc.Help.{lookup}
use ooc.Alibaba.{Sdk, BootCfg, ScalingGroup, issue, stack_value, user_data}

-- SecrityGroup and Vswitchs: a value of the stack, or the empty text
unfoldable pub stack_or_empty : Sdk → String → String
unfolding lookup
stack_or_empty api key = elim api.stack [
  | none ↦ ""
  | some stack ↦ elim (lookup key stack) [ none ↦ "" | some v ↦ v ]
]

-- strings.Replace(uid, "-", "", -1)
unfoldable pub drop_dashes : String → String
drop_dashes String.[] = ""
drop_dashes (String.◌∷◌ c s) =
    let rest = drop_dashes s in if code c == b'-' then rest else String.◌∷◌ c rest

-- s[0:n], of ASCII text
unfoldable pub text_take : ℕ → String → String
text_take zero s = ""
text_take (suc n) String.[] = ""
text_take (suc n) (String.◌∷◌ c s) = String.◌∷◌ c (text_take n s)

-- ScalingGroupName and ScalingGroupCfgName
unfoldable pub scaling_group_name : String → String → String
unfolding drop_dashes text_length text_take concat
scaling_group_name uid vpcid =
    let name = concat ("nodepool" ∷ "." ∷ vpcid ∷ "." ∷ drop_dashes uid ∷ []) in
    if ltb 64 (text_length name) then text_take 63 name else name

unfoldable pub scaling_group_cfg_name : String → String
unfolding drop_dashes concat
scaling_group_cfg_name uid = concat ("scaling-configuration" ∷ "-" ∷ drop_dashes uid ∷ [])

abbrev no_boot : Error
no_boot = text "create nodegroup: miss cluster spec"

unfoldable pub only_zone : Sdk → String → List String → Exec String
only_zone api vsw (zone ∷ []) = pure (concat ("{ \"" ∷ zone ∷ "\": [\"" ∷ vsw ∷ "\"]}" ∷ []))
only_zone api vsw zones = fail (
    text (
      concat (
        "not exact one vswitch matched: "
        ∷ api.print_int (pos (length zones))
        ∷ " by name "
        ∷ vsw
        ∷ [])))

-- VSwitchs
unfoldable pub vswitchs : Sdk → Exec String
unfolding stack_or_empty only_zone ask
vswitchs api = maybe api.boot (fail no_boot) λ boot. do
  let vsw = stack_or_empty api "k8s_vswitch"
  zones ← wrap "describe vswitch" (ask (sdk (describe_vswitches vsw)) (λ t. api.vswitches t vsw))
  only_zone api vsw zones

-- the id of the group by this name, which is created if there is none
unfoldable pub ensure_group : Sdk → NodePool → String → List ScalingGroup → Exec String
unfolding stack_or_empty ask
ensure_group api np gname [] = wrap (concat ("create scaling group, " ∷ np.name ∷ [])) (
    ask (sdk (create_group gname (stack_or_empty api "k8s_vswitch") np.desired_capacity))
      (λ t. api.new_group_id t gname))
ensure_group api np gname (group ∷ others) = pure group.group_id

-- the id of the configuration by this name, which is created if there is none; its fixed fields and
-- those of the hardware are left out
unfoldable pub ensure_configuration : Sdk → NodePool → BootCfg → String → List String → Exec String
unfolding user_data stack_or_empty scaling_group_cfg_name ask
ensure_configuration api np boot gid [] = do
  let name = scaling_group_cfg_name (api.uid_of np)
  userdata ← wrap "build work userdata" (user_data api "Worker")
  wrap (concat ("create scaling configuration," ∷ gid ∷ [])) (
      ask
        (sdk (
          create_configuration gid name (stack_or_empty api "k8s_sg")
            (concat ("KubernetesWorkerRole-" ∷ boot.resource_id ∷ [])) userdata))
        (λ t. api.new_configuration_id t gid))
ensure_configuration api np boot gid (cfg ∷ others) = pure cfg

-- an error with this text says that the group is enabled already
unfoldable pub enable : Sdk → String → String → Exec (Unit {0})
unfolding issue
enable api gid cfgid =
    catch (issue api (enable_group gid cfgid))
      (λ e.
        if contains (message e) "IncorrectScalingGroupStatus"
        then pure tt
        else fail (wrapped (concat ("enable scaling group, " ∷ gid ∷ [])) e))
      pure

-- CreateNodeGroup
unfoldable pub create_node_group : Sdk → NodePool → Exec BindId
unfolding stack_value ensure_group ensure_configuration enable scaling_group_name ask
create_node_group api np = maybe api.boot (fail no_boot) λ boot.
    maybe api.stack (fail (text "stack context must be exist")) λ stack. do
      vpcid ← stack_value api "k8s_vpc"
      let gname = scaling_group_name (api.uid_of np) vpcid
      groups ←
          wrap (concat ("find scaling group " ∷ gname ∷ []))
            (ask (sdk (describe_groups_by_name gname)) (λ t. api.named_groups t gname))
      gid ← ensure_group api np gname groups
      let cname = scaling_group_cfg_name (api.uid_of np)
      cfgs ←
          wrap (concat ("find scaling configuration, " ∷ cname ∷ []))
            (ask (sdk (describe_configurations gid cname)) (λ t. api.configurations t gid cname))
      cfgid ← ensure_configuration api np boot gid cfgs
      enable api gid cfgid
      pure (record { scaling_group_id = gid; configuration_id = cfgid })

-- DeleteNodeGroup: an error is returned only if its text has "not found", and is dropped otherwise
unfoldable pub delete_bound : Sdk → BindId → Exec (Unit {0})
unfolding issue
delete_bound api bind =
    let gid = bind.scaling_group_id in
    if str_eq gid ""
    then pure tt
    else catch (issue api (delete_group gid))
        (λ e.
          if contains (message e) "not found"
          then fail (wrapped (concat ("delete scaling group, " ∷ gid ∷ [])) e)
          else pure tt)
        pure

unfoldable pub delete_node_group : Sdk → NodePool → Exec (Unit {0})
unfolding delete_bound
delete_node_group api np = maybe np.bind (pure tt) (delete_bound api)

-- ModifyNodeGroup
unfoldable pub modify_node_group : Sdk → NodePool → Exec (Unit {0})
unfolding issue
modify_node_group api np =
    maybe np.bind (fail (text (concat ("modify node group: bind empty infra, " ∷ np.name ∷ []))))
      (λ bind. issue api (modify_group bind.scaling_group_id np.desired_capacity))
