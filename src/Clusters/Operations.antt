-- ===== src/Clusters/Operations.antt =====
-- The operations on clusters that the command line offers (pkg/iaas/iaas.go), with the Alibaba provider
-- behind them. A new context has an empty stack. What they print, and Get, are left out.
use ooc.Base.{
  String, ℤ, Bool, not, ◌||◌, Option, none, some, List, [], ◌∷◌, str_eq, if◌then◌else◌, concat,
  contains,
}
use ooc.Cloud.{ClusterId, ClusterSpec, NodePool, Error, text}
use ooc.Cloud.Exec.{Env, outcome, Exec, pure, fail, deref, catch, ◌>>=◌, ◌>>◌, wrap, message, maybe}
use ooc.Help.{lookup}
use ooc.Clusters.{Desk, save_cluster, get_cluster_id, remove_cluster, list_node_pools}
use ooc.Alibaba.{Sdk}
use ooc.Alibaba.Commands.{Result, run_command}
use ooc.Alibaba.Groups.{delete_node_group}
use ooc.Alibaba.Scaling.{scale_master_group}
use ooc.Alibaba.Stacks.{create, delete, recover, get_infra_stack, get_stack_out_puts}

-- pd.NewContext
unfoldable pub new_context : Desk → Exec (Option ClusterSpec)
new_context desk = wrap "initialize wdrip context" (λ t. (outcome (desk.new_context t), t))

unfoldable pub in_fresh_context : Sdk → Sdk
in_fresh_context api = record api { stack = some [] }

-- the spec that Recover writes into the cluster `id` from another cluster
unfoldable pub merge_spec : ClusterSpec → ClusterSpec → ClusterSpec
merge_spec id from = record from {
  intranet = id.intranet;
  internet = id.internet;
  cluster_id = id.cluster_id;
  provider = id.provider;
  region = id.region;
  resource_id = id.resource_id;
}

-- Recover
unfoldable pub recover_cluster : Env → Desk → Sdk → String → String → Exec (Unit {0})
unfolding new_context in_fresh_context merge_spec get_cluster_id recover
recover_cluster env desk api name source = do
  context ← new_context desk
  let missing = concat ("no cluster found by name " ∷ name ∷ [])
  id ← wrap missing (get_cluster_id env desk name)
  merged ←
      if not (str_eq source name)
      then (do
        from ← wrap missing (get_cluster_id env desk source)
        pure (record id { spec = merge_spec id.spec from.spec }))
      else pure id
  recover
      (record (in_fresh_context api) {
        boot = some (record { resource_id = merged.spec.resource_id });
      })
      merged

-- Create after it has read the index: an existing cluster is an error that wraps nil, so none
unfoldable pub create_missing : Env → Desk → Sdk → ClusterSpec → Error → Exec (Unit {0})
unfolding save_cluster create
create_missing env desk api boot e =
    if not (contains (message e) "NoSuchKey") then wrap "create cluster" (fail e) else do
      stamp ← λ t. pure (desk.stamp t) t
      wrap (concat ("create cluster: " ∷ boot.cluster_id ∷ [])) (
          save_cluster env desk (record {
            name = boot.cluster_id;
            resource_id = "";
            created_at = stamp;
            updated_at = stamp;
            spec = boot;
          }))
      nid ←
          wrap (concat ("call provider [" ∷ boot.provider ∷ "] create" ∷ []))
            (create api boot stamp)
      catch (save_cluster env desk nid) (λ _. pure tt) pure

-- SetDefaultCA
unfoldable pub set_default_ca : Desk → ClusterSpec → Exec ClusterSpec
unfolding deref
set_default_ca desk spec =
    maybe spec.root_ca
      (do ca ← λ t. deref (desk.fresh_ca t) t; pure (record spec { root_ca = some ca }))
      (λ ca. pure spec)

-- Create
unfoldable pub create_cluster : Env → Desk → Sdk → Exec (Unit {0})
unfolding new_context deref in_fresh_context set_default_ca get_cluster_id create_missing
create_cluster env desk api = do
  context ← new_context desk
  boot ← deref context
  spec ← set_default_ca desk boot
  catch (get_cluster_id env desk spec.cluster_id)
      (create_missing env desk (in_fresh_context api) spec) (λ id. pure tt)

-- the loop of Delete over the node pools
unfoldable pub delete_pools : Sdk → List NodePool → Exec (Unit {0})
unfolding delete_node_group
delete_pools api [] = pure tt
delete_pools api (np ∷ pools) =
    wrap (concat ("delete nodegroup " ∷ np.name ∷ " failed" ∷ [])) (delete_node_group api np)
    >> delete_pools api pools

unfoldable pub delete_known : Env → Desk → Sdk → Bool → String → ClusterId → Exec (Unit {0})
unfolding list_node_pools delete_pools delete remove_cluster
delete_known env desk api force name id = do
  pools ← wrap "get nodepool oss backups" (list_node_pools env desk name)
  delete_pools api pools
  catch (delete api id) (λ e. if force then pure tt else wrap "delete cluster" (fail e)) pure
  remove_cluster env name

-- Delete; `force` is the flag ForceDelete
unfoldable pub delete_cluster : Env → Desk → Sdk → Bool → String → Exec (Unit {0})
unfolding new_context in_fresh_context get_cluster_id delete_known
delete_cluster env desk api force name =
    if str_eq name "" then fail (text "cluster name must be provided with --name") else do
      context ← new_context desk
      catch (get_cluster_id env desk name)
          (λ e.
            if contains (message e) "NoSuchKey"
            then pure tt
            else wrap (concat ("delete cluster: " ∷ name ∷ [])) (fail e))
          (delete_known env desk (in_fresh_context api) force name)

-- Scale
unfoldable pub scale_cluster : Env → Desk → Sdk → String → ℤ → Exec (Unit {0})
unfolding new_context in_fresh_context get_cluster_id scale_master_group save_cluster
scale_cluster env desk api name count = do
  context ← new_context desk
  id ← wrap (concat ("scale cluster: " ∷ name ∷ [])) (get_cluster_id env desk name)
  wrap "scale cluster" (scale_master_group (in_fresh_context api) count)
  stamp ← λ t. pure (desk.stamp t) t
  save_cluster env desk (record id { updated_at = stamp })

-- RunCommand: an empty id or command is an error that wraps nil, so none
unfoldable pub run_on_instance : Desk → Sdk → String → String → Exec (Option Result)
unfolding new_context in_fresh_context run_command
run_on_instance desk api id command = do
  context ← new_context desk
  if str_eq id "" || str_eq command "" then pure none else do
    result ← wrap "run command fail" (run_command (in_fresh_context api) id command)
    pure (some result)

-- Edit
unfoldable pub edit_cluster : Env → Desk → String → Exec (Unit {0})
unfolding new_context get_cluster_id save_cluster
edit_cluster env desk name =
    if str_eq name "" then fail (text "unexpected empty cluster name, specify with --name") else do
      context ← new_context desk
      id ← wrap (concat ("find cluster by name " ∷ name ∷ [])) (get_cluster_id env desk name)
      spec ← wrap "edit with local editor" (λ t. (outcome (desk.edited t id.spec), t))
      save_cluster env desk (record id { spec = spec })

-- LoadStackFromSpec (help/helper.go): the id of the stack is looked up by the name of the cluster if
-- the spec has none
unfoldable pub load_stack_from_spec : Sdk → ClusterSpec → Exec (List (String × String))
unfolding get_stack_out_puts get_infra_stack lookup deref
load_stack_from_spec api spec = do
  let named : ClusterId = record {
    name = spec.cluster_id;
    resource_id = "";
    created_at = "";
    updated_at = "";
    spec = spec;
  }
  sid ←
      if str_eq spec.resource_id ""
      then (do
        resource ← wrap "provider: list resource fail" (get_stack_out_puts api named)
        deref (lookup "StackID" resource))
      else pure spec.resource_id
  get_infra_stack api (record named { name = ""; resource_id = sid })
