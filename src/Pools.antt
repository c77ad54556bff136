-- ===== src/Pools.antt =====
-- ReconcileNodePool (pkg/operator/controllers/nodepool/np_controller.go): a scaling group for each
-- node pool, with NodePoolIndex (pkg/index/nodepool.go), the copy of a pool in the object storage.
-- The delay that an error comes with is left out: controller-runtime does not read it then.
use ooc.Base.{
  String, Bool, not, none, some, List, [], ◌∷◌, ◌++◌, str_eq, if◌then◌else◌, any, select, concat,
  contains,
}
use ooc.Cloud.{BindId, NodePool, Error, text, not_found, retry, conflict, invalid}
use ooc.Cloud.Exec.{
  Env, Exec, pure, fail, ask, perform, catch, maybe, ◌>>=◌, ◌>>◌, wrap, message, get_cluster,
  get_node_pool, patch_node_pool, delete_node_group, create_node_group, modify_node_group,
  ensure_bucket, put_object, delete_object,
}
use ooc.Help.{lookup, insert}
use ooc.Heal.Healet.{fix_node_pool}

abbrev pub node_pool_finalizer : String
node_pool_finalizer = "nodepool"

abbrev pub node_pool_hash_label : String
node_pool_hash_label = "alibabacloud.com/nodepool.hash"

-- help.Has and help.Remove
unfoldable pub has : List String → String → Bool
has m tar = any (λ v. str_eq v tar) m

unfoldable pub remove : List String → String → List String
remove m tar = select (λ v. not (str_eq v tar)) m

-- nPath
unfoldable pub pool_path : String → String → String → String
pool_path bucket id name =
    concat ("oss://" ∷ bucket ∷ "/wdrip/nodepools/" ∷ id ∷ "/" ∷ name ∷ ".json" ∷ [])

abbrev pub no_bucket : Error
no_bucket = text "oss bucket name should be provided in wdrip config"

-- SaveNodePool
unfoldable pub save_node_pool : Env → String → NodePool → Exec (Unit {0})
unfolding pool_path
save_node_pool env cid np =
    let put =
      perform env (put_object (env.pool_bytes np) (pool_path env.bucket_name cid np.name)) in
    if str_eq env.bucket_name ""
    then fail no_bucket
    else catch put
        (λ e.
          if contains (message e) "NoSuchBucket"
          then wrap "create bucket fail" (perform env (ensure_bucket env.bucket_name)) >> put
          else fail e)
        pure

-- RemoveNodePool
unfoldable pub remove_node_pool : Env → String → String → Exec (Unit {0})
unfolding pool_path
remove_node_pool env cid name =
    if str_eq env.bucket_name ""
    then fail no_bucket
    else perform env (delete_object (pool_path env.bucket_name cid name))

-- EnsureNodePoolBackup and DeleteNodePoolBackup
unfoldable pub ensure_backup : Env → NodePool → Exec (Unit {0})
unfolding save_node_pool
ensure_backup env np = do
  spec ← wrap "get cluster id" (ask get_cluster env.cluster)
  save_node_pool env spec.cluster_id np

unfoldable pub delete_backup : Env → NodePool → Exec (Unit {0})
unfolding remove_node_pool
delete_backup env np = do
  spec ← wrap "get cluster id" (ask get_cluster env.cluster)
  remove_node_pool env spec.cluster_id np.name

-- Patch (patch.go) for node pools
unfoldable pub patch_pool : Env → String → (NodePool → NodePool) → Exec (Unit {0})
patch_pool env name setter = do
  target ← wrap "get origin object" (ask (get_node_pool name) (λ t. env.node_pool t name))
  let ntarget = setter target
  if env.same_pool target ntarget
      then pure tt
      else wrap "patch spec" (perform env (patch_node_pool ntarget))

-- Reconcile of a pool with a deletion time
unfoldable pub drop_finalizer : NodePool → NodePool
unfolding remove
drop_finalizer mp = record mp { finalizers = remove mp.finalizers node_pool_finalizer }

unfoldable pub delete_pool : Env → NodePool → Exec (Unit {0})
unfolding delete_backup patch_pool drop_finalizer
delete_pool env np = do
  wrap "clean up nodepool infra" (perform env (delete_node_group np))
  wrap "remove oss nodepool backup failed" (delete_backup env np)
  patch_pool env np.name drop_finalizer

-- The node pool that Reconcile goes on with after FixNodePool.
unfoldable pub forget_bind : NodePool → Error → NodePool
forget_bind np e =
    if contains (message e) "ScalingGroupNotFound"
    then record np { bind = none }
    else if contains (message e) "InvalidVPC"
    then record np { bind = none }
    else np

unfoldable pub set_bind : BindId → NodePool → NodePool
unfolding has
set_bind bind mp = record mp {
  bind = some bind;
  finalizers =
      if has mp.finalizers node_pool_finalizer
      then mp.finalizers
      else mp.finalizers ++ node_pool_finalizer ∷ [];
}

-- an error that is only logged
unfoldable pub logged : Exec (Unit {0}) → Exec (Unit {0})
logged m = catch m (λ _. pure tt) pure

unfoldable pub create_pool : Env → NodePool → Exec (Unit {0})
unfolding ensure_backup patch_pool set_bind logged
create_pool env np = do
  bind ← wrap "create node group" (ask (create_node_group np) (λ t. env.new_group t np))
  logged (ensure_backup env np)
  wrap "patch bind infra" (patch_pool env np.name (set_bind bind))

unfoldable pub modify_pool : Env → NodePool → BindId → Exec (Unit {0})
unfolding ensure_backup logged
modify_pool env np bind = do
  wrap "modify node group" (perform env (modify_node_group np))
  if str_eq bind.scaling_group_id "" then pure tt else logged (ensure_backup env np)

-- nodePoolHash: a missing label is the empty text
unfoldable pub node_pool_hash : NodePool → String
unfolding lookup
node_pool_hash np = elim np.labels [
  | none ↦ ""
  | some labels ↦ elim (lookup node_pool_hash_label labels) [ none ↦ "" | some hash ↦ hash ]
]

unfoldable pub set_hash : String → NodePool → NodePool
unfolding insert
set_hash hash np = record np {
  labels =
      some (insert node_pool_hash_label hash (elim np.labels [ none ↦ [] | some labels ↦ labels ]));
}

unfoldable pub record_hash : Env → NodePool → String → Exec (Unit {0})
unfolding patch_pool set_hash logged
record_hash env np hasho = logged (patch_pool env np.name (set_hash hasho))

unfoldable pub apply_pool : Env → NodePool → Exec (Unit {0})
unfolding create_pool modify_pool node_pool_hash record_hash
apply_pool env np = do
  hasho ← λ t. wrap "hash np" (λ t'. (ooc.Cloud.Exec.outcome (env.hash_object np), t')) t
  maybe np.bind (create_pool env np >> record_hash env np hasho) (λ bind.
      if str_eq hasho (node_pool_hash np)
      then pure tt
      else modify_pool env np bind >> record_hash env np hasho)

-- FixNodePool is tried first; its error is only logged.
unfoldable pub fix_first : Env → Bool → NodePool → Exec NodePool
unfolding fix_node_pool forget_bind
fix_first env checking np =
    catch (fix_node_pool env checking np) (λ e. pure (forget_bind np e)) (λ _. pure np)

unfoldable pub read_error : Error → Exec (Unit {0})
read_error (not_found _) = pure tt
read_error (text s) = fail (text s)
read_error (retry n) = fail (retry n)
read_error (conflict s) = fail (conflict s)
read_error (invalid s) = fail (invalid s)

-- Reconcile; `checking` is the flag of Healet that FixNodePool reads
unfoldable pub reconcile_pool : Env → Bool → String → Exec (Unit {0})
unfolding delete_pool fix_first apply_pool read_error
reconcile_pool env checking name =
    catch (ask (get_node_pool name) (λ t. env.node_pool t name)) read_error (λ np.
      if np.deleted then delete_pool env np else fix_first env checking np >>= apply_pool env)
