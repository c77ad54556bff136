-- ===== src/Heal/Operation.antt =====
-- NodeOperation (pkg/operator/heal/operation.go): what can be done to one node. Log lines are left
-- out, except where they dereference a pointer.
pub mod Calls
pub mod Throttle
pub mod Total
use ooc.Base.{
  ℕ, String, Bool, true, false, not, Option, none, some, List, [], ◌∷◌, str_eq, if◌then◌else◌,
  concat, find,
}
use ooc.Cloud.{Instance, Node, Error, text, not_found, retry}
use ooc.Cloud.Exec.{
  Env, Exec, pure, fail, ask, deref, perform, pause, catch, maybe, ◌>>=◌, ◌>>◌, wrap, all_nodes,
  user_data, replace_system_disk, tag_ecs, restart_ecs, run_command, cordon, evict,
}
use ooc.Help.{lookup, insert, after, node_heartbeat_ready}
use ooc.Help.Patch.{fetch, patch, wait_heartbeat}
use ooc.Etcd.{new_etcd_from_crd, member_list, remove_member, find_member_by_ip, etcd_tmp}
use ooc.Heal.Triple.{NodeInfo, Triple, join_master_userdata, node_matches}

abbrev pub wdrip_last_update : String
wdrip_last_update = "wdrip.last.update.time"

-- Throttle times, in seconds
abbrev pub admit_ecs_throttle_time : ℕ
admit_ecs_throttle_time = 180

abbrev pub admit_node_throttle_time : ℕ
admit_node_throttle_time = 60

abbrev pub admit_create_throttle_time : ℕ
admit_create_throttle_time = 300

unfoldable pub default_name : Instance → String
default_name i = concat (i.ip ∷ "." ∷ i.id ∷ [])

-- GetNodeName (healet.go)
unfoldable pub get_node_name : NodeInfo → Exec String
unfolding default_name
get_node_name info =
    maybe info.node (deref info.instance_of >>= λ eid. pure (default_name eid)) (λ n. pure n.name)

-- Cordon and Drain; the drain helper of kubectl evicts the pods.
unfoldable pub cordon_node : Env → NodeInfo → Exec (Unit {0})
cordon_node env info = maybe info.node (pure tt) (λ n. perform env (cordon n))

unfoldable pub drain : Env → NodeInfo → Exec (Unit {0})
unfolding cordon_node
drain env info =
    maybe info.node (pure tt)
      (λ n. wrap "cordon node" (cordon_node env info) >> perform env (evict n))

unfoldable pub restart : Env → NodeInfo → Exec (Unit {0})
unfolding get_node_name wait_heartbeat
restart env info = maybe info.instance_of (fail (text "empty instance id")) λ eid. do
  wrap "restart ecs" (perform env (restart_ecs eid.id))
  name ← get_node_name info
  wrap "wait node ready failed while restarting ecs" (wait_heartbeat env name 180)

-- The tag of the last re-initialisation decides; without one the instance is tagged and refused.
unfoldable pub admit_ecs : Env → NodeInfo → ℕ → Exec Bool
unfolding lookup after
admit_ecs env info duration = maybe info.instance_of (pure false) (λ eid.
    maybe (lookup wdrip_last_update eid.tags)
      (catch (perform env (tag_ecs eid.id wdrip_last_update)) (λ _. pure false) (λ _. pure false))
      (λ stamp t. pure (after env t stamp duration) t))

-- The node of the entry, or the one that the cluster has for the instance now.
unfoldable pub admit_found : Env → Option Node → ℕ → Exec Bool
unfolding node_heartbeat_ready
admit_found env found duration =
    maybe found (pure true) (λ n t. pure (node_heartbeat_ready (env.now t) n duration) t)

unfoldable pub admit_list_error : Error → Exec Bool
admit_list_error (not_found _) = pure true
admit_list_error _ = pure false

unfoldable pub admit_node : Env → NodeInfo → ℕ → Exec Bool
unfolding admit_found admit_list_error
admit_node env info duration = maybe info.instance_of (pure false) (λ eid.
    maybe info.node
      (catch (ask all_nodes env.nodes) admit_list_error
        (λ nodes. admit_found env (find (node_matches eid.id) nodes) duration))
      (λ n. admit_found env (some n) duration))

-- removeEtcd
unfoldable pub remove_etcd : Env → Triple → String → Exec (Unit {0})
unfolding new_etcd_from_crd member_list remove_member find_member_by_ip
remove_etcd env trip ip = do
  metcd ← wrap "new etcd" (new_etcd_from_crd env trip.mcrds trip.cluster etcd_tmp)
  mems ← wrap "clean up etcd: member" (member_list env metcd)
  remove_member env metcd (find_member_by_ip mems ip)

-- Reset from the drain on, once the throttles have let it through.
unfoldable pub replace_disk : Env → NodeInfo → Instance → Exec (Unit {0})
unfolding default_name wait_heartbeat
replace_disk env info eid = do
  userdata ←
      wrap "new worker userdata" (ask (user_data info.role) (λ t. env.master_userdata t info.role))
  catch (perform env (replace_system_disk eid.id userdata))
      (λ e. pause 15 >> wrap "replace system disk failed" (fail e))
      λ _. do
        catch (perform env (tag_ecs eid.id wdrip_last_update)) (λ _. pure tt) pure
        wrap "repair failed, continue on next node" (wait_heartbeat env (default_name eid) 180)

-- the log line of a failed drain prints info.Node.Name
unfoldable pub drained : Env → NodeInfo → Exec (Unit {0})
unfolding drain
drained env info = catch (drain env info) (λ _. deref info.node >>= λ _. pure tt) pure

unfoldable pub reinitialize : Env → Triple → NodeInfo → Instance → Exec (Unit {0})
unfolding drained remove_etcd replace_disk
reinitialize env trip info eid = do
  drained env info
  (if str_eq info.role join_master_userdata
      then wrap "etcd" (remove_etcd env trip eid.ip)
      else pure tt)
  replace_disk env info eid

-- Reset once AdmitECS has been passed
unfoldable pub reset_admitted : Env → Triple → NodeInfo → Instance → Exec (Unit {0})
unfolding admit_node reinitialize
reset_admitted env trip info eid = do
  allowed ← admit_node env info admit_node_throttle_time
  if not allowed then fail (retry 60) else reinitialize env trip info eid

-- Reset of an instance that was created long enough ago
unfoldable pub reset_grown : Env → Triple → NodeInfo → Instance → Exec (Unit {0})
unfolding admit_ecs reset_admitted
reset_grown env trip info eid = do
  admitted ← admit_ecs env info admit_ecs_throttle_time
  if not admitted then fail (retry 60) else reset_admitted env trip info eid

unfoldable pub reset : Env → Triple → NodeInfo → Exec (Unit {0})
unfolding reset_grown after
reset env trip info = do
  eid ← deref info.instance_of
  grown ← λ t. pure (after env t eid.created_at admit_create_throttle_time) t
  if not grown then pause 60 >> fail (retry 60) else reset_grown env trip info eid

-- RunCommand
unfoldable pub run : Env → NodeInfo → String → Exec (Unit {0})
unfolding get_node_name wait_heartbeat
run env info cmd = maybe info.instance_of (fail (text "empty instance information")) λ eid. do
  wrap "run command" (perform env (run_command eid.id cmd))
  name ← get_node_name info
  wait_heartbeat env name 30

-- The setter of LabelNode: a nil label map is replaced by a new one that is not stored in the node.
unfoldable pub insert_all : List (String × String) → List (String × String) → List (String × String)
unfolding insert
insert_all [] labels = labels
insert_all ((k, v) ∷ rest) labels = insert_all rest (insert k v labels)

unfoldable pub set_labels : List (String × String) → Node → Node
unfolding insert_all
set_labels lbl n = elim n.labels [
  | none ↦ n
  | some labels ↦ record n { labels = some (insert_all lbl labels) }
]

unfoldable pub label_node : Env → NodeInfo → List (String × String) → Exec (Unit {0})
unfolding get_node_name fetch patch set_labels
label_node env info lbl = do
  name ← get_node_name info
  node ← wrap "get node" (fetch env name)
  patch env node.name (set_labels lbl)
