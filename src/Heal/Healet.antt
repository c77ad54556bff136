-- ===== src/Heal/Healet.antt =====
-- Healet (pkg/operator/heal/healet.go): the repairs. The proofs are in the modules below.
mod Calls
pub mod Deletions
pub mod Follower
pub mod Labels
pub mod Own
pub mod Wdrip
pub mod Total
use ooc.Base.{
  ℕ, zero, suc, ◌-◌, String, Bool, true, false, not, Option, none, some, List, [], ◌∷◌, ◌++◌, map,
  str_eq, leb, ◌==◌, if◌then◌else◌, concat, find, length,
}
use ooc.Cloud.{Instance, Member, Node, Master, NodePool, Error, text}
use ooc.Cloud.Exec.{
  Env, Exec, Endpoint, pure, fail, crash, ask, deref, perform, catch, ◌>>=◌, ◌>>◌, wrap, all_nodes,
  delete_node, delete_master, create_master, list_masters, get_cluster,
}
use ooc.Help.{has_node_pool_id, insert}
use ooc.Help.Patch.{patch}
use ooc.Etcd.{Etcd, new_etcd_from_crd, member_list, remove_member, endpoints, etcd_tmp, no_member}
use ooc.Heal.Triple.{
  NodeInfo, Triple, join_master_userdata, node_matches, new_triple_master, new_triple_worker,
  node_pool_instances, unready_node_list, instance_node_diff, master_crddiff, etcd_mem_diff,
  system_in_consistency,
}
use ooc.Heal.Operation.{reset, run, restart, label_node, get_node_name}

abbrev pub control_plane_labels : List (String × String)
control_plane_labels =
    ("node-role.kubernetes.io/master", "") ∷ ("node-role.kubernetes.io/control-plane", "") ∷ []

-- `for ... { err := f(x); if err != nil { return err } }`
unfoldable pub each {ℓ} : {A : Type ℓ} → (A → Exec (Unit {0})) → List A → Exec (Unit {0})
each f [] = pure tt
each f (x ∷ xs) = f x >> each f xs

-- Healthy
unfoldable pub healthy : Env → Exec Bool
healthy env =
    catch (new_triple_master env) (λ _. pure false) (λ trip. pure (system_in_consistency trip))

-- randn: an index for a list of the given length
unfoldable pub randn : Env → ℕ → Exec ℕ
randn env n = if leb n 1 then pure 0 else λ t. pure (env.intn t (n - 1)) t

-- fixUpHard
unfoldable pub fix_up_hard : Env → Triple → NodeInfo → Exec (Unit {0})
unfolding run reset label_node
fix_up_hard env trip info = deref info.instance_of >>= λ _.
    catch (run env info "systemctl restart kubelet")
      (λ _. catch (reset env trip info) (λ _. pure tt) pure)
      (λ _.
        if str_eq info.role join_master_userdata
        then label_node env info control_plane_labels
        else pure tt)

-- fixUpSoft (deprecated)
unfoldable pub fix_up_soft : Env → Triple → NodeInfo → Exec (Unit {0})
unfolding run restart reset
fix_up_soft env trip info = deref info.instance_of >>= λ _.
    catch (run env info "systemctl restart kubelet")
      (λ _. catch (restart env info) (λ _. catch (reset env trip info) (λ _. pure tt) pure) pure)
      pure

unfoldable pub delete_stray : Env → NodeInfo → Exec (Unit {0})
delete_stray env i = do n ← deref i.node; wrap "clean up node" (perform env (delete_node n))

unfoldable pub nth : {A : Type 0} → List A → ℕ → Exec A
nth [] k = crash
nth (x ∷ xs) zero = pure x
nth (x ∷ xs) (suc k) = nth xs k

-- FixUpNode after the deletions: one entry is repaired, wait for the next tick.
unfoldable pub fix_random : Env → Triple → List NodeInfo → Exec (Unit {0})
unfolding randn nth fix_up_hard
fix_random env trip [] = pure tt
fix_random env trip (i ∷ is) = do
  k ← randn env (length (i ∷ is))
  info ← nth (i ∷ is) k
  fix_up_hard env trip info

unfoldable pub fix_one : Env → Triple → List NodeInfo → Exec (Unit {0})
unfolding unready_node_list fix_random fix_up_hard
fix_one env trip (info ∷ _) = get_node_name info >>= λ _. fix_up_hard env trip info
fix_one env trip [] = fix_random env trip (unready_node_list trip)

unfoldable pub fix_up_node : Env → Triple → Exec (Unit {0})
unfolding instance_node_diff each delete_stray fix_one
fix_up_node env trip =
    let (addition, deletion) = instance_node_diff trip in
    each (delete_stray env) deletion >> fix_one env trip addition

-- FixMasterCRD: an error of Create is only logged.
unfoldable pub rebuild_crd : Env → NodeInfo → Exec (Unit {0})
unfolding nth
rebuild_crd env i = do
  n ← deref i.node
  ip ← nth n.addresses 0
  catch
      (perform env (
        create_master
          (record { name = n.provider_id; id = n.provider_id; ip = ip; role = "Hybrid" })))
      (λ _. pure tt) pure

unfoldable pub fix_master_crd : Env → List NodeInfo → Exec (Unit {0})
unfolding each rebuild_crd
fix_master_crd env nodes = each (rebuild_crd env) nodes

-- FixUpMeta
unfoldable pub delete_stale : Env → NodeInfo → Exec (Unit {0})
delete_stale env i = do
  k ← deref i.resource
  wrap "remove master object" (perform env (delete_master k))

unfoldable pub fix_up_meta : Env → Triple → Exec (Unit {0})
unfolding master_crddiff each delete_stale fix_master_crd
fix_up_meta env trip =
    let (deletions, missed) = master_crddiff trip in
    each (delete_stale env) deletions >> fix_master_crd env missed

-- FixUpEtcd
unfoldable pub fix_up_etcd : Env → Triple → Exec (Unit {0})
unfolding new_etcd_from_crd member_list remove_member etcd_mem_diff each
fix_up_etcd env trip =
    if length trip.mcrds == 0 then fail (text "empty master: abort etcd fix") else do
      metcd ← wrap "new etcd" (new_etcd_from_crd env trip.mcrds trip.cluster etcd_tmp)
      mems ← wrap "clean up etcd: member" (member_list env metcd)
      each (λ m. wrap "member center: remove member" (remove_member env metcd m))
          (etcd_mem_diff trip mems)

-- The three steps of FixMasterNode, with the lock held.
unfoldable pub repair : Env → Triple → Exec (Unit {0})
unfolding fix_up_meta fix_up_etcd fix_up_node
repair env trip = do
  wrap "master repair: clean up meta faild" (fix_up_meta env trip)
  wrap "sync, etcd" (fix_up_etcd env trip)
  fix_up_node env trip

unfoldable pub fix_master_node : Env → Exec (Unit {0})
unfolding new_triple_master repair
fix_master_node env = wrap "get Triple" (new_triple_master env) >>= repair env

-- FixNodePool: the nodes of the pool's instances that lack its label
unfoldable pub unlabelled : NodePool → List Node → List Instance → List Node
unfolding has_node_pool_id
unlabelled pool nodes [] = []
unlabelled pool nodes (d ∷ rest) = elim (find (node_matches d.id) nodes) [
  | none ↦ unlabelled pool nodes rest
  | some n ↦
      let others = unlabelled pool nodes rest in
      if has_node_pool_id n pool.name then others else n ∷ others
]

unfoldable pub pool_label : String → Node → Node
unfolding insert
pool_label id n = record n {
  labels = some (insert "np.wdrip.io/id" id (elim n.labels [ none ↦ [] | some labels ↦ labels ]));
}

-- `checking` is the flag isCtrlPlanInChecking, which FixMasterNode sets while it runs.
unfoldable pub fix_node_pool : Env → Bool → NodePool → Exec (Unit {0})
unfolding node_pool_instances each patch unlabelled pool_label new_triple_worker fix_up_node
fix_node_pool env checking pool =
    if checking
    then fail (
        text (
          concat (
            "control plane is in checking, wait for next tick to fix node pool: " ∷ pool.name
            ∷ [])))
    else do
      detail ← wrap "get nodepool ecs" (node_pool_instances env pool)
      nodes ← wrap "get all nodes" (ask all_nodes env.nodes)
      λ t.
          each
            (λ (n : Node). wrap "patch nodepool labels" (patch env n.name (pool_label pool.name)))
            (unlabelled pool nodes (env.range_order t 0 detail)) t
      trip ← wrap "get Triple" (new_triple_worker env pool)
      fix_up_node env trip

-- Cmp of two pointers to integers gives 0: the same pointer is equal to itself, another nil is read
unfoldable pub same_id : Option ℕ → Option ℕ → Option Bool
same_id none none = some true
same_id (some a) (some b) = some (a == b)
same_id _ _ = none

unfoldable pub member_of : Option ℕ → Member
member_of none = no_member
member_of (some id) = record no_member { id = id }

-- RemoveFollower: the member of the first endpoint that is not the leader
unfoldable pub remove_first_follower : Env → Etcd → List Endpoint → Exec String
unfolding remove_member same_id member_of
remove_first_follower env metcd [] = fail (text "empty endpoint")
remove_first_follower env metcd (end ∷ rest) =
    let others = remove_first_follower env metcd rest in
    deref (same_id end.leader end.member_id) >>= λ same.
    if same
    then others
    else wrap "remove member" (remove_member env metcd (member_of end.member_id)) >>= λ _.
        pure end.endpoint

unfoldable pub remove_follower : Env → Exec String
unfolding new_etcd_from_crd endpoints remove_first_follower
remove_follower env = do
  masters ← wrap "member master" (ask list_masters env.masters)
  spec ← wrap "member: spec not found" (ask get_cluster env.cluster)
  metcd ← wrap "new etcd" (new_etcd_from_crd env masters spec etcd_tmp)
  endps ← wrap "endpoint status fail" (endpoints env metcd)
  if length endps == 2
      then remove_first_follower env metcd endps
      else fail (text "remove follower can only work with 2 etcd member")
