-- ===== src/Heal/Triple.antt =====
-- Triple (pkg/operator/heal/triple.go): which instance, node and master resource belong together,
-- and what differs between the three lists. The proofs are in the modules below.
pub mod Consistency
pub mod Quorum
pub mod Aliasing
pub mod Coverage
pub mod Safety
use ooc.Base.{
  ℕ, ◌+◌, ◌*◌, String, Bool, true, false, not, ◌&&◌, ◌||◌, Option, none, some, List, [], ◌∷◌, ◌++◌,
  map, str_eq, ltb, ◌==◌, if◌then◌else◌, any, find, select, length, is_some, contains, concat,
}
use ooc.Cloud.{Instance, Node, Master, Cluster, NodePool, Member, Error, text}
use ooc.Cloud.Exec.{
  Env, Exec, pure, ask, maybe, ◌>>=◌, wrap, get_cluster, list_masters, master_nodes,
  node_pool_nodes, control_plane_ecs, node_pool_ecs,
}
use ooc.Help.{node_ready}

-- The roles of provider.go that the heal center uses.
abbrev pub worker_userdata : String
worker_userdata = "Worker"

abbrev pub join_master_userdata : String
join_master_userdata = "JoinMaster"

-- `GetName` of the source is never set.
pub record NodeInfo : Type 0 where
  pub role : String
  pub instance_of : Option Instance
  pub node : Option Node
  pub resource : Option Master

pub record Triple : Type 0 where
  pub role : String
  pub cluster : Cluster
  pub mcrds : List Master
  pub mnodes : List Node
  pub instances : List Instance
  pub node_info : List NodeInfo

-- `strings.Contains(n.Spec.ProviderID, id)`
abbrev pub node_matches : String → Node → Bool
node_matches id n = contains n.provider_id id

abbrev pub crd_matches : String → Master → Bool
crd_matches id m = contains m.id id

-- Triple.GetNode
unfoldable pub get_node_of : Triple → String → Option Node
get_node_of t id = find (node_matches id) t.mnodes

-- The first loop of NewTripleMaster: one entry for an instance.
unfoldable pub instance_info : String → List Master → List Node → Instance → NodeInfo
instance_info role mcrds mnodes i = record {
  role = role;
  instance_of = some i;
  node = find (node_matches i.id) mnodes;
  resource = find (crd_matches i.id) mcrds;
}

-- Does an entry stand for the resource `k`, by its instance or by its node?
unfoldable pub has_crd : Master → NodeInfo → Bool
has_crd k i =
    elim i.instance_of [ none ↦ false | some d ↦ contains k.id d.id ]
    || elim i.node [ none ↦ false | some n ↦ contains n.provider_id k.id ]

-- The second loop: the resources that no entry stands for.
unfoldable pub add_crd : String → List Node → Master → List NodeInfo → List NodeInfo
unfolding has_crd
add_crd role mnodes k infos =
    if any (has_crd k) infos
    then infos
    else infos
      ++ record {
        role = role;
        instance_of = none;
        node = find (node_matches k.id) mnodes;
        resource = some k;
      }
        ∷ []

unfoldable pub add_crds : String → List Node → List Master → List NodeInfo → List NodeInfo
unfolding add_crd
add_crds role mnodes [] infos = infos
add_crds role mnodes (k ∷ rest) infos = add_crds role mnodes rest (add_crd role mnodes k infos)

-- Does an entry stand for the node, by its instance or by its resource?
unfoldable pub has_node : Node → NodeInfo → Bool
has_node n i =
    elim i.instance_of [ none ↦ false | some d ↦ contains n.provider_id d.id ]
    || elim i.resource [ none ↦ false | some k ↦ contains n.provider_id k.id ]

-- The third loop: the nodes that no entry stands for. Their role is not set.
unfoldable pub add_node : List Master → Node → List NodeInfo → List NodeInfo
unfolding has_node
add_node mcrds n infos =
    if any (has_node n) infos
    then infos
    else infos
      ++ record {
        role = "";
        instance_of = none;
        node = some n;
        resource = find (λ (m : Master). contains n.provider_id m.id) mcrds;
      }
        ∷ []

unfoldable pub add_nodes : List Master → List Node → List NodeInfo → List NodeInfo
unfolding add_node
add_nodes mcrds [] infos = infos
add_nodes mcrds (n ∷ rest) infos = add_nodes mcrds rest (add_node mcrds n infos)

-- The three loops together.
unfoldable pub master_infos : List Master → List Node → List Instance → List NodeInfo
unfolding instance_info add_crds add_nodes
master_infos mcrds mnodes detail = add_nodes mcrds mnodes (
    add_crds join_master_userdata mnodes mcrds
      (map (instance_info join_master_userdata mcrds mnodes) detail))

-- GetControlPlaneECS, with InfraManager.ControlPlaneECS (infra.go)
unfoldable pub control_plane_instances : Env → Exec (List Instance)
control_plane_instances env = wrap "scaling group" (ask control_plane_ecs env.master_instances)

-- `detail` is a map: the loop and `ToList` each visit it in an order of their own.
unfoldable pub new_triple_master : Env → Exec Triple
unfolding control_plane_instances master_infos
new_triple_master env = do
  spec ← wrap "get cluster" (ask get_cluster env.cluster)
  mcrds ← wrap "get master" (ask list_masters env.masters)
  mnodes ← wrap "master node" (ask master_nodes env.labelled_masters)
  detail ← wrap "ess master" (control_plane_instances env)
  λ t.
      pure
        (record {
          role = join_master_userdata;
          cluster = spec;
          mcrds = mcrds;
          mnodes = mnodes;
          instances = env.range_order t 0 detail;
          node_info = master_infos mcrds mnodes (env.range_order t 1 detail);
        })
        t

-- The last instance of a range: what `&d` points to once the loop is over (go 1.16 declares the
-- variable of a range once, so that every `&d` of the loop is the same pointer).
unfoldable pub last {ℓ} : {A : Type ℓ} → List A → Option A
last [] = none
last (x ∷ []) = some x
last (x ∷ y ∷ rest) = last (y ∷ rest)

-- The first loop of NewTripleWorker. The node is matched while the loop is at `d`; the stored
-- pointer `&d` is read after the loop, when it points to `d_end`.
unfoldable pub worker_info : String → Option Instance → List Node → Instance → NodeInfo
worker_info role d_end mnodes d = record {
  role = role;
  instance_of = d_end;
  node = find (node_matches d.id) mnodes;
  resource = none;
}

unfoldable pub has_instance_for : Node → NodeInfo → Bool
has_instance_for n i = elim i.instance_of [ none ↦ false | some d ↦ contains n.provider_id d.id ]

-- The second loop; `&n` points to `n_end` after it.
unfoldable pub add_worker_nodes : String → Option Node → List Node → List NodeInfo → List NodeInfo
unfolding has_instance_for
add_worker_nodes role n_end [] infos = infos
add_worker_nodes role n_end (n ∷ rest) infos = add_worker_nodes role n_end rest (
    if any (has_instance_for n) infos
    then infos
    else infos ++ record { role = role; instance_of = none; node = n_end; resource = none } ∷ [])

unfoldable pub worker_infos : List Node → List Instance → List NodeInfo
unfolding worker_info add_worker_nodes last
worker_infos mnodes detail =
    add_worker_nodes worker_userdata (last mnodes) mnodes
      (map (worker_info worker_userdata (last detail) mnodes) detail)

-- GetNodePoolECS, with InfraManager.NodePoolECS: a pool with no scaling group has no instances.
unfoldable pub node_pool_instances : Env → NodePool → Exec (List Instance)
node_pool_instances env np = maybe np.bind (pure []) (λ bind.
    wrap (concat ("group " ∷ bind.scaling_group_id ∷ " detail" ∷ []))
      (ask (node_pool_ecs np) (λ t. env.pool_instances t np)))

unfoldable pub new_triple_worker : Env → NodePool → Exec Triple
unfolding node_pool_instances worker_infos
new_triple_worker env np = do
  spec ← wrap "get cluster" (ask get_cluster env.cluster)
  mnodes ← wrap "master node" (ask (node_pool_nodes np) (λ t. env.labelled_workers t np))
  detail ← wrap "ess master" (node_pool_instances env np)
  λ t.
      pure
        (record {
          role = worker_userdata;
          cluster = spec;
          mcrds = [];
          mnodes = mnodes;
          instances = env.range_order t 0 detail;
          node_info = worker_infos mnodes (env.range_order t 1 detail);
        })
        t

-- UnReadyNodeList: instance and node are there, and the node is not ready.
unfoldable pub is_unready : NodeInfo → Bool
is_unready i = elim i.node [
  | none ↦ false
  | some n ↦ elim i.instance_of [ none ↦ false | some _ ↦ not (node_ready n) ]
]

unfoldable pub unready_node_list : Triple → List NodeInfo
unfolding is_unready
unready_node_list t = select is_unready t.node_info

-- InstanceCRDiff: the additions and the deletions
unfoldable pub instance_crdiff : Triple → List NodeInfo × List NodeInfo
instance_crdiff t = (
  select (λ (i : NodeInfo). is_some i.instance_of && not (is_some i.resource)) t.node_info,
  select (λ (i : NodeInfo). not (is_some i.instance_of) && is_some i.resource) t.node_info,
)

-- InstanceNodeDiff: the instances with no node, and the nodes with no instance
unfoldable pub lacks_node : NodeInfo → Bool
lacks_node i = is_some i.instance_of && not (is_some i.node)

unfoldable pub lacks_instance : NodeInfo → Bool
lacks_instance i = not (is_some i.instance_of) && is_some i.node

unfoldable pub instance_node_diff : Triple → List NodeInfo × List NodeInfo
unfolding lacks_node lacks_instance
instance_node_diff t = (select lacks_node t.node_info, select lacks_instance t.node_info)

-- MasterCRDDiff: the resources to be deleted, and the entries whose resource is to be rebuilt
unfoldable pub is_stale_crd : NodeInfo → Bool
is_stale_crd i = is_some i.resource && not (is_some i.instance_of)

unfoldable pub misses_crd : NodeInfo → Bool
misses_crd i = not (is_some i.resource) && is_some i.node && is_some i.instance_of

unfoldable pub master_crddiff : Triple → List NodeInfo × List NodeInfo
unfolding is_stale_crd misses_crd
master_crddiff t = (select is_stale_crd t.node_info, select misses_crd t.node_info)

-- SystemInConsistency: "the system is in consistency"
unfoldable pub system_in_consistency : Triple → Bool
unfolding unready_node_list instance_crdiff instance_node_diff master_crddiff
system_in_consistency t =
    let (uiadd, uidel) = instance_crdiff t in
    let (ucadd, ucdel) = instance_node_diff t in
    let (umadd, umdel) = master_crddiff t in
    length (unready_node_list t)
      + length uiadd
      + length uidel
      + length ucadd
      + length ucdel
      + length umadd
      + length umdel
    == 0

-- EtcdMemDiff. Lengths below 2 ^ 24 are exact in a float32, and `d > 0.5 * m` is `m < 2 * d`.
unfoldable pub is_orphan : List Instance → Member → Bool
is_orphan instances m = not (any (λ (e : Instance). str_eq m.ip e.ip) instances)

unfoldable pub etcd_mem_diff : Triple → List Member → List Member
unfolding is_orphan
etcd_mem_diff t mems =
    let deletions = select (is_orphan t.instances) mems in
    if ltb (length mems) (2 * length deletions) then [] else deletions
