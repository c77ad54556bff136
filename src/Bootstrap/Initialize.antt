-- ===== src/Bootstrap/Initialize.antt =====
-- How a new machine learns what it has to become (pkg/boot/initialize.go, pkg/boot/help.go): from the
-- operator, from a file, or from a backup; from a coordinator in Bootstrap/Coordinator.antt. The node
-- that is returned is the one that SetKV stores in the context; after an error the process ends, and
-- the context with it. The provider's context that InitFromRecover stores besides is left out.
pub mod Authorities
pub mod Recovery
use ooc.Base.{
  ℕ, zero, suc, String, Bool, true, false, Option, none, some, List, [], ◌∷◌, ◌++◌, any, str_eq,
  if◌then◌else◌, concat,
}
use ooc.Cloud.{Master, ClusterId, ClusterSpec, Error, text}
use ooc.Cloud.Exec.{
  Env, Reply, Exec, pure, fail, crash, ask, deref, catch, ◌>>=◌, ◌>>◌, wrap, maybe, pause,
  file_exist, node_meta, read_file, boot_cluster,
}
use ooc.Cloud.Exec.Polling.{poll_immediate}
use ooc.Backup.{snapshot_tmp, new_snapshot_index, lazy_load, latest_backup}
use ooc.Clusters.{Desk, given, get_cluster_id, save_cluster}
use ooc.Bootstrap.{BootCluster, NodeObject, Site}

-- AddExtraSans
unfoldable pub add_sans : String → List String → List String
add_sans endpoint sans = if any (λ ip. str_eq ip endpoint) sans then sans else sans ++ endpoint ∷ []

unfoldable pub extra_sans : String → List String → List String
unfolding add_sans
extra_sans endpoint sans = if str_eq endpoint "" then sans else add_sans endpoint sans

unfoldable pub add_extra_sans : ClusterSpec → ClusterSpec
unfolding extra_sans
add_extra_sans spec = record spec {
  sans = extra_sans spec.internet (extra_sans spec.intranet spec.sans);
}

-- the metadata service; its guard against nil comes first in each function
unfoldable pub with_meta : {A : Type 0} → Site → Exec A → Exec A
with_meta site m = if site.has_meta then m else fail (text "nil client")

unfoldable pub meta_value : Site → String → String → Exec String
unfolding ask wrap
meta_value site note key = wrap note (ask (node_meta key) (λ t. site.metadata t key))

unfoldable pub identify : Site → String → String → Exec Master
unfolding with_meta meta_value
identify site no_id no_ip = with_meta site do
  id ← meta_value site no_id "node-id"
  ip ← meta_value site no_ip "node-ip"
  pure (record { name = ip; id = id; ip = ip; role = site.flags.role })

unfoldable pub node_of : Master → BootCluster → NodeObject
unfolding add_extra_sans
node_of m cluster = record {
  resource = m;
  created = none;
  peers = cluster.peers;
  boot = some (record cluster { spec = add_extra_sans cluster.spec });
}

-- the clients of the bootstrap service are missing without an endpoint, and asserting their type panics
unfoldable pub with_client : {A : Type 0} → Site → Exec A → Exec A
with_client site m = if str_eq site.flags.endpoint "" then crash else m

unfoldable pub fetched_cluster : Site → Exec (Option BootCluster)
fetched_cluster site =
    catch (ask (boot_cluster "kubernetes-cluster") (λ t. site.cluster t "kubernetes-cluster"))
      (λ e. pure none) (λ c. pure (some c))

-- InitFromOperator
unfoldable pub init_from_operator : Env → Site → Exec NodeObject
unfolding with_client poll_immediate fetched_cluster identify node_of
init_from_operator env site = with_client site do
  cluster ← wrap "retrieve bootcfg" (poll_immediate (fetched_cluster site) 5 (env.attempts 5 300))
  m ← identify site "meta data error node id" "meta data error node ip"
  pure (node_of m cluster)

-- `if prec.X != nil && cluster.X == nil { cluster.X = prec.X }`
unfoldable pub keep_previous : Option String → Option String → Option String
keep_previous (some own) prec = some own
keep_previous none prec = prec

unfoldable pub keep_cas : ClusterSpec → ClusterSpec → ClusterSpec
unfolding keep_previous
keep_cas prec cluster = record cluster {
  control_root = keep_previous cluster.control_root prec.control_root;
  front_proxy_ca = keep_previous cluster.front_proxy_ca prec.front_proxy_ca;
  root_ca = keep_previous cluster.root_ca prec.root_ca;
  svc_account_ca = keep_previous cluster.svc_account_ca prec.svc_account_ca;
  peer_ca = keep_previous cluster.peer_ca prec.peer_ca;
  server_ca = keep_previous cluster.server_ca prec.server_ca;
}

-- SetDefaultCredential: a certificate that is missing is made, or the code panics
unfoldable pub or_fresh : Site → String → Option String → Exec String
unfolding maybe
or_fresh site purpose own = maybe own (λ t. maybe (site.fresh t purpose) crash pure t) pure

unfoldable pub or_token : Site → String → Exec String
unfolding or_fresh
or_token site own = if str_eq own "" then or_fresh site "kubeadm token" none else pure own

unfoldable pub set_default_credential : Site → ClusterSpec → Exec ClusterSpec
unfolding or_fresh or_token
set_default_credential site spec = do
  root ← or_fresh site "root" spec.root_ca
  front ← or_fresh site "front proxy" spec.front_proxy_ca
  sa ← or_fresh site "service account" spec.svc_account_ca
  token ← or_token site spec.kubeadm_token
  server ← or_fresh site "etcd server" spec.server_ca
  peer ← or_fresh site "etcd peer" spec.peer_ca
  λ t.
      pure
        (record spec {
          root_ca = some root;
          front_proxy_ca = some front;
          svc_account_ca = some sa;
          kubeadm_token = token;
          server_ca = some server;
          peer_ca = some peer;
          init_token = if str_eq spec.init_token "" then site.init_token t else spec.init_token;
        })
        t

unfoldable pub read_spec : Site → String → Exec ClusterSpec
unfolding given
read_spec site path = do
  bytes ← ask (read_file path) (λ t. site.file t path)
  wrap "error decode cluster" (given (site.parse_spec bytes))

unfoldable pub previous_cas : Site → String → ClusterSpec → Bool → Exec ClusterSpec
unfolding read_spec keep_cas
previous_cas site path cluster false = pure cluster
previous_cas site path cluster true = read_spec site path >>= λ prec. pure (keep_cas prec cluster)

-- InitFromCfg
unfoldable pub init_from_cfg : Env → Site → Exec NodeObject
unfolding read_spec previous_cas identify set_default_credential node_of
init_from_cfg env site =
    let cfg = site.flags.config in
    let gen = concat (cfg ∷ ".gen" ∷ []) in
    if str_eq cfg "" then fail (text "empty cluster config, --config") else do
      cluster ← read_spec site cfg
      exist ←
          wrap (concat ("read file stat: " ∷ gen ∷ []))
            (ask (file_exist gen) (λ t. env.has_file t gen))
      kept ← previous_cas site gen cluster exist
      m ← identify site "meta data error node id" "meta data error node ip"
      spec ← set_default_credential site kept
      pure (node_of m (record { spec = spec; peers = [] }))

-- the settings of the infrastructure that the new cluster keeps
unfoldable pub override_infra : ClusterSpec → ClusterSpec → ClusterSpec
override_infra own from = record from {
  intranet = own.intranet;
  internet = own.internet;
  cluster_id = own.cluster_id;
  provider = own.provider;
  region = own.region;
  resource_id = own.resource_id;
}

unfoldable pub adopt : Env → Desk → String → ClusterId → ClusterSpec → Exec ClusterId
unfolding override_infra save_cluster
adopt env desk source mid from =
    let mid' = record mid { spec = override_infra mid.spec from } in
    wrap "save clusterid" (save_cluster env desk mid') >> pure mid'

-- an operation on an index with its error beside it
unfoldable pub checked : {A : Type 0} → A × Option Error → Exec A
checked (a, none) = pure a
checked (a, some e) = fail e

-- InitFromRecover
unfoldable pub init_from_recover : Env → Desk → Site → Exec NodeObject
unfolding identify meta_value given get_cluster_id latest_backup new_snapshot_index checked adopt
    node_of lazy_load
init_from_recover env desk site =
    let name = site.flags.cluster_name in
    let source = site.flags.recover_from in
    do
      m ← identify site "meta data error node id" "meta data error node ip"
      region ← meta_value site "meta data error region" "region"
      wrap "initialize provider" (λ t. given (site.provider t region) t)
      mid ← wrap (concat ("no cluster found by name " ∷ name ∷ [])) (get_cluster_id env desk name)
      backup ←
          wrap "download backup db file"
            (latest_backup env snapshot_tmp (new_snapshot_index source) >>= checked)
      adopted ←
          if str_eq source name
          then pure mid
          else (deref backup.snapshot.spec >>= λ c. adopt env desk source mid (desk.cluster_spec c))
      (lazy_load env backup >>= checked) >>= λ _.
          pure (node_of m (record { spec = adopted.spec; peers = [] }))
