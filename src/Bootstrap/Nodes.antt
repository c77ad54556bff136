-- ===== src/Bootstrap/Nodes.antt =====
-- The boot of a machine from its role: pkg/boot/node.go, docker.go and etcd.go, and the commands
-- `wdrip init` and `wdrip recover` (cmd/wdrip).
pub mod Authority
pub mod Calls
pub mod Certified
pub mod Master
pub mod Worker
use ooc.Base.{String, List, [], ◌∷◌, ◌++◌, map, Option, none, some, str_eq, not, if◌then◌else◌}
use ooc.Cloud.{Error, ClusterSpec, text}
use ooc.Cloud.Exec.{
  Env, Trace, Exec, pure, fail, crash, ask, catch, ◌>>=◌, ◌>>◌, wrap, deref, node_meta,
}
use ooc.Clusters.{Desk, given}
use ooc.Etcd.Boot.{BootNode, execute}
use ooc.Bootstrap.{Host, NodeObject, Site}
use ooc.Bootstrap.Coordinator.{init_func}
use ooc.Actions.{Machine, run_actions, concurrent}
use ooc.Actions.Files.{Package, File, install_files, start_docker}
use ooc.Actions.Kubeadm.{init_control_plane, write_ccm_auth, write_kube_auth, join_node}
use ooc.Actions.Kubelet.{start_kubelet}
use ooc.Actions.Post.{Shelf, install_post}

-- the files that a package comes in, with the fields that differ
unfoldable pub package_file :
    Site → ClusterSpec → String → String → String → String → String → String → File
package_file site spec os arch pkg version cache destination = record {
  bucket = site.flags.bucket;
  region = "";
  base_server = "";
  cache = cache;
  versioned_path = record {
    project = "wdrip";
    namespace = spec.namespace;
    ctype = spec.cloud_type;
    pkg = pkg;
    version = version;
    arch = arch;
    os = os;
    ftype = "bin";
    destination = destination;
  };
}

-- `nmeta.OS()` and `nmeta.Arch()`, of an interface that may be nil
unfoldable pub platform : Site → Exec (String × String)
platform site = if not site.has_meta then crash else do
  os ← wrap "call meta.OS" (ask (node_meta "os") (λ t. site.metadata t "os"))
  arch ← wrap "call meta.ARCH" (ask (node_meta "arch") (λ t. site.metadata t "arch"))
  pure (os, arch)

module _ (env : Env) (m : Machine) (shelf : Shelf) (site : Site) where
  -- InitContainerRuntime
  unfoldable pub init_container_runtime : NodeObject → Exec (Unit {0})
  unfolding platform install_files start_docker package_file run_actions
  init_container_runtime node = do
    p ← platform site
    boot ← deref node.boot
    if str_eq boot.spec.runtime "containerd"
        then fail (text "not supported")
        else run_actions (
            install_files env m site
              (package_file site boot.spec p.0 p.1 "docker" boot.spec.runtime_version "" "" ∷ [])
            ∷ start_docker env m
            ∷ [])

  -- InitEtcd
  unfoldable pub init_etcd : NodeObject → Exec (Unit {0})
  unfolding platform install_files package_file run_actions execute
  init_etcd node = do
    p ← platform site
    boot ← deref node.boot
    let member : BootNode = record {
      master = node.resource;
      token = boot.spec.init_token;
      peers = map (λ (h : Host). h.0) node.peers;
    }
    run_actions (
        install_files env m site
          (package_file site boot.spec p.0 p.1 "etcd" boot.spec.etcd_version "" "" ∷ [])
        ∷ execute env (some member) site.flags.boot_type
        ∷ [])

  -- NewConcurrentPkgDL
  unfoldable pub download_packages : ClusterSpec → String → String → Exec (Unit {0})
  unfolding install_files package_file concurrent
  download_packages spec os arch t =
      let kubernetes =
        install_files env m site
          (package_file site spec os arch "kubernetes" spec.version "pkg/kubernetes/" "" ∷ []) in
      let cni =
        install_files env m site
          (package_file site spec os arch "kubernetes-cni" "0.8.6" "" "/opt/cni/bin/" ∷ []) in
      concurrent (if m.swapped t then cni ∷ kubernetes ∷ [] else kubernetes ∷ cni ∷ []) t

  -- InitMasterAlone
  unfoldable pub init_master_alone : NodeObject → Exec (Unit {0})
  unfolding platform download_packages run_actions start_kubelet init_control_plane write_ccm_auth
      write_kube_auth install_post given
  init_master_alone node = do
    p ← platform site
    boot ← deref node.boot
    λ t. wrap "initialize provider" (given (site.provider t boot.spec.region)) t
    run_actions (
        download_packages boot.spec p.0 p.1
        ∷ start_kubelet env m site node
        ∷ init_control_plane env m node
        ∷ write_ccm_auth env m node
        ∷ write_kube_auth env m node
        ∷ install_post env m shelf site node
        ∷ [])

  -- InitWorker
  unfoldable pub init_worker : NodeObject → Exec (Unit {0})
  unfolding platform download_packages run_actions start_kubelet join_node
  init_worker node = do
    p ← platform site
    boot ← deref node.boot
    run_actions (
        download_packages boot.spec p.0 p.1
        ∷ start_kubelet env m site node
        ∷ join_node env m node
        ∷ [])

  -- the steps of a role
  unfoldable pub role_steps : NodeObject → String → List (Exec (Unit {0}))
  unfolding init_etcd init_master_alone init_worker
  role_steps node role =
      if str_eq role "ETCD"
      then init_etcd node ∷ []
      else if str_eq role "Master"
      then init_master_alone node ∷ []
      else if str_eq role "Hybrid"
      then init_etcd node ∷ init_master_alone node ∷ []
      else if str_eq role "Worker"
      then init_worker node ∷ []
      else []

  -- initnode: the first step fills in the node
  unfoldable pub init_node : Desk → Exec (Unit {0})
  unfolding init_func init_container_runtime role_steps run_actions
  init_node desk = wrap "steps" (
      init_func env desk site >>= λ node.
      run_actions (init_container_runtime node ∷ role_steps node site.flags.role))

  -- doRecover
  unfoldable pub do_recover : Desk → Exec (Unit {0})
  unfolding init_func init_container_runtime init_etcd init_master_alone run_actions
  do_recover desk = wrap "steps" (
      init_func env desk site >>= λ node.
      run_actions (init_container_runtime node ∷ init_etcd node ∷ init_master_alone node ∷ []))
