-- ===== src/Actions/Kubeadm.antt =====
-- The actions that make a machine a node of the cluster (pkg/actions/kubeadm).
use ooc.Base.{String, List, [], ◌∷◌, map, Option, none, some, concat, split, str_eq, if◌then◌else◌}
use ooc.Cloud.{Master, ClusterSpec}
use ooc.Cloud.Exec.{Env, Exec, pure, crash, perform, catch, ◌>>=◌, ◌>>◌, wrap, deref, make_dir}
use ooc.Cloud.Exec.Polling.{poll_after}
use ooc.Clusters.{given}
use ooc.Etcd.Boot.{ignored}
use ooc.Bootstrap.{NodeObject}
use ooc.Actions.{Machine, join_path, run_cmd, write, auth_file}

-- BreakDownIDOrDie and WithNodeName
unfoldable pub named : String → List String → Exec String
named ip (region ∷ instance_id ∷ []) = pure (concat (ip ∷ "." ∷ instance_id ∷ []))
named ip parts = crash

unfoldable pub node_name : Master → Exec String
unfolding named split
node_name master = named master.ip (split "." 0 master.id)

-- WithEtcdEndpoints
unfoldable pub client_url : String → String
client_url host = concat ("https://" ∷ host ∷ ":2379" ∷ [])

unfoldable pub etcd_endpoints : ClusterSpec → Master → Exec (List String)
unfolding client_url split
etcd_endpoints spec master =
    if str_eq spec.endpoints ""
    then (if str_eq master.ip "" then crash else pure (client_url master.ip ∷ []))
    else pure (map client_url (split "," 0 spec.endpoints))

-- removeMetadata, strings.Replace of all
unfoldable pub remove_metadata : String → String
unfolding split
remove_metadata kustomized = concat (split "metadata:\n  name: config\n" 24 kustomized)

-- Config and getKubeadmConfig, which has no patches
unfoldable pub get_kubeadm_config : Machine → NodeObject → Exec String
unfolding node_name etcd_endpoints remove_metadata given
get_kubeadm_config m node = do
  boot ← deref node.boot
  name ← node_name node.resource
  endpoints ← etcd_endpoints boot.spec node.resource
  raw ← wrap "error executing config template" (given (m.render_config node name endpoints))
  patched ← given (m.kustomize raw)
  pure (remove_metadata patched)

-- ActionInit
unfoldable pub init_control_plane : Env → Machine → NodeObject → Exec (Unit {0})
unfolding get_kubeadm_config join_path write run_cmd
init_control_plane env m node =
    let path = join_path m ("/etc/kubeadm/" ∷ "kubeadm.conf" ∷ []) in
    do
      config ← wrap "failed to generate kubeadm config content" (get_kubeadm_config m node)
      wrap "mkdir /etc/kubeadm/ error" (perform env (make_dir "/etc/kubeadm/"))
      wrap "failed to copy kubeadm config to node" (write env path config)
      run_cmd env (
          "kubeadm"
          ∷ "init"
          ∷ "--ignore-preflight-errors=all"
          ∷ concat ("--config=" ∷ path ∷ [])
          ∷ "--skip-token-print"
          ∷ "--v=6"
          ∷ [])

-- WaitJoin
unfoldable pub join_seen : Env → Exec (Option (Unit {0}))
unfolding run_cmd
join_seen env =
    catch
      (run_cmd env
        ("kubectl" ∷ "--kubeconfig" ∷ "/etc/kubernetes/kubelet.conf" ∷ "get" ∷ "no" ∷ []))
      (λ _. pure none) (λ _. pure (some tt))

-- ActionJoin
unfoldable pub join_node : Env → Machine → NodeObject → Exec (Unit {0})
unfolding node_name ignored run_cmd join_seen poll_after
join_node env m node = do
  boot ← deref node.boot
  name ← node_name node.resource
  ignored (perform env (make_dir "/etc/kubernetes/manifests"))
  wrap "kubeadm join" (
      run_cmd env (
        "kubeadm"
        ∷ "join"
        ∷ "--v=6"
        ∷ "--ignore-preflight-errors=all"
        ∷ "--node-name"
        ∷ name
        ∷ "--token"
        ∷ boot.spec.kubeadm_token
        ∷ "--discovery-token-unsafe-skip-ca-verification"
        ∷ concat (boot.spec.intranet ∷ ":6443" ∷ [])
        ∷ []))
  poll_after (join_seen env) 2 (env.attempts 2 300)

-- ActionCCM
unfoldable pub write_ccm_auth : Env → Machine → NodeObject → Exec (Unit {0})
unfolding write given
write_ccm_auth env m node = do
  wrap "ensure dir /etc/kubernetes" (perform env (make_dir "/etc/kubernetes/"))
  boot ← deref node.boot
  root ← deref boot.spec.root_ca
  cfg ← wrap "render config error" (
      given (
        m.render "ccmauthconfig"
          (("AuthCA", m.encode64 (m.cert root)) ∷ ("IntranetLB", boot.spec.intranet) ∷ [])))
  write env "/etc/kubernetes/cloud-controller-manager.conf" cfg

-- ActionKubeAuth; the error of writing the generated configuration is only logged
unfoldable pub write_kube_auth : Env → Machine → NodeObject → Exec (Unit {0})
unfolding write given ignored
write_kube_auth env m node = do
  wrap "ensure dir /etc/kubernetes for admin.local" (perform env (make_dir "/etc/kubernetes/"))
  boot ← deref node.boot
  root ← deref boot.spec.root_ca
  pair ← wrap "sign kubernetes client crt" (given (m.sign_client root))
  wrap "make wdrip dir" (perform env (make_dir "/etc/wdrip"))
  ignored (write env "/etc/wdrip/wdrip.cfg.gen" (m.pretty_spec boot.spec))
  cfg ← wrap "render admin.local config error" (
      given (
        m.render "admin.authconfig" (
          ("AuthCA", m.encode64 (m.cert root))
          ∷ ("Address", node.resource.ip)
          ∷ ("ClientCRT", m.encode64 pair.1)
          ∷ ("ClientKey", m.encode64 pair.0)
          ∷ [])))
  write env auth_file cfg
