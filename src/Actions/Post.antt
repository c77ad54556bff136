-- ===== src/Actions/Post.antt =====
-- What is installed in a new cluster: addons (pkg/actions/post/addons/addon.go), the cluster's own
-- objects, the operator and the monitor (pkg/actions/post/operator.go and monitor.go).
use ooc.Base.{String, List, [], ◌∷◌, Option, none, some, concat, split, str_eq, if◌then◌else◌}
use ooc.Cloud.{Master, ClusterSpec, text}
use ooc.Cloud.Exec.{
  Env, Trace, Reply, Exec, pure, fail, perform, catch, ◌>>=◌, ◌>>◌, wrap, deref, register_crds,
}
use ooc.Cloud.Exec.Polling.{poll_after}
use ooc.Clusters.{given}
use ooc.Masters.{store_key}
use ooc.Bootstrap.{NodeObject, Site}
use ooc.Actions.{Machine, get_dns_ip, apply_yaml_common, auth_file}

-- the fields of a ConfigTpl that defaultAddons does not set
pub record Addon : Type 0 where
  pub name : String
  pub tpl : String
  pub replicas : String
  pub image_version : String

-- The templates of the repository, what the provider knows of the network, and YAML.
pub record Shelf : Type 0 where
  pub all_addons : List Addon
  pub kubeproxy_master : Addon
  pub kubeproxy_worker : Addon
  pub security_group : Trace → String
  pub vswitches : Trace → Reply String
  pub pretty_cluster : NodeObject → String
  pub pretty_node : Master → String
  pub public_info : ClusterSpec → Reply String
  pub pretty_config_map : String → String
  pub secret : ClusterSpec → Reply String
  pub version : String
  pub dir_of : String → String

-- the values of an addon's template
unfoldable pub addon_values :
    ClusterSpec → String → String → String → String → String → Addon → List (String × String)
addon_values spec region ip vsw sgid uuid a =
    ("Name", a.name)
    ∷ ("Tpl", a.tpl)
    ∷ ("Replicas", a.replicas)
    ∷ ("ImageVersion", a.image_version)
    ∷ ("IntranetApiServerEndpoint", concat ("https://" ∷ spec.intranet ∷ ":6443" ∷ []))
    ∷ ("ProxyMode", "iptables")
    ∷ ("Namespace", "kube-system")
    ∷ ("IngressSlbNetworkType", "internet")
    ∷ ("ComponentRevision", "1111")
    ∷ ("Region", region)
    ∷ ("CIDR", spec.pod_cidr)
    ∷ ("Action", "Install")
    ∷ ("KubeDnsClusterIp", ip)
    ∷ ("ServiceCIDR", spec.svc_cidr)
    ∷ ("PodVswitchId", vsw)
    ∷ ("SecurityGroupID", sgid)
    ∷ ("UUID", uuid)
    ∷ []

-- the loop of defaultAddons
unfoldable pub render_addons :
    Machine
    → (String → Addon → List (String × String))
    → List Addon
    → List (String × String)
    → Exec (List (String × String))
unfolding store_key given
render_addons m values_of [] rendered = pure rendered
render_addons m values_of (a ∷ rest) rendered =
    (λ t.
      wrap "render config"
        (given (m.render (concat ("addon-config." ∷ a.name ∷ [])) (values_of (m.uuid t) a))) t)
    >>= λ yml. render_addons m values_of rest (store_key a.name yml rendered)

-- the second part of a registry with four parts
unfoldable pub region_of : List String → Exec String
region_of (a ∷ region ∷ c ∷ d ∷ []) = pure region
region_of parts = fail (text "config registry format error")

unfoldable pub addons_on :
    Machine → ClusterSpec → String → String → List Addon → Exec (List (String × String))
unfolding region_of split get_dns_ip addon_values render_addons
addons_on m spec sgid vsw cfgs = do
  region ← region_of (split "." 0 spec.registry)
  ip ← catch (get_dns_ip m spec.svc_cidr 10) (λ e. fail (text "SVCCIDR must be an ip range")) pure
  render_addons m (λ uuid a. addon_values spec region ip vsw sgid uuid a) cfgs []

-- defaultAddons; with no addon given, all of them, in the network of the provider
unfoldable pub default_addons :
    Machine → Shelf → ClusterSpec → List Addon → Exec (List (String × String))
unfolding addons_on given
default_addons m shelf spec [] = (λ t. wrap "get vswitch" (given (shelf.vswitches t)) t) >>= λ vsw.
    λ t. addons_on m spec (shelf.security_group t) vsw shelf.all_addons t
default_addons m shelf spec (a ∷ cfgs) = addons_on m spec "" "" (a ∷ cfgs)

-- a round of a loop that only logs errors
unfoldable pub logged_round : Exec (Unit {0}) → Exec (Option (Unit {0}))
logged_round m = catch m (λ _. pure none) (λ _. pure (some tt))

-- the loop of InstallAddons
unfoldable pub install_each : Env → List (String × String) → Exec (Unit {0})
unfolding logged_round apply_yaml_common poll_after
install_each env [] = pure tt
install_each env ((name, yml) ∷ rest) =
    wrap "apply addon wait error" (
      poll_after
        (logged_round
          (apply_yaml_common env yml auth_file (concat ("/tmp/addon." ∷ name ∷ ".yml" ∷ []))))
        2 (env.attempts 2 60))
    >> install_each env rest

-- InstallAddons
unfoldable pub install_addons : Env → Machine → Shelf → ClusterSpec → List Addon → Exec (Unit {0})
unfolding default_addons install_each
install_addons env m shelf spec cfgs = do
  rendered ← wrap "generate default addon" (default_addons m shelf spec cfgs)
  λ t. install_each env (m.map_order t rendered) t

-- ApplyYaml
unfoldable pub apply_yaml : Env → String → String → Exec (Unit {0})
unfolding apply_yaml_common
apply_yaml env yml name =
    apply_yaml_common env yml auth_file (concat ("/tmp/cfg." ∷ name ∷ ".yaml" ∷ []))

-- BootCFG
unfoldable pub boot_cfg : Env → Shelf → ClusterSpec → Exec (Unit {0})
unfolding apply_yaml given
boot_cfg env shelf spec =
    wrap "marshal bootcfg" (given (shelf.secret spec)) >>= λ yml. apply_yaml env yml "bootcfg"

-- the loops of doRunWdrip and RunMonitor
unfoldable pub apply_until : Env → Shelf → ClusterSpec → String → String → Exec (Unit {0})
unfolding boot_cfg apply_yaml logged_round poll_after
apply_until env shelf spec yml name =
    poll_after (logged_round (boot_cfg env shelf spec >> apply_yaml env yml name)) 2
      (env.attempts 2 60)

unfoldable pub image_registry : Shelf → ClusterSpec → String
image_registry shelf spec = concat (shelf.dir_of spec.registry ∷ "/aoxn" ∷ [])

-- doRunWdrip, with RenderWdripYaml
unfoldable pub do_run_wdrip : Env → Machine → Shelf → ClusterSpec → Exec (Unit {0})
unfolding image_registry apply_until given
do_run_wdrip env m shelf spec =
    (λ t.
      wrap "write wdrip yaml"
        (given (
          m.render "wdrip-file" (
            ("Version", shelf.version)
            ∷ ("Registry", image_registry shelf spec)
            ∷ ("UUID", m.uuid t)
            ∷ [])))
        t)
    >>= λ yml. apply_until env shelf spec yml "wdrip"

-- RunMonitor, with RenderMonitorYaml
unfoldable pub run_monitor : Env → Machine → Shelf → ClusterSpec → Exec (Unit {0})
unfolding image_registry apply_until given
run_monitor env m shelf spec =
    wrap "write monitor yaml" (
      given (
        m.render "monitor" (
          ("Version", shelf.version)
          ∷ ("ClusterName", spec.cluster_id)
          ∷ ("Registry", image_registry shelf spec)
          ∷ [])))
    >>= λ yml. apply_until env shelf spec yml "monitor"

-- RunWdrip
unfoldable pub run_wdrip : Env → Machine → Shelf → ClusterSpec → Exec (Unit {0})
unfolding do_run_wdrip run_monitor
run_wdrip env m shelf spec = do_run_wdrip env m shelf spec >> run_monitor env m shelf spec

-- WriteClusterCR
unfoldable pub write_cluster_cr : Env → Shelf → NodeObject → Exec (Unit {0})
unfolding apply_yaml
write_cluster_cr env shelf node =
    apply_yaml env
      (concat (shelf.pretty_cluster node ∷ "---\n" ∷ shelf.pretty_node node.resource ∷ []))
      "cluster-crd"

-- WritePublicInfo
unfoldable pub write_public_info : Env → Shelf → ClusterSpec → Exec (Unit {0})
unfolding apply_yaml given
write_public_info env shelf spec =
    wrap "write config" (given (shelf.public_info spec)) >>= λ kubeconfig.
    apply_yaml env (shelf.pretty_config_map kubeconfig) "cluster-info"

-- ActionPost
unfoldable pub install_post : Env → Machine → Shelf → Site → NodeObject → Exec (Unit {0})
unfolding install_addons write_cluster_cr write_public_info run_wdrip
install_post env m shelf site node = do
  boot ← deref node.boot
  let cfgs =
      if str_eq site.flags.addons "*"
      then shelf.all_addons
      else shelf.kubeproxy_master ∷ shelf.kubeproxy_worker ∷ []
  wrap "install addons" (install_addons env m shelf boot.spec cfgs)
  wrap "register crds" (perform env (register_crds "/etc/kubernetes/admin.conf"))
  wrap "write cluster cfg" (write_cluster_cr env shelf node)
  root ← deref boot.spec.root_ca
  catch (write_public_info env shelf boot.spec) (λ _. fail (text "write public cluster info")) pure
  run_wdrip env m shelf boot.spec
