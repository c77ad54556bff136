-- ===== src/Examples/Roles.antt =====
-- The theorems on the boot of a machine in its role at concrete inputs.
use ooc.Base.{String, List, none, ◌≡◌, refl, inl, Bool, true, false, [], ◌∷◌}
use ooc.Cloud.{text, not_found}
use ooc.Cloud.Exec.{
  Trace, create_resource, patch_resource, failure, pure, fail, catch, Call, ok, answer, deref,
  perform, wrap, ◌>>=◌, command,
}
use ooc.Cloud.Exec.Costs.{count_calls}
use ooc.Bootstrap.{NodeObject, Site}
use ooc.Bootstrap.Nodes.{init_master_alone}
use ooc.Bootstrap.Nodes.Authority.{IsCertified}
use ooc.Bootstrap.Nodes.Certified.{init_master_alone-IsCertified}
use ooc.Actions.{Machine}
use ooc.Actions.Post.{Addon, Shelf, default_addons}
use ooc.Actions.Calls.{VisitsMap, is_kubeadm_init}
use ooc.Apply.{Kubectl, unregistered, do_apply}
use ooc.Apply.Addons.{
  AddonCluster, AddonApi, Applied, patch_addon_phase, reconcile_cluster, reconcile_cluster-Applied,
}
use ooc.Examples.Worlds.{calm}
use ooc.Examples.Desks.{spec1}
use ooc.Examples.Boots.{site, booted, flags}

abbrev pub host : Machine
host = record {
  clean = λ path. path;
  list_dir = λ t path. answer (("kubelet", false) ∷ []);
  parse_cidr = λ s. answer (record { base = 2886926336; size = 4096 });
  print_ip = λ ip. "172.19.0.10";
  cert = λ s. s;
  key = λ s. s;
  encode64 = λ s. s;
  pretty_spec = λ spec. spec.cluster_id;
  fixed_text = λ s. s;
  render = λ name values. answer name;
  render_config = λ node name endpoints. answer name;
  kustomize = λ s. answer s;
  sign_client = λ s. answer (s, s);
  map_order = λ t entries. entries;
  swapped = λ t. true;
  uuid = λ t. "uuid";
  seen = λ n. n;
}

host-VisitsMap : VisitsMap host
host-VisitsMap = record { visits = λ p t entries. refl }

abbrev proxy : Addon
proxy = record { name = "kubeproxy"; tpl = "tpl"; replicas = "1"; image_version = "v1" }

abbrev shelf : Shelf
shelf = record {
  all_addons = proxy ∷ [];
  kubeproxy_master = proxy;
  kubeproxy_worker = proxy;
  security_group = λ t. "sg-1";
  vswitches = λ t. answer "vsw-1";
  pretty_cluster = λ node. "cluster";
  pretty_node = λ m. m.name;
  public_info = λ spec. answer spec.intranet;
  pretty_config_map = λ s. s;
  secret = λ spec. answer spec.cluster_id;
  version = "0.1";
  dir_of = λ s. s;
}

-- an id with a region
abbrev named_node : NodeObject
named_node = record booted {
  resource = record { name = "10.0.0.1"; id = "cn-hangzhou.i-1"; ip = "10.0.0.1"; role = "Master" };
}

abbrev worker_site : Site
worker_site = record site { flags = record flags { role = "Worker" } }

init_master_alone-IsCertified_example :
    IsCertified calm host "ca" (init_master_alone calm host shelf site named_node []).1
init_master_alone-IsCertified_example =
    init_master_alone-IsCertified calm host shelf site named_node "ca" [] host-VisitsMap refl
      (inl refl) tt

abbrev is_control_plane_init : Call → Bool
is_control_plane_init (command args) = is_kubeadm_init args
is_control_plane_init c = false

-- The master of the example gets as far as `kubeadm init`, and its boot returns.
master_boots :
    let after = init_master_alone calm host shelf site named_node [] in
    (after.0 ≡ ok tt) × (count_calls is_control_plane_init after.1 ≡ 1)
unfolding init_master_alone ◌>>=◌ wrap deref perform
master_boots = (refl, refl)

-- A server on which no manifest names a known resource: each apply creates one.
abbrev fresh : Kubectl
fresh = record {
  add_source = λ s e. e;
  validator = none;
  namespace = none;
  client = none;
  objects = λ yml.
      answer (answer (record { namespace = ""; name = yml; annotations = none; body = yml }) ∷ []);
  aggregate = λ errs. text "errors";
  accessor = λ o. none;
  encode = λ o. answer o.body;
  decode = λ s. answer (record { namespace = ""; name = s; annotations = none; body = s });
  versioned = λ o. unregistered;
  merge_patch = λ original modified current. answer modified;
  is_precondition = λ e. false;
  patch_meta = none;
  strategic_patch = λ original modified current. answer modified;
  found = λ t namespace name. failure (not_found name);
  patched = λ t patch. failure (text "no patch");
  created = λ t o. answer o;
}

abbrev new_cluster : AddonCluster
new_cluster = record { name = "kubernetes-wdrip-64"; spec = spec1; addon_initialized = false }

abbrev addon_api : AddonApi
addon_api = record {
  cluster = λ t name. answer new_cluster;
  merge_patch = λ old new. answer "addonInitialized";
}

abbrev is_create_or_patch : Call → Bool
is_create_or_patch (create_resource kind name) = true
is_create_or_patch (patch_resource kind name body) = true
is_create_or_patch c = false

reconcile_cluster-Applied_example :
    (rendered : List (String × String)) × (u : Trace) × (v : Trace) × (default_addons host shelf
        new_cluster.spec [] []
      ≡ (ok rendered, u))
    × Applied calm fresh (host.map_order u rendered) u v
    × (reconcile_cluster calm host shelf fresh addon_api new_cluster []
        ≡ patch_addon_phase calm addon_api new_cluster v)
unfolding reconcile_cluster do_apply ◌>>=◌ wrap deref perform catch pure fail
reconcile_cluster-Applied_example =
    reconcile_cluster-Applied calm host shelf fresh addon_api new_cluster [] refl refl

-- The one addon is created, then the cluster is marked.
addons_run :
    let after = reconcile_cluster calm host shelf fresh addon_api new_cluster [] in
    (after.0 ≡ ok tt) × (count_calls is_create_or_patch after.1 ≡ 2)
unfolding reconcile_cluster do_apply ◌>>=◌ wrap deref perform catch pure fail
addons_run = (refl, refl)
