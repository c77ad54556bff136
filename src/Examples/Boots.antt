-- ===== src/Examples/Boots.antt =====
-- The theorems on the bootstrap service and on the boot of a machine at concrete inputs.
use ooc.Base.{
  ◌≡◌, refl, true, false, none, some, List, [], ◌∷◌, ◌++◌, inl, inr, str_eq, if◌then◌else◌, concat,
  join, text_length, any,
}
use ooc.Cloud.{ClusterId, ClusterSpec}
use ooc.Cloud.Exec.{Env, Trace, ok, answer, pure, ask, deref, catch, ◌>>=◌, wrap, maybe, perform}
use ooc.Masters.{registered, load_key, store_key}
use ooc.Backup.{
  new_snapshot_index, latest_backup, lazy_load, loaded, load_bytes, fetch_latest, sort_backups,
  first_copy, path_of, base, index_location,
}
use ooc.Clusters.{Desk, given, get_cluster_id, save_cluster, cluster_path}
use ooc.Bootstrap.{BootCluster, NodeObject, WdripOptions, Site}
use ooc.Bootstrap.Service.{
  Service, Response, validate, stamped, admit, register_node, credentials, resource_of,
}
use ooc.Bootstrap.Service.Credentials.{HandsOut, register_node-credentials, credentials-is_enough}
use ooc.Bootstrap.Initialize.{
  add_sans, extra_sans, add_extra_sans, with_meta, meta_value, identify, node_of, keep_previous,
  keep_cas, or_fresh, or_token, set_default_credential, read_spec, previous_cas, init_from_cfg,
  override_infra, adopt, checked, init_from_recover,
}
use ooc.Bootstrap.Coordinator.{is_enough}
use ooc.Bootstrap.Initialize.Authorities.{Reinitialises, init_from_cfg-Reinitialises}
use ooc.Bootstrap.Initialize.Recovery.{HasInfra, init_from_recover-HasInfra}
use ooc.Examples.Worlds.{calm, cluster1, master1}
use ooc.Examples.Desks.{spec1, desk}

-- The configuration has no certificates; the generated file beside it has two.
abbrev bare_spec : ClusterSpec
bare_spec = record spec1 { root_ca = none; server_ca = none }

abbrev pub flags : WdripOptions
flags = record {
  endpoint = "http://192.168.0.100:32443";
  role = "Master";
  config = "boot.cfg";
  boot_type = "local";
  recover_from = "old";
  cluster_name = "kubernetes-wdrip-64";
  expected_master_cnt = 3;
  bucket = "host-wdrip";
  addons = "";
}

abbrev machine : NodeObject
machine = record {
  resource = record master1 {
    name = "192.168.0.103";
    id = "node-id";
    ip = "node-ip";
    role = "Master";
  };
  created = none;
  peers = [];
  boot = none;
}

abbrev pub site : Site
site = record {
  flags = flags;
  has_meta = true;
  metadata = λ t key. answer key;
  cluster = λ t id. answer (record { spec = spec1; peers = [] });
  credential = λ t id. answer machine;
  file = λ t path. answer path;
  parse_spec = λ bytes. answer (if str_eq bytes "boot.cfg" then bare_spec else spec1);
  fresh = λ t purpose. some purpose;
  init_token = λ t. "uuid";
  provider = λ t region. answer tt;
}

abbrev pub booted : NodeObject
booted = record machine {
  resource = record { name = "node-ip"; id = "node-id"; ip = "node-ip"; role = "Master" };
  boot = some (record {
    spec = record spec1 {
      front_proxy_ca = some "front proxy";
      svc_account_ca = some "service account";
      peer_ca = some "etcd peer";
      init_token = "uuid";
      sans = "47.100.0.1" ∷ "192.168.0.100" ∷ [];
    };
    peers = [];
  });
}

init_from_cfg-Reinitialises_example :
    (own : ClusterSpec) × (t' : Trace) × (read_spec site "boot.cfg" [] ≡ (ok own, t'))
    × Reinitialises calm site own t' booted
unfolding init_from_cfg read_spec previous_cas identify with_meta meta_value set_default_credential
    or_fresh or_token keep_cas keep_previous node_of add_extra_sans extra_sans add_sans given ask
    wrap catch pure maybe ◌>>=◌ concat any
init_from_cfg-Reinitialises_example = init_from_cfg-Reinitialises calm site [] booted refl

-- The backup of another cluster, in another region.
abbrev with_backup : Env
with_backup = record calm {
  object = λ t path. answer "{}";
  unmarshal = λ bytes s. (record s { copies = "20210801-1200" ∷ []; spec = some cluster1 }, none);
}

abbrev other_desk : Desk
other_desk = record desk {
  cluster_spec =
      λ c. record spec1 { cluster_id = "old"; region = "cn-beijing"; root_ca = some "old-ca" };
}

abbrev recovered : NodeObject
recovered = record booted {
  boot = some (record {
    spec = record spec1 { root_ca = some "old-ca"; sans = "47.100.0.1" ∷ "192.168.0.100" ∷ [] };
    peers = [];
  });
}

init_from_recover-HasInfra_example :
    (mid : ClusterId) × (before : Trace) × (after : Trace) × (get_cluster_id with_backup other_desk
        "kubernetes-wdrip-64" before
      ≡ (ok mid, after))
    × HasInfra mid.spec recovered
unfolding init_from_recover identify with_meta meta_value given get_cluster_id cluster_path
    save_cluster latest_backup new_snapshot_index lazy_load loaded load_bytes fetch_latest
    sort_backups first_copy path_of base index_location checked adopt override_infra node_of
    add_extra_sans extra_sans add_sans ask wrap catch pure deref perform maybe ◌>>=◌ concat any
init_from_recover-HasInfra_example =
    init_from_recover-HasInfra with_backup other_desk site [] recovered refl

-- A service that knows one machine with etcd.
abbrev first_etcd : NodeObject
first_etcd = record machine { resource = record master1 { id = "etcd-1" } }

abbrev service : Service
service = record { nodes = ("etcd-1", registered first_etcd) ∷ []; boot_cfg = spec1 }

register_node-credentials_example :
    HandsOut
      (credentials (λ ns. ns) 2000 "node-id" (register_node 1000 (answer machine) service).1)
      (record machine { created = some 1000 })
unfolding register_node admit validate stamped store_key load_key
register_node-credentials_example =
    register_node-credentials (λ ns. ns) 1000 2000 machine service (refl, refl, refl) (tt, (tt, tt))
      refl

credentials-is_enough_example :
    (r : Response) × (s : Service) × (m : NodeObject) × (credentials
        (λ ns. ns)
        2000
        "etcd-1"
        service
      ≡ ok (r, s))
    × (r.body ≡ resource_of m)
    × (is_enough flags m ≡ some true)
unfolding load_key ooc.Bootstrap.Service.runs_etcd text_length
credentials-is_enough_example =
    credentials-is_enough (λ ns. ns) 2000 flags first_etcd service (refl, refl, refl) (tt, tt) refl
      (inl (refl, omega ooc.Base.arith))
