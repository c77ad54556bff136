-- ===== src/Examples/Desks.antt =====
-- The theorems on the operations of the command line at concrete inputs.
use ooc.Base.{◌≡◌, refl, false, none, some, [], ◌∷◌, pos, concat}
use ooc.Cloud.{ClusterId, ClusterSpec}
use ooc.Cloud.Exec.{answer, panic, ask, wrap, catch, pure, ◌>>=◌, get_object}
use ooc.Clusters.{Desk, get_cluster_id, cluster_path, given}
use ooc.Clusters.Operations.{delete_cluster, scale_cluster}
use ooc.Clusters.Deletion.{IsTidy, delete_cluster-IsTidy, scale_cluster-panics}
use ooc.Examples.Worlds.{calm, pool1}
use ooc.Examples.Clouds.{fleet}

abbrev pub spec1 : ClusterSpec
spec1 = record {
  cluster_id = "kubernetes-wdrip-64";
  provider = "alibaba";
  region = "cn-hangzhou";
  resource_id = "stack-1";
  intranet = "192.168.0.100";
  internet = "47.100.0.1";
  version = "1.20.4";
  root_ca = some "ca";
  front_proxy_ca = none;
  svc_account_ca = none;
  control_root = none;
  peer_ca = none;
  server_ca = some "etcd-ca";
  kubeadm_token = "abcdef.0123456789abcdef";
  init_token = "";
  endpoints = "";
  sans = "47.100.0.1" ∷ [];
  namespace = "default";
  cloud_type = "public";
  svc_cidr = "172.19.0.0/20";
  pod_cidr = "172.16.0.0/16";
  registry = "registry-vpc.cn-hangzhou.aliyuncs.com/acs";
  runtime = "docker";
  runtime_version = "19.03.5";
  etcd_version = "3.4.3";
}

abbrev id1 : ClusterId
id1 = record {
  name = "kubernetes-wdrip-64";
  resource_id = "stack-1";
  created_at = "2021-08-01T12:00:00";
  updated_at = "2021-08-01T12:00:00";
  spec = spec1;
}

-- The object storage has one cluster with one node pool.
abbrev pub desk : Desk
desk = record {
  parse_cluster = λ s. answer id1;
  print_cluster = λ id. id.name;
  cluster_spec = λ c. spec1;
  parse_pool = λ s. answer pool1;
  listing = λ t prefix. answer ("np" ∷ []);
  new_context = λ t. answer (some spec1);
  fresh_ca = λ t. some "ca";
  edited = λ t spec. answer spec;
  stamp = λ t. "2021-08-01T13:00:00";
}

delete_cluster-IsTidy_example :
    IsTidy fleet "stack-1" (delete_cluster calm desk fleet false "kubernetes-wdrip-64" []).1
unfolding get_cluster_id cluster_path given ask wrap catch pure ◌>>=◌ concat
delete_cluster-IsTidy_example =
    delete_cluster-IsTidy calm desk fleet "kubernetes-wdrip-64" id1 (some spec1) []
      (get_object (cluster_path "wdrip-index" "kubernetes-wdrip-64") ∷ []) refl refl refl tt

scale_cluster-panics_example :
    scale_cluster calm desk fleet "kubernetes-wdrip-64" (pos 3) []
    ≡ (panic, get_object (cluster_path "wdrip-index" "kubernetes-wdrip-64") ∷ [])
unfolding get_cluster_id cluster_path given ask wrap catch pure ◌>>=◌ concat
scale_cluster-panics_example =
    scale_cluster-panics calm desk fleet "kubernetes-wdrip-64" (pos 3) id1 (some spec1) []
      (get_object (cluster_path "wdrip-index" "kubernetes-wdrip-64") ∷ []) refl refl
