-- ===== src/Examples/Worlds.antt =====
-- Test data: a control plane of one machine, and outside worlds that answer every call.
use ooc.Base.{pos, true, false, none, some, [], ◌∷◌}
use ooc.Cloud.{Instance, NodeCondition, Node, Master, Cluster, NodePool, Member, text}
use ooc.Cloud.Exec.{Env, answer, failure, Endpoint}
use ooc.Heal.Triple.{NodeInfo, Triple, join_master_userdata}

abbrev pub inst1 : Instance
inst1 = record {
  region = "cn-hangzhou";
  id = "i-bp1c65aivl1e4vkm9e2m";
  ip = "192.168.0.103";
  tags = ("wdrip.last.update.time", "earlier") ∷ [];
  created_at = "then";
  status = "Running";
}

abbrev pub inst2 : Instance
inst2 = record inst1 { id = "i-bp1c65aivl1e4vkm9e2n"; ip = "192.168.0.104"; status = "Stopped" }

abbrev pub ready : NodeCondition
ready = record { kind = "Ready"; status = "True"; reason = "KubeletReady"; last_heartbeat = 1000 }

abbrev pub node1 : Node
node1 = record {
  name = "192.168.0.103.i-bp1c65aivl1e4vkm9e2m";
  provider_id = "cn-hangzhou.i-bp1c65aivl1e4vkm9e2m";
  labels = some [];
  conditions = ready ∷ [];
  addresses = "192.168.0.103" ∷ [];
}

abbrev pub master1 : Master
master1 = record {
  name = "cn-hangzhou.i-bp1c65aivl1e4vkm9e2m";
  id = "cn-hangzhou.i-bp1c65aivl1e4vkm9e2m";
  ip = "192.168.0.103";
  role = "Hybrid";
}

abbrev pub cluster1 : Cluster
cluster1 = record {
  name = "kubernetes-cluster";
  cluster_id = "kubernetes-wdrip-64";
  peer_ca = some "peer";
  server_ca = some "server";
}

abbrev pub entry1 : NodeInfo
entry1 = record {
  role = join_master_userdata;
  instance_of = some inst1;
  node = some node1;
  resource = some master1;
}

abbrev pub triple1 : Triple
triple1 = record {
  role = join_master_userdata;
  cluster = cluster1;
  mcrds = master1 ∷ [];
  mnodes = node1 ∷ [];
  instances = inst1 ∷ [];
  node_info = entry1 ∷ [];
}

-- A node pool that has been deleted.
abbrev pub pool1 : NodePool
pool1 = record {
  name = "workers";
  node_pool_id = "np-1";
  desired_capacity = 2;
  bind = some (record { scaling_group_id = "asg-1"; configuration_id = "asc-1" });
  deleted = true;
  finalizers = "other" ∷ "nodepool" ∷ [];
  labels = none;
}

abbrev pub member1 : Member
member1 = record {
  id = 1;
  ip = "192.168.0.103";
  peer_urls = "https://192.168.0.103:2380" ∷ [];
  client_urls = "https://192.168.0.103:2379" ∷ [];
}

abbrev pub member2 : Member
member2 = record {
  id = 2;
  ip = "192.168.0.104";
  peer_urls = "https://192.168.0.104:2380" ∷ [];
  client_urls = "https://192.168.0.104:2379" ∷ [];
}

abbrev pub leader : Endpoint
leader = record { endpoint = "https://192.168.0.103:2379"; leader = some 1; member_id = some 1 }

abbrev pub follower : Endpoint
follower = record { endpoint = "https://192.168.0.104:2379"; leader = some 1; member_id = some 2 }

-- Every call succeeds; the clock stands at 1000, and both time stamps are read as 0.
abbrev pub calm : Env
calm = record {
  refusal = λ t c. none;
  cluster = λ t. answer cluster1;
  ready_replicas = λ t. answer 1;
  replicas = λ t. answer (pos 1);
  masters = λ t. answer (master1 ∷ []);
  nodes = λ t. answer (node1 ∷ []);
  labelled_masters = λ t. answer (node1 ∷ []);
  labelled_workers = λ t pool. answer [];
  node = λ t name. answer node1;
  master_instances = λ t. answer (inst1 ∷ []);
  pool_instances = λ t pool. answer [];
  master_userdata = λ t role. answer "#!/bin/bash";
  has_file = λ t path. answer true;
  certificate = λ t name. name;
  file_order = λ t names. names;
  members = λ t url. answer (member1 ∷ []);
  endpoints = λ t urls. answer (leader ∷ follower ∷ []);
  object = λ t path. answer "";
  unmarshal = λ bytes s. (s, none);
  marshal = λ s. s.name;
  hour_now = λ t. "20210801-1200";
  now = λ t. 1000;
  parse_time = λ stamp. some 0;
  intn = λ t n. 0;
  range_order = λ t n detail. detail;
  same_object = λ a b. false;
  same_pool = λ a b. false;
  hash_object = λ np. answer np.name;
  pool_bytes = λ np. np.name;
  bucket_name = "wdrip-index";
  node_pool = λ t name. answer pool1;
  new_group = λ t np. answer (record { scaling_group_id = "asg-1"; configuration_id = "asc-1" });
  attempts = λ interval timeout. 2;
}

-- The machine has just been created.
abbrev pub early : Env
early = record calm { now = λ t. 100 }

-- The API server is away.
abbrev pub outage : Env
outage = record calm { cluster = λ t. failure (text "connection refused") }
