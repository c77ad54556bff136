-- ===== src/Bootstrap/Service.antt =====
-- The handlers of the bootstrap service (pkg/apiserver/api). `Nodes` of its cache holds the nodes that
-- have registered, by pointer, and the masters that the operator has stored (Masters.antt), by value.
pub mod Credentials
use ooc.Base.{
  ℕ, String, Bool, true, false, ◌||◌, Option, none, some, List, [], ◌∷◌, map, str_eq, if◌then◌else◌,
  join,
}
use ooc.Cloud.{Master, ClusterSpec, Error}
use ooc.Cloud.Exec.{Reply, answer, failure, Outcome, ok, err, panic, message}
use ooc.Masters.{Entry, registered, cached, Cache, store_key, get_masters}
use ooc.Bootstrap.{Host, BootCluster, NodeObject}

-- CachedContext; BootCFG is never nil, since both servers are started with one
pub record Service : Type 0 where
  pub nodes : Cache
  pub boot_cfg : ClusterSpec

pub data Body : Type 0 where
  said : String → Body
  resource_of : NodeObject → Body
  cluster_of : BootCluster → Body
  masters_of : List Master → Body

pub record Response : Type 0 where
  pub code : ℕ
  pub body : Body

unfoldable pub refused_with : ℕ → String → Response
refused_with code note = record { code = code; body = said note }

-- validate; a node that passes gets a creation time if it has none
unfoldable pub stamped : ℕ → Option ℕ → Option ℕ
stamped now none = some now
stamped now (some time) = some time

unfoldable pub validate : ℕ → NodeObject → NodeObject × Option String
unfolding stamped
validate now n =
    if str_eq n.resource.name ""
    then (n, some "node.name can not be empty")
    else if str_eq n.resource.id ""
    then (n, some "node.spec.id can not be empty")
    else if str_eq n.resource.ip ""
    then (n, some "node.spec.ip can not be empty")
    else (record n { created = stamped now n.created }, none)

-- RegisterNode, of the decoded body of the request
unfoldable pub admit : Service → NodeObject × Option String → Response × Service
unfolding refused_with store_key
admit s (n, some note) = (refused_with 409 note, s)
admit s (n, none) = (
  record { code = 200; body = resource_of n },
  record s { nodes = store_key n.resource.id (registered n) s.nodes },
)

unfoldable pub register_node : ℕ → Reply NodeObject → Service → Response × Service
unfolding refused_with validate admit message
register_node now (failure e) s = (refused_with 500 (message e), s)
register_node now (answer n) s = admit s (validate now n)

-- The Range of Credentials in the order of the list: the node with the id, and the addresses of etcd's
-- machines. The assertion that a value is a pointer panics on a master. The keys of a sync.Map differ,
-- so that there is one node with the id at most.
unfoldable pub runs_etcd : String → Bool
runs_etcd role = str_eq role "Hybrid" || str_eq role "ETCD"

abbrev pub Found : Type 0
Found = Option NodeObject × List String

unfoldable pub add_entry : String → String → NodeObject → Outcome Found → Outcome Found
unfolding runs_etcd
add_entry id k n panic = panic
add_entry id k n (err e) = err e
add_entry id k n (ok (found, address)) = ok (
  if str_eq k id then some n else found,
  if runs_etcd n.resource.role then n.resource.ip ∷ address else address,
)

unfoldable pub gather : String → Cache → Outcome Found
unfolding add_entry
gather id [] = ok (none, [])
gather id ((k, cached m) ∷ rest) = panic
gather id ((k, registered n) ∷ rest) = add_entry id k n (gather id rest)

-- the rest of Credentials; the node in the cache is the one that is answered
unfoldable pub hand_out :
    String → List String → Service → NodeObject × Option String → Response × Service
unfolding refused_with store_key
hand_out id address s (n, some note) = (refused_with 409 note, s)
hand_out id address s (n, none) =
    let cfg = record s.boot_cfg { endpoints = join "," address } in
    let n' = record n { boot = some (record { spec = cfg; peers = [] }) } in
    (
      record { code = 200; body = resource_of n' },
      record { nodes = store_key id (registered n') s.nodes; boot_cfg = cfg },
    )

unfoldable pub answer_found : ℕ → String → Service → Outcome Found → Outcome (Response × Service)
unfolding refused_with validate hand_out
answer_found now id s panic = panic
answer_found now id s (err e) = err e
answer_found now id s (ok (none, address)) = ok (refused_with 404 "not found", s)
answer_found now id s (ok (some n, address)) = ok (hand_out id address s (validate now n))

-- Credentials; `order` is the order in which Range visits the entries
unfoldable pub credentials : (Cache → Cache) → ℕ → String → Service → Outcome (Response × Service)
unfolding refused_with gather answer_found
credentials order now id s =
    if str_eq id ""
    then ok (refused_with 500 "empty node id", s)
    else answer_found now id s (gather id (order s.nodes))

-- Cluster
unfoldable pub get_boot_cluster : (Cache → Cache) → String → Service → Response
unfolding refused_with get_masters
get_boot_cluster order id s = if str_eq id "" then refused_with 500 "empty node id" else record {
  code = 200;
  body = cluster_of (record {
    spec = s.boot_cfg;
    peers = map (λ (m : Master). (m.ip, m.id)) (get_masters (order s.nodes));
  });
}

-- Debug: its assertion that a value is a master panics on a pointer
unfoldable pub all_masters : Cache → Outcome (List Master)
all_masters [] = ok []
all_masters ((k, registered n) ∷ rest) = panic
all_masters ((k, cached m) ∷ rest) = elim (all_masters rest) [
  | ok ms ↦ ok (m ∷ ms)
  | err e ↦ err e
  | panic ↦ panic
]

unfoldable pub debug : (Cache → Cache) → Service → Outcome Response
unfolding all_masters
debug order s = elim (all_masters (order s.nodes)) [
  | ok ms ↦ ok (record { code = 200; body = masters_of ms })
  | err e ↦ err e
  | panic ↦ panic
]
