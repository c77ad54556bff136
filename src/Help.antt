-- ===== src/Help.antt =====
-- pkg/operator/controllers/help: the tests on nodes, labels and times that the controllers share
-- (helper.go, node.go).
pub mod Patch
use ooc.Base.{
  ℕ, ◌+◌, String, Bool, true, false, not, ◌&&◌, Option, none, some, List, [], ◌∷◌, str_eq, ltb,
  ◌==◌, if◌then◌else◌, find,
}
use ooc.Cloud.{Node, NodeCondition}
use ooc.Cloud.Exec.{Trace, Env}

-- `m[k]` of a Go map
unfoldable pub lookup {ℓ} : {V : Type ℓ} → String → List (String × V) → Option V
lookup k [] = none
lookup k ((j, v) ∷ rest) = if str_eq j k then some v else lookup k rest

-- `m[k] = v`
unfoldable pub insert {ℓ} : {V : Type ℓ} → String → V → List (String × V) → List (String × V)
insert k v [] = (k, v) ∷ []
insert k v ((j, w) ∷ rest) = if str_eq j k then (k, v) ∷ rest else (j, w) ∷ insert k v rest

-- After: false if the time stamp cannot be read
unfoldable pub after : Env → Trace → String → ℕ → Bool
after env t stamp duration = elim (env.parse_time stamp) [
  | none ↦ false
  | some me ↦ ltb (me + duration) (env.now t)
]

unfoldable pub has_node_pool_id : Node → String → Bool
unfolding lookup
has_node_pool_id node npid = elim node.labels [
  | none ↦ false
  | some labels ↦ elim (lookup "np.wdrip.io/id" labels) [ none ↦ false | some id ↦ str_eq id npid ]
]

abbrev pub heart_beat_timeout : ℕ
heart_beat_timeout = 120

-- the zero value that `findCondition` returns if nothing is found
abbrev pub no_condition : NodeCondition
no_condition = record { kind = ""; status = ""; reason = ""; last_heartbeat = 0 }

unfoldable pub find_condition : List NodeCondition → String → NodeCondition
find_condition conds kind = elim (find (λ (c : NodeCondition). str_eq c.kind kind) conds) [
  | none ↦ no_condition
  | some c ↦ c
]

-- Before(now - duration) over seconds, with the subtraction moved to the other side
unfoldable pub is_heartbeat_normal : ℕ → NodeCondition → ℕ → Bool
is_heartbeat_normal now cond timeout =
    let duration = if timeout == 0 then heart_beat_timeout else timeout in
    not (ltb (cond.last_heartbeat + duration) now)

unfoldable pub node_heartbeat_ready : ℕ → Node → ℕ → Bool
unfolding find_condition is_heartbeat_normal
node_heartbeat_ready now node timeout =
    let cond = find_condition node.conditions "Ready" in
    if str_eq cond.kind "Ready"
    then str_eq cond.status "True" && is_heartbeat_normal now cond timeout
    else true

-- the inner loop of NodesReady, over the conditions of one node
unfoldable pub conditions_ready : List NodeCondition → Bool
conditions_ready [] = true
conditions_ready (con ∷ rest) =
    if str_eq con.kind "Ready"
    then (if str_eq con.status "True" then conditions_ready rest else false)
    else conditions_ready rest

unfoldable pub nodes_ready : List Node → Bool
unfolding conditions_ready
nodes_ready [] = true
nodes_ready (n ∷ rest) = if conditions_ready n.conditions then nodes_ready rest else false

unfoldable pub node_ready : Node → Bool
unfolding nodes_ready
node_ready n = nodes_ready (n ∷ [])

unfoldable pub is_master : Node → Bool
unfolding lookup
is_master node = elim node.labels [
  | none ↦ false
  | some labels ↦ elim (lookup "node-role.kubernetes.io/master" labels) [
    | none ↦ false
    | some _ ↦ true
  ]
]
