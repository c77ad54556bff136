-- ===== src/Heal/Triple/Aliasing.antt =====
-- NewTripleWorker (triple.go) stores `&d` of a range variable: every entry of a node pool ends up
-- with the instance that the range visits last.
use ooc.Base.{
  String, ◌≢◌, Option, none, some, List, [], ◌∷◌, any, All, All-append, All-map, inl, inr,
  Bool-cases,
}
use ooc.Cloud.{Instance, Node}
use ooc.Heal.Triple.{
  NodeInfo, last, worker_info, has_instance_for, add_worker_nodes, worker_infos, worker_userdata,
}

add_worker_nodes-All :
    (P : NodeInfo → Type 0) (role : String) (n_end : Option Node) (ns : List Node)
    (is : List NodeInfo)
    → P (record { role = role; instance_of = none; node = n_end; resource = none })
    → All P is
    → All P (add_worker_nodes role n_end ns is)
unfolding add_worker_nodes
add_worker_nodes-All P role n_end [] is new h = h
add_worker_nodes-All P role n_end (n ∷ ns) is new h =
    elim (Bool-cases (any (has_instance_for n) is)) [
      | inl found ↦ rw found (add_worker_nodes-All P role n_end ns is new h)
      | inr extra ↦
          rw extra (add_worker_nodes-All P role n_end ns _ new (All-append P is _ h (new, tt)))
    ]

-- Of the instances of a node pool only the one that the range visits last is in any entry: an
-- instance that differs from it is in none, whatever its nodes.
pub worker_infos-drops :
    (mnodes : List Node) (detail : List Instance) (d : Instance)
    → last detail ≢ some d
    → All (λ (i : NodeInfo). i.instance_of ≢ some d) (worker_infos mnodes detail)
unfolding worker_infos worker_info
worker_infos-drops mnodes detail d other =
    add_worker_nodes-All (λ i. i.instance_of ≢ some d) worker_userdata (last mnodes) mnodes _
      (λ e. cc) (All-map (λ i. i.instance_of ≢ some d) _ detail (λ x. other))
