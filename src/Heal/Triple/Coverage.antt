-- ===== src/Heal/Triple/Coverage.antt =====
-- NewTripleMaster (triple.go) loses nothing of the three lists that it joins.
use ooc.Base.{
  String, ◌≡◌, refl, ◌∙◌, true, none, some, List, [], ◌∷◌, ◌++◌, map, arith, Bool, false, Option,
  ◌||◌, contains, any, All, Any, All-imp, Any-append_left, Any-append_right, Any-of_any, ◌⊎◌, inl,
  inr, Bool-cases, ap,
}
use ooc.Cloud.{Instance, Node, Master}
use ooc.Heal.Triple.{
  NodeInfo, instance_info, has_crd, add_crd, add_crds, has_node, add_node, add_nodes, master_infos,
  join_master_userdata,
}

-- The instances of the entries that have one, in order.
abbrev pub carried : List NodeInfo → List Instance
carried [] = []
carried (i ∷ is) = elim i.instance_of [ none ↦ carried is | some d ↦ d ∷ carried is ]

pub carried-append_none :
    (is : List NodeInfo) (j : NodeInfo) → j.instance_of ≡ none → carried (is ++ j ∷ []) ≡ carried is
carried-append_none [] j h = ground arith
carried-append_none (i ∷ is) j h = ground (arith, carried-append_none is j h)

pub carried-add_crd :
    (role : String) (mnodes : List Node) (k : Master) (is : List NodeInfo)
    → carried (add_crd role mnodes k is) ≡ carried is
unfolding add_crd
carried-add_crd role mnodes k is = elim (Bool-cases (any (has_crd k) is)) [
  | inl old ↦ rw old
  | inr new ↦ rw new (carried-append_none is _ refl)
]

carried-add_crds :
    (role : String) (mnodes : List Node) (ks : List Master) (is : List NodeInfo)
    → carried (add_crds role mnodes ks is) ≡ carried is
unfolding add_crds
carried-add_crds role mnodes [] is = refl
carried-add_crds role mnodes (k ∷ ks) is =
    carried-add_crds role mnodes ks _ ∙ carried-add_crd role mnodes k is

pub carried-add_node :
    (mcrds : List Master) (n : Node) (is : List NodeInfo)
    → carried (add_node mcrds n is) ≡ carried is
unfolding add_node
carried-add_node mcrds n is = elim (Bool-cases (any (has_node n) is)) [
  | inl old ↦ rw old
  | inr new ↦ rw new (carried-append_none is _ refl)
]

carried-add_nodes :
    (mcrds : List Master) (ns : List Node) (is : List NodeInfo)
    → carried (add_nodes mcrds ns is) ≡ carried is
unfolding add_nodes
carried-add_nodes mcrds [] is = refl
carried-add_nodes mcrds (n ∷ ns) is = carried-add_nodes mcrds ns _ ∙ carried-add_node mcrds n is

pub carried-map :
    (role : String) (mcrds : List Master) (mnodes : List Node) (ds : List Instance)
    → carried (map (instance_info role mcrds mnodes) ds) ≡ ds
unfolding instance_info
carried-map role mcrds mnodes [] = refl
carried-map role mcrds mnodes (d ∷ ds) = ap (λ rest. d ∷ rest) (carried-map role mcrds mnodes ds)

-- Every instance of the scaling group has exactly one entry, in the order of the loop.
pub carried-master_infos :
    (mcrds : List Master) (mnodes : List Node) (detail : List Instance)
    → carried (master_infos mcrds mnodes detail) ≡ detail
unfolding master_infos
carried-master_infos mcrds mnodes detail =
    carried-add_nodes mcrds mnodes _
    ∙ carried-add_crds join_master_userdata mnodes mcrds _
    ∙ carried-map join_master_userdata mcrds mnodes detail

-- The entry stands for the resource: it carries it, or has an instance whose id is part of the
-- resource's, or a node whose provider's id has the resource's as a part.
abbrev pub CoversCrd : Master → NodeInfo → Type 0
CoversCrd k i =
    ((d : Instance) × (i.instance_of ≡ some d) × (contains k.id d.id ≡ true))
    ⊎ ((n : Node) × (i.node ≡ some n) × (contains n.provider_id k.id ≡ true))
    ⊎ (i.resource ≡ some k)

-- The entry stands for the node: it carries it, or has an instance or a resource whose id is part of the
-- node's provider's id.
abbrev pub CoversNode : Node → NodeInfo → Type 0
CoversNode n i =
    ((d : Instance) × (i.instance_of ≡ some d) × (contains n.provider_id d.id ≡ true))
    ⊎ ((k : Master) × (i.resource ≡ some k) × (contains n.provider_id k.id ≡ true))
    ⊎ (i.node ≡ some n)

-- the two ways in which an entry can have what it is asked for
either :
    {A B : Type 0} (o : Option A) (q : Option B) (p : A → Bool) (r : B → Bool)
    → elim o [ none ↦ false | some a ↦ p a ] || elim q [ none ↦ false | some b ↦ r b ] ≡ true
    → ((a : A) × (o ≡ some a) × (p a ≡ true)) ⊎ ((b : B) × (q ≡ some b) × (r b ≡ true))
either none none p r h = absurd (cc)
either none (some b) p r h = inr (b, refl, h)
either (some a) none p r h = inl (a, refl, ground arith)
either (some a) (some b) p r h = elim (Bool-cases (p a)) [
  | inl has ↦ inl (a, refl, has)
  | inr lacks ↦ inr (b, refl, ground arith)
]

crd_covered : (k : Master) (i : NodeInfo) → has_crd k i ≡ true → CoversCrd k i
unfolding has_crd
crd_covered k i h = elim (either i.instance_of i.node _ _ h) [ inl d ↦ inl d | inr n ↦ inr (inl n) ]

node_covered : (n : Node) (i : NodeInfo) → has_node n i ≡ true → CoversNode n i
unfolding has_node
node_covered n i h = elim (either i.instance_of i.resource _ _ h) [
  | inl d ↦ inl d
  | inr k ↦ inr (inl k)
]

module _ (P : NodeInfo → Type 0) where
  Any-add_crds :
      (role : String) (mnodes : List Node) (ks : List Master) (is : List NodeInfo)
      → Any P is
      → Any P (add_crds role mnodes ks is)
  unfolding add_crds
  Any-add_crds role mnodes [] is h = h
  Any-add_crds role mnodes (k ∷ ks) is h =
      Any-add_crds role mnodes ks _ (elim (Bool-cases (any (has_crd k) is)) [
        | inl old ↦ rw old h
        | inr new ↦ rw new (Any-append_left P is _ h)
      ])

  Any-add_nodes :
      (mcrds : List Master) (ns : List Node) (is : List NodeInfo)
      → Any P is
      → Any P (add_nodes mcrds ns is)
  unfolding add_nodes
  Any-add_nodes mcrds [] is h = h
  Any-add_nodes mcrds (n ∷ ns) is h =
      Any-add_nodes mcrds ns _ (elim (Bool-cases (any (has_node n) is)) [
        | inl old ↦ rw old h
        | inr new ↦ rw new (Any-append_left P is _ h)
      ])

add_crd-covers :
    (role : String) (mnodes : List Node) (k : Master) (is : List NodeInfo)
    → Any (CoversCrd k) (add_crd role mnodes k is)
unfolding add_crd
add_crd-covers role mnodes k is = elim (Bool-cases (any (has_crd k) is)) [
  | inl old ↦ rw old (Any-of_any (CoversCrd k) (has_crd k) is (crd_covered k) old)
  | inr new ↦ rw new (Any-append_right (CoversCrd k) is _ (inl (inr (inr refl))))
]

add_crds-covers :
    (role : String) (mnodes : List Node) (ks : List Master) (is : List NodeInfo)
    → All (λ k. Any (CoversCrd k) (add_crds role mnodes ks is)) ks
unfolding add_crds
add_crds-covers role mnodes [] is = tt
add_crds-covers role mnodes (k ∷ ks) is = (
  Any-add_crds (CoversCrd k) role mnodes ks _ (add_crd-covers role mnodes k is),
  add_crds-covers role mnodes ks _,
)

add_node-covers :
    (mcrds : List Master) (n : Node) (is : List NodeInfo) → Any (CoversNode n) (add_node mcrds n is)
unfolding add_node
add_node-covers mcrds n is = elim (Bool-cases (any (has_node n) is)) [
  | inl old ↦ rw old (Any-of_any (CoversNode n) (has_node n) is (node_covered n) old)
  | inr new ↦ rw new (Any-append_right (CoversNode n) is _ (inl (inr (inr refl))))
]

add_nodes-covers :
    (mcrds : List Master) (ns : List Node) (is : List NodeInfo)
    → All (λ n. Any (CoversNode n) (add_nodes mcrds ns is)) ns
unfolding add_nodes
add_nodes-covers mcrds [] is = tt
add_nodes-covers mcrds (n ∷ ns) is = (
  Any-add_nodes (CoversNode n) mcrds ns _ (add_node-covers mcrds n is),
  add_nodes-covers mcrds ns _,
)

-- Every master resource has an entry that carries it, or one with an instance whose id is part of the
-- resource's id, or with a node whose provider's id has the resource's id as a part. Every master node has
-- an entry that carries it, or one with an instance or a resource whose id is part of the node's
-- provider's id. The empty id is part of every id.
pub master_infos-covers :
    (mcrds : List Master) (mnodes : List Node) (detail : List Instance)
    → All (λ k. Any (CoversCrd k) (master_infos mcrds mnodes detail)) mcrds
      × All (λ n. Any (CoversNode n) (master_infos mcrds mnodes detail)) mnodes
unfolding master_infos
master_infos-covers mcrds mnodes detail =
    let with_crds =
      add_crds join_master_userdata mnodes mcrds
        (map (instance_info join_master_userdata mcrds mnodes) detail) in
    (
      All-imp (λ k. Any (CoversCrd k) with_crds)
          (λ k. Any (CoversCrd k) (add_nodes mcrds mnodes with_crds)) mcrds
          (λ k h. Any-add_nodes (CoversCrd k) mcrds mnodes with_crds h)
          (add_crds-covers join_master_userdata mnodes mcrds _),
      add_nodes-covers mcrds mnodes with_crds,
    )
