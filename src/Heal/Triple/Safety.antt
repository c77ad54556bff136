-- ===== src/Heal/Triple/Safety.antt =====
-- What a repair deletes by NewTripleMaster (triple.go) has no instance. An entry with no instance
-- never carries a node or a resource whose id contains the id of an instance.
use ooc.Base.{
  String, ◌≡◌, refl, ◌∙◌, sym, Bool, true, false, none, some, List, [], ◌∷◌, ◌++◌, arith, any, find,
  some_inj, if◌then◌else◌, All, All-append, All-map, All-transpose, any-eq_false, find-All,
  find-eq_some, contains, subst,
}
use ooc.Cloud.{Instance, Node, Master}
use ooc.Heal.Triple.{
  NodeInfo, node_matches, instance_info, has_crd, add_crd, add_crds, has_node, add_node, add_nodes,
  master_infos, join_master_userdata,
}
use ooc.Heal.Triple.Coverage.{carried, carried-append_none, carried-map}

-- The id of none of the instances occurs in the text.
abbrev pub HasNoInstance : List Instance → String → Type 0
HasNoInstance detail id = All (λ (d : Instance). contains id d.id ≡ false) detail

-- The source takes the id of a resource to be the provider id of its node (FixMasterCRD): where the
-- one occurs in the other, they are the same.
abbrev pub IdsAgree : Node → Master → Type 0
IdsAgree n k = contains n.provider_id k.id ≡ true → n.provider_id ≡ k.id

-- An entry with no instance is of a node and of a resource that no instance stands for.
abbrev pub IsStray : List Instance → NodeInfo → Type 0
IsStray detail i =
    i.instance_of ≡ none
    → ((n : Node) → i.node ≡ some n → HasNoInstance detail n.provider_id)
      × ((k : Master) → i.resource ≡ some k → HasNoInstance detail k.id)

module _ (detail : List Instance) where
  no_crd_instance :
      (k : Master) (is : List NodeInfo)
      → All (λ i. has_crd k i ≡ false) is
      → HasNoInstance (carried is) k.id
  unfolding has_crd
  no_crd_instance k [] h = tt
  no_crd_instance k (i ∷ is) h = ground (arith, no_crd_instance k is h.1)

  no_node_instance :
      (n : Node) (is : List NodeInfo)
      → All (λ i. has_node n i ≡ false) is
      → HasNoInstance (carried is) n.provider_id
  unfolding has_node
  no_node_instance n [] h = tt
  no_node_instance n (i ∷ is) h = ground (arith, no_node_instance n is h.1)

  -- What the two loops keep: the instances so far are those of the group, and stray entries are
  -- of no instance.
  abbrev Inv : List NodeInfo → Type 0
  Inv is = (carried is ≡ detail) × All (IsStray detail) is

  keep_Inv :
      (b : Bool) (is : List NodeInfo) (j : NodeInfo)
      → j.instance_of ≡ none
      → (b ≡ false → carried (is ++ j ∷ []) ≡ carried is)
      → (b ≡ false → IsStray detail j)
      → Inv is
      → Inv (if b then is else is ++ j ∷ [])
  keep_Inv true is j gone same stray h = h
  keep_Inv false is j gone same stray h =
      (same refl ∙ h.0, All-append (IsStray detail) is _ h.1 (stray refl, tt))

  module _ (mnodes : List Node) where
    add_crd-Inv :
        (role : String) (k : Master) (is : List NodeInfo)
        → All (λ n. IdsAgree n k) mnodes
        → Inv is
        → Inv (add_crd role mnodes k is)
    unfolding add_crd
    add_crd-Inv role k is agree h =
        keep_Inv (any (has_crd k) is) is _ refl (λ new. carried-append_none is _ refl) stray h
      where
        gone : any (has_crd k) is ≡ false → HasNoInstance detail k.id
        gone new =
            subst (λ ds. HasNoInstance ds k.id) h.0
              (no_crd_instance k is (any-eq_false (has_crd k) is new))

        of_node :
            any (has_crd k) is ≡ false
            → (n : Node) → find (node_matches k.id) mnodes ≡ some n
            → HasNoInstance detail n.provider_id
        of_node new n e =
            subst (HasNoInstance detail)
              (sym (
                find-All (λ n. IdsAgree n k) (node_matches k.id) mnodes n agree e
                  (find-eq_some (node_matches k.id) mnodes n e)))
              (gone new)

        stray :
            any (has_crd k) is ≡ false
            → IsStray detail (record {
              role = role;
              instance_of = none;
              node = find (node_matches k.id) mnodes;
              resource = some k;
            })
        stray new _ = (
          of_node new,
          λ m e. subst (λ (x : Master). HasNoInstance detail x.id) (some_inj k m e) (gone new),
        )

    add_crds-Inv :
        (role : String) (ks : List Master) (is : List NodeInfo)
        → All (λ k. All (λ n. IdsAgree n k) mnodes) ks
        → Inv is
        → Inv (add_crds role mnodes ks is)
    unfolding add_crds
    add_crds-Inv role [] is agree h = h
    add_crds-Inv role (k ∷ ks) is agree h =
        add_crds-Inv role ks _ agree.1 (add_crd-Inv role k is agree.0 h)

  module _ (mcrds : List Master) where
    add_node-Inv :
        (n : Node) (is : List NodeInfo)
        → All (λ k. IdsAgree n k) mcrds
        → Inv is
        → Inv (add_node mcrds n is)
    unfolding add_node
    add_node-Inv n is agree h =
        keep_Inv (any (has_node n) is) is _ refl (λ new. carried-append_none is _ refl) stray h
      where
        matches : Master → Bool
        matches m = contains n.provider_id m.id

        gone : any (has_node n) is ≡ false → HasNoInstance detail n.provider_id
        gone new =
            subst (λ ds. HasNoInstance ds n.provider_id) h.0
              (no_node_instance n is (any-eq_false (has_node n) is new))

        of_crd :
            any (has_node n) is ≡ false
            → (k : Master) → find matches mcrds ≡ some k
            → HasNoInstance detail k.id
        of_crd new k e =
            subst (HasNoInstance detail)
              (find-All (λ k. IdsAgree n k) matches mcrds k agree e
                (find-eq_some matches mcrds k e))
              (gone new)

        stray :
            any (has_node n) is ≡ false
            → IsStray detail (record {
              role = "";
              instance_of = none;
              node = some n;
              resource = find matches mcrds;
            })
        stray new _ = (
          λ m e.
              subst (λ (x : Node). HasNoInstance detail x.provider_id) (some_inj n m e) (gone new),
          of_crd new,
        )

    add_nodes-Inv :
        (ns : List Node) (is : List NodeInfo)
        → All (λ n. All (λ k. IdsAgree n k) mcrds) ns
        → Inv is
        → Inv (add_nodes mcrds ns is)
    unfolding add_nodes
    add_nodes-Inv [] is agree h = h
    add_nodes-Inv (n ∷ ns) is agree h = add_nodes-Inv ns _ agree.1 (add_node-Inv n is agree.0 h)

-- Where the id of a resource that occurs in the provider id of a master node is that provider id, an
-- entry with no instance has a node and a resource in whose ids no instance's id occurs.
pub master_infos-IsStray :
    (mcrds : List Master) (mnodes : List Node) (detail : List Instance)
    → All (λ k. All (λ n. IdsAgree n k) mnodes) mcrds
    → All (IsStray detail) (master_infos mcrds mnodes detail)
unfolding master_infos instance_info
master_infos-IsStray mcrds mnodes detail agree =
    (add_nodes-Inv detail mcrds mnodes _ (All-transpose (λ k n. IdsAgree n k) mcrds mnodes agree) (
      add_crds-Inv detail mnodes join_master_userdata mcrds _ agree (
        carried-map join_master_userdata mcrds mnodes detail,
        All-map (IsStray detail) _ detail (λ d e. cc),
      ))).1
