-- ===== src/Heal/Healet/Deletions.antt =====
-- What a repair of the control plane deletes (FixUpMeta, FixUpEtcd and FixUpNode of healet.go).
use ooc.Base.{◌≡◌, false, some, List, [], arith, All, All-select, subst, sym}
use ooc.Cloud.{Instance, Node, Master}
use ooc.Cloud.Exec.{Call, Env, delete_node, delete_master}
use ooc.Cloud.Exec.Emits.{
  Emits, emits_rules, Emits-bind, Emits-wrap, Emits-perform, Emits-deref_bind,
}
use ooc.Heal.Triple.{
  NodeInfo, Triple, lacks_instance, instance_node_diff, is_stale_crd, master_crddiff, master_infos,
}
use ooc.Heal.Triple.Safety.{HasNoInstance, IsStray, IdsAgree, master_infos-IsStray}
use ooc.Heal.Operation.Calls.{is_deletion}
use ooc.Heal.Healet.{delete_stray, delete_stale, fix_up_node, fix_up_meta, repair}
use ooc.Heal.Healet.Calls.{each-Emits, fix_one-Emits, fix_master_crd-Emits, fix_up_etcd-Emits}

-- The call deletes no object of an instance that is there.
abbrev pub IsSafeCall : List Instance → Call → Type 0
IsSafeCall detail (delete_node n) = HasNoInstance detail n.provider_id
IsSafeCall detail (delete_master k) = HasNoInstance detail k.id
IsSafeCall detail _ = Unit

module _ (env : Env) (detail : List Instance) where
  harmless : (c : Call) → is_deletion c ≡ false → IsSafeCall detail c
  harmless (delete_node n) h = cc
  harmless (delete_master k) h = cc
  harmless _ h = tt

  -- the entry has a node, and if it has no instance the node is of none
  abbrev IsDeletable : NodeInfo → Type 0
  IsDeletable i = (n : Node) → i.node ≡ some n → HasNoInstance detail n.provider_id

  abbrev IsStale : NodeInfo → Type 0
  IsStale i = (k : Master) → i.resource ≡ some k → HasNoInstance detail k.id

  delete_stray-Emits :
      (i : NodeInfo) → IsDeletable i → Emits (IsSafeCall detail) (delete_stray env i)
  unfolding delete_stray
  delete_stray-Emits i h =
      Emits-deref_bind i.node _ (λ n e. Emits-wrap _ _ (Emits-perform env (delete_node n) (h n e)))

  delete_stale-Emits : (i : NodeInfo) → IsStale i → Emits (IsSafeCall detail) (delete_stale env i)
  unfolding delete_stale
  delete_stale-Emits i h =
      Emits-deref_bind i.resource _
        (λ k e. Emits-wrap _ _ (Emits-perform env (delete_master k) (h k e)))

  module _ (trip : Triple) (stray : All (IsStray detail) trip.node_info) where
    fix_up_node-Emits : Emits (IsSafeCall detail) (fix_up_node env trip)
    unfolding fix_up_node instance_node_diff lacks_instance
    fix_up_node-Emits =
        Emits-bind _ _
          (each-Emits IsDeletable _ _ delete_stray-Emits (
            All-select (IsStray detail) IsDeletable lacks_instance trip.node_info
              (λ i s p. (s (ground arith)).0) stray))
          (λ _. fix_one-Emits env harmless trip _)

    fix_up_meta-Emits : Emits (IsSafeCall detail) (fix_up_meta env trip)
    unfolding fix_up_meta master_crddiff is_stale_crd
    fix_up_meta-Emits =
        Emits-bind _ _
          (each-Emits IsStale _ _ delete_stale-Emits (
            All-select (IsStray detail) IsStale is_stale_crd trip.node_info
              (λ i s p. (s (ground arith)).1) stray))
          (λ _. fix_master_crd-Emits env harmless _)

    repair-Emits : Emits (IsSafeCall detail) (repair env trip)
    unfolding repair
    repair-Emits =
        let meta = fix_up_meta-Emits in
        let members = fix_up_etcd-Emits env harmless trip in
        let nodes = fix_up_node-Emits in search emits_rules depth 8

-- The repair of a control plane that NewTripleMaster has joined makes, whatever the outside world
-- answers and wherever it stops, no deletion of a node or of a master resource in whose id the id of
-- one of the instances occurs; the ids of resources are taken to be the provider ids of their nodes.
pub repair-deletes_strays :
    (env : Env) (trip : Triple) (detail : List Instance)
    → trip.node_info ≡ master_infos trip.mcrds trip.mnodes detail
    → All (λ k. All (λ n. IdsAgree n k) trip.mnodes) trip.mcrds
    → All (IsSafeCall detail) (repair env trip []).1
repair-deletes_strays env trip detail joined agree =
    (repair-Emits env detail trip (
        subst (All (IsStray detail)) (sym joined)
          (master_infos-IsStray trip.mcrds trip.mnodes detail agree))).at
      [] tt
