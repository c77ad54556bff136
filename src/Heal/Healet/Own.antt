-- ===== src/Heal/Healet/Own.antt =====
-- fixUpHard (healet.go) and Reset (operation.go): the machine that is re-initialised is the one of the
-- entry that is repaired.
use ooc.Base.{String, ◌≡◌, refl, false, some, [], All}
use ooc.Cloud.{Instance}
use ooc.Cloud.Exec.{Call, Env, delete_node, delete_master, replace_system_disk}
use ooc.Cloud.Exec.Emits.{Emits, emits_rules, Emits-deref_bind, Emits-bind, Emits-read}
use ooc.Heal.Triple.{NodeInfo, Triple}
use ooc.Heal.Operation.{replace_disk, reinitialize, reset_admitted, reset_grown, reset}
use ooc.Heal.Operation.Calls.{
  is_drastic, wait_heartbeat-Emits, drained-Emits, remove_etcd-Emits, admit_ecs-Emits,
  admit_node-Emits, run-Emits, label_node-Emits,
}
use ooc.Heal.Healet.{fix_up_hard}

-- The call deletes no node and no resource, and replaces no disk but that of the entry's instance.
abbrev pub IsOwnCall : NodeInfo → Call → Type 0
IsOwnCall info (delete_node _) = ⊥
IsOwnCall info (delete_master _) = ⊥
IsOwnCall info (replace_system_disk id _) =
    (d : Instance) × (info.instance_of ≡ some d) × (d.id ≡ id)
IsOwnCall info _ = Unit

module _ (env : Env) (info : NodeInfo) where
  harmless : (c : Call) → is_drastic c ≡ false → IsOwnCall info c
  harmless (delete_node _) h = cc
  harmless (delete_master _) h = cc
  harmless (replace_system_disk _ _) h = cc
  harmless _ h = tt

  module _ (eid : Instance) (here : info.instance_of ≡ some eid) where
    replace_disk-Emits : Emits (IsOwnCall info) (replace_disk env info eid)
    unfolding replace_disk
    replace_disk-Emits =
        let waits = wait_heartbeat-Emits env harmless in
        let own : (ud : String) → IsOwnCall info (replace_system_disk eid.id ud) =
          λ ud. (eid, here, refl) in
        search emits_rules depth 12

    reset_grown-Emits : (trip : Triple) → Emits (IsOwnCall info) (reset_grown env trip info eid)
    unfolding reset_grown reset_admitted reinitialize
    reset_grown-Emits trip =
        let ecs = admit_ecs-Emits env harmless info in
        let nodes = admit_node-Emits env harmless info in
        let drains = drained-Emits env harmless info in
        let etcds = remove_etcd-Emits env harmless trip eid.ip in
        let disks = replace_disk-Emits in search emits_rules depth 16

  reset-Emits : (trip : Triple) → Emits (IsOwnCall info) (reset env trip info)
  unfolding reset
  reset-Emits trip = Emits-deref_bind info.instance_of _ (λ eid here.
      Emits-bind _ _ (Emits-read _)
        (λ grown. let rest = reset_grown-Emits eid here trip in search emits_rules depth 12))

  fix_up_hard-Emits : (trip : Triple) → Emits (IsOwnCall info) (fix_up_hard env trip info)
  unfolding fix_up_hard
  fix_up_hard-Emits trip =
      let runs = run-Emits env harmless info in
      let resets = reset-Emits trip in
      let labels = label_node-Emits env harmless info in search emits_rules depth 10

-- The repair of an entry by fixUpHard deletes no node and no master resource, and replaces no system
-- disk but that of the entry's own instance, whatever the outside world answers.
pub fix_up_hard-IsOwn :
    (env : Env) (trip : Triple) (info : NodeInfo)
    → All (IsOwnCall info) (fix_up_hard env trip info []).1
fix_up_hard-IsOwn env trip info = (fix_up_hard-Emits env info trip).at [] tt
