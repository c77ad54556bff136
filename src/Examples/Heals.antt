-- ===== src/Examples/Heals.antt =====
-- The theorems on the repair of a control plane at concrete inputs.
use ooc.Base.{
  ◌≤◌, ◌*◌, ◌≡◌, ◌≢◌, ◌↔◌, refl, true, false, some, List, [], ◌∷◌, All, Any, inl, length, select,
  any, find, has_prefix, contains, some_inj, ap, str_eq,
}
use ooc.Cloud.{Instance, Member}
use ooc.Cloud.Exec.NoPanic.{NoPanic}
use ooc.Help.{node_ready, after}
use ooc.Heal.Triple.{
  NodeInfo, Triple, master_infos, etcd_mem_diff, system_in_consistency, worker_infos, last,
}
use ooc.Heal.Triple.Consistency.{IsSettled, system_in_consistency_iff}
use ooc.Heal.Triple.Quorum.{IsAbsent, etcd_mem_diff-IsSafe}
use ooc.Heal.Triple.Coverage.{CoversCrd, CoversNode, master_infos-covers}
use ooc.Heal.Triple.Safety.{IsStray, master_infos-IsStray}
use ooc.Heal.Triple.Aliasing.{worker_infos-drops}
use ooc.Heal.Operation.{reset}
use ooc.Heal.Operation.Throttle.{IsRefused, reset-IsThrottled}
use ooc.Heal.Healet.{repair, fix_up_hard, remove_follower}
use ooc.Heal.Healet.Deletions.{IsSafeCall, repair-deletes_strays}
use ooc.Heal.Healet.Follower.{IsFollowerCall, remove_follower-IsFollower}
use ooc.Heal.Healet.Own.{IsOwnCall, fix_up_hard-IsOwn}
use ooc.Heal.Healet.Total.{repair-NoPanic}
use ooc.Examples.Worlds.{
  inst1, inst2, node1, master1, entry1, triple1, member1, member2, calm, early,
}

-- The machine of node1 and master1 has been replaced by inst2.
abbrev replaced : Triple
replaced = record triple1 {
  instances = inst2 ∷ [];
  node_info = master_infos (master1 ∷ []) (node1 ∷ []) (inst2 ∷ []);
}

repair-deletes_strays_example : All (IsSafeCall (inst2 ∷ [])) (repair calm replaced []).1
repair-deletes_strays_example =
    repair-deletes_strays calm replaced (inst2 ∷ []) refl (((λ _. refl), tt), tt)

master_infos-IsStray_example :
    All (IsStray (inst2 ∷ [])) (master_infos (master1 ∷ []) (node1 ∷ []) (inst2 ∷ []))
master_infos-IsStray_example =
    master_infos-IsStray (master1 ∷ []) (node1 ∷ []) (inst2 ∷ []) (((λ _. refl), tt), tt)

master_infos-covers_example :
    All
      (λ k. Any (CoversCrd k) (master_infos (master1 ∷ []) (node1 ∷ []) (inst2 ∷ [])))
      (master1 ∷ [])
    × All
        (λ n. Any (CoversNode n) (master_infos (master1 ∷ []) (node1 ∷ []) (inst2 ∷ [])))
        (node1 ∷ [])
master_infos-covers_example = master_infos-covers (master1 ∷ []) (node1 ∷ []) (inst2 ∷ [])

-- The third of these members has no instance.
abbrev three_members : List Member
three_members = member1 ∷ record member1 { id = 3 } ∷ member2 ∷ []

etcd_mem_diff-IsSafe_example :
    (2 * length (etcd_mem_diff triple1 three_members) ≤ length three_members)
    × All (λ m. IsAbsent triple1.instances m.ip) (etcd_mem_diff triple1 three_members)
etcd_mem_diff-IsSafe_example = etcd_mem_diff-IsSafe triple1 three_members

system_in_consistency_iff_example :
    (system_in_consistency triple1 ≡ true) ↔ All IsSettled triple1.node_info
system_in_consistency_iff_example = system_in_consistency_iff triple1

repair-NoPanic_example : NoPanic (repair calm triple1)
repair-NoPanic_example =
    repair-NoPanic calm triple1 (λ t n positive. positive) (refl, refl) ((λ n e nowhere. cc), tt)

reset-IsThrottled_example : IsRefused inst1 [] (reset early triple1 entry1 [])
unfolding after
reset-IsThrottled_example = reset-IsThrottled early triple1 entry1 inst1 [] refl (inl refl)

remove_follower-IsFollower_example : All (IsFollowerCall calm) (remove_follower calm []).1
remove_follower-IsFollower_example = remove_follower-IsFollower calm

worker_infos-drops_example :
    All (λ (i : NodeInfo). i.instance_of ≢ some inst1) (worker_infos [] (inst1 ∷ inst2 ∷ []))
unfolding last
worker_infos-drops_example = worker_infos-drops [] (inst1 ∷ inst2 ∷ []) inst1 (λ e.
    let apart : false ≡ true =
      ap (λ (i : Instance). str_eq i.status "Running") (some_inj inst2 inst1 e) in
    cc)

fix_up_hard-IsOwn_example : All (IsOwnCall entry1) (fix_up_hard calm triple1 entry1 []).1
fix_up_hard-IsOwn_example = fix_up_hard-IsOwn calm triple1 entry1

-- A cluster in which everything agrees, and one whose machine has been replaced.
settled : system_in_consistency triple1 ≡ true
unfolding system_in_consistency any select node_ready
settled = refl

unsettled : system_in_consistency replaced ≡ false
unfolding system_in_consistency master_infos any select find contains has_prefix node_ready
unsettled = refl
