-- ===== src/Heal/Operation/Calls.antt =====
-- The operations on a node delete no object of the cluster: a set of calls that has every call but
-- the deletions has all their calls.
use ooc.Base.{ℕ, zero, suc, String, ◌≡◌, refl, Bool, true, false, Option, List, [], ◌∷◌}
use ooc.Cloud.{
  Instance, Node, Master, Cluster, Member, Error, text, not_found, retry, conflict, invalid,
}
use ooc.Cloud.Exec.{
  sign_etcd, make_dir, write_file, Call, Env, Exec, delete_node, delete_master, replace_system_disk,
  sleep,
}
use ooc.Cloud.Exec.Emits.{Emits, emits_rules}
use ooc.Help.Patch.{fetch, patch, wait_ready, steady, poll, wait_heartbeat}
use ooc.Etcd.{Etcd, with_ips, member_list, remove_member, sign_missing, new_etcd_from_crd}
use ooc.Etcd.Signing.{sign-Emits}
use ooc.Etcd.Calls.{try_each_peer-Emits}
use ooc.Heal.Triple.{NodeInfo, Triple}
use ooc.Heal.Operation.{
  get_node_name, cordon_node, drain, drained, restart, admit_ecs, admit_found, admit_list_error,
  admit_node, remove_etcd, replace_disk, reinitialize, reset_admitted, reset_grown, reset, run,
  label_node,
}

abbrev pub is_deletion : Call → Bool
is_deletion (delete_node _) = true
is_deletion (delete_master _) = true
is_deletion _ = false

-- a deletion, or the replacement of a system disk
abbrev pub is_drastic : Call → Bool
is_drastic (delete_node _) = true
is_drastic (delete_master _) = true
is_drastic (replace_system_disk _ _) = true
is_drastic _ = false

module _ {Q : Call → Type 0} (env : Env) (harmless : (c : Call) → is_drastic c ≡ false → Q c) where
  fetch-Emits : (name : String) → Emits Q (fetch env name)
  unfolding fetch
  fetch-Emits name = search (emits_rules)

  pub patch-Emits : (name : String) (setter : Node → Node) → Emits Q (patch env name setter)
  unfolding patch
  patch-Emits name setter = search (emits_rules, fetch-Emits)

  wait_ready-Emits : (name : String) → Emits Q (wait_ready env name)
  unfolding wait_ready
  wait_ready-Emits name = search (emits_rules, fetch-Emits)

  steady-Emits : (name : String) (rounds : ℕ) → Emits Q (steady env name rounds)
  unfolding steady
  steady-Emits name zero = search emits_rules
  steady-Emits name (suc n) = let ih = steady-Emits name n in search (emits_rules, wait_ready-Emits)

  poll-Emits :
      (tries : ℕ) (condition : Exec Bool) → Emits Q condition → Emits Q (poll env tries condition)
  unfolding poll
  poll-Emits zero condition h = search emits_rules
  poll-Emits (suc n) condition h = let ih = poll-Emits n condition h in search emits_rules

  pub wait_heartbeat-Emits :
      (name : String) (timeout : ℕ) → Emits Q (wait_heartbeat env name timeout)
  unfolding wait_heartbeat
  wait_heartbeat-Emits name timeout = poll-Emits _ _ (steady-Emits name 3)

  with_ips-Emits : (ms : List Member) → Emits Q (with_ips ms)
  unfolding with_ips
  with_ips-Emits [] = search emits_rules
  with_ips-Emits (m ∷ ms) = let ih = with_ips-Emits ms in search emits_rules

  pub member_list-Emits : (m : Etcd) → Emits Q (member_list env m)
  unfolding member_list
  member_list-Emits m =
      try_each_peer-Emits (λ n. harmless (sleep n) refl) [] m.peer 2 _
        (λ ip. search (emits_rules, with_ips-Emits))

  pub remove_member-Emits : (m : Etcd) (mem : Member) → Emits Q (remove_member env m mem)
  unfolding remove_member
  remove_member-Emits m mem =
      let waits = λ (n : ℕ). harmless (sleep n) refl in
      search (emits_rules, try_each_peer-Emits) depth 8

  pub new_etcd_from_crd-Emits :
      (ms : List Master) (spec : Cluster) (home : String)
      → Emits Q (new_etcd_from_crd env ms spec home)
  unfolding new_etcd_from_crd
  new_etcd_from_crd-Emits ms spec home =
      let signed : (b : Bool) → Emits Q (sign_missing env ms spec home b) =
        sign-Emits env (λ n. harmless (sign_etcd n) refl) (λ path. harmless (make_dir path) refl)
          (λ path body. harmless (write_file path body) refl) ms spec home in
      search emits_rules

  pub get_node_name-Emits : (info : NodeInfo) → Emits Q (get_node_name info)
  unfolding get_node_name
  get_node_name-Emits info = search emits_rules

  drain-Emits : (info : NodeInfo) → Emits Q (drain env info)
  unfolding drain cordon_node
  drain-Emits info = search emits_rules depth 12

  pub drained-Emits : (info : NodeInfo) → Emits Q (drained env info)
  unfolding drained
  drained-Emits info = search (emits_rules, drain-Emits)

  restart-Emits : (info : NodeInfo) → Emits Q (restart env info)
  unfolding restart
  restart-Emits info = search (emits_rules, get_node_name-Emits, wait_heartbeat-Emits)

  pub admit_ecs-Emits : (info : NodeInfo) (n : ℕ) → Emits Q (admit_ecs env info n)
  unfolding admit_ecs
  admit_ecs-Emits info n = search emits_rules

  admit_found-Emits : (o : Option Node) (n : ℕ) → Emits Q (admit_found env o n)
  unfolding admit_found
  admit_found-Emits o n = search emits_rules

  admit_list_error-Emits : (e : Error) → Emits Q (admit_list_error e)
  unfolding admit_list_error
  admit_list_error-Emits (text _) = search emits_rules
  admit_list_error-Emits (not_found _) = search emits_rules
  admit_list_error-Emits (retry _) = search emits_rules
  admit_list_error-Emits (conflict _) = search emits_rules
  admit_list_error-Emits (invalid _) = search emits_rules

  pub admit_node-Emits : (info : NodeInfo) (n : ℕ) → Emits Q (admit_node env info n)
  unfolding admit_node
  admit_node-Emits info n = search (emits_rules, admit_found-Emits, admit_list_error-Emits)

  pub remove_etcd-Emits : (trip : Triple) (ip : String) → Emits Q (remove_etcd env trip ip)
  unfolding remove_etcd
  remove_etcd-Emits trip ip =
      search (emits_rules, new_etcd_from_crd-Emits, member_list-Emits, remove_member-Emits)

  pub run-Emits : (info : NodeInfo) (cmd : String) → Emits Q (run env info cmd)
  unfolding run
  run-Emits info cmd = search (emits_rules, get_node_name-Emits, wait_heartbeat-Emits)

  pub label_node-Emits :
      (info : NodeInfo) (lbl : List (String × String)) → Emits Q (label_node env info lbl)
  unfolding label_node
  label_node-Emits info lbl = search (emits_rules, get_node_name-Emits, fetch-Emits, patch-Emits)

not_drastic-not_deletion : (c : Call) → is_drastic c ≡ false → is_deletion c ≡ false
not_drastic-not_deletion (delete_node _) h = cc
not_drastic-not_deletion (delete_master _) h = cc
not_drastic-not_deletion _ h = refl

module _ {Q : Call → Type 0} (env : Env) (harmless : (c : Call) → is_deletion c ≡ false → Q c) where
  pub light : (c : Call) → is_drastic c ≡ false → Q c
  light c h = harmless c (not_drastic-not_deletion c h)

  replace_disk-Emits : (info : NodeInfo) (eid : Instance) → Emits Q (replace_disk env info eid)
  unfolding replace_disk
  replace_disk-Emits info eid =
      let waits = wait_heartbeat-Emits env light in search emits_rules depth 12

  reinitialize-Emits :
      (trip : Triple) (info : NodeInfo) (eid : Instance) → Emits Q (reinitialize env trip info eid)
  unfolding reinitialize
  reinitialize-Emits trip info eid =
      let drains = drained-Emits env light info in
      let etcds = remove_etcd-Emits env light trip eid.ip in
      search (emits_rules, replace_disk-Emits)

  reset_grown-Emits :
      (trip : Triple) (info : NodeInfo) (eid : Instance) → Emits Q (reset_grown env trip info eid)
  unfolding reset_grown reset_admitted
  reset_grown-Emits trip info eid =
      let ecs = admit_ecs-Emits env light info in
      let nodes = admit_node-Emits env light info in
      search (emits_rules, reinitialize-Emits) depth 12

  pub reset-Emits : (trip : Triple) (info : NodeInfo) → Emits Q (reset env trip info)
  unfolding reset
  reset-Emits trip info = search (emits_rules, reset_grown-Emits) depth 12
