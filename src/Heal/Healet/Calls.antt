-- ===== src/Heal/Healet/Calls.antt =====
-- The parts of a repair that delete nothing.
use ooc.Base.{ℕ, zero, suc, ◌≡◌, false, List, [], ◌∷◌, All}
use ooc.Cloud.Exec.{Call, Env, Exec}
use ooc.Cloud.Exec.Emits.{Emits, emits_rules, Emits-bind}
use ooc.Heal.Triple.{NodeInfo, Triple}
use ooc.Heal.Operation.Calls.{
  is_deletion, light, reset-Emits, run-Emits, label_node-Emits, get_node_name-Emits,
  member_list-Emits, remove_member-Emits, new_etcd_from_crd-Emits,
}
use ooc.Heal.Healet.{
  each, randn, nth, fix_up_hard, fix_random, fix_one, rebuild_crd, fix_master_crd, fix_up_etcd,
}

module _ {Q : Call → Type 0} where
  -- a loop makes the calls of its rounds
  pub each-Emits {ℓ} :
      {A : Type ℓ} (P : A → Type 0) (f : A → Exec (Unit {0})) (xs : List A)
      → ((x : A) → P x → Emits Q (f x))
      → All P xs
      → Emits Q (each f xs)
  unfolding each
  each-Emits P f [] step h = search emits_rules
  each-Emits P f (x ∷ xs) step h = Emits-bind _ _ (step x h.0) (λ _. each-Emits P f xs step h.1)

  pub each-Emits_all {ℓ} :
      {A : Type ℓ} (f : A → Exec (Unit {0})) (xs : List A)
      → ((x : A) → Emits Q (f x))
      → Emits Q (each f xs)
  unfolding each
  each-Emits_all f [] step = search emits_rules
  each-Emits_all f (x ∷ xs) step = Emits-bind _ _ (step x) (λ _. each-Emits_all f xs step)

  nth-Emits : {A : Type 0} (xs : List A) (k : ℕ) → Emits Q (nth xs k)
  unfolding nth
  nth-Emits [] k = search emits_rules
  nth-Emits (x ∷ xs) zero = search emits_rules
  nth-Emits (x ∷ xs) (suc k) = nth-Emits xs k

  module _ (env : Env) (harmless : (c : Call) → is_deletion c ≡ false → Q c) where
    randn-Emits : (n : ℕ) → Emits Q (randn env n)
    unfolding randn
    randn-Emits n = search emits_rules

    fix_up_hard-Emits : (trip : Triple) (info : NodeInfo) → Emits Q (fix_up_hard env trip info)
    unfolding fix_up_hard
    fix_up_hard-Emits trip info =
        let resets = reset-Emits env harmless trip info in
        let runs = run-Emits env (light env harmless) info in
        let labels = label_node-Emits env (light env harmless) info in search emits_rules depth 10

    fix_random-Emits : (trip : Triple) (infos : List NodeInfo) → Emits Q (fix_random env trip infos)
    unfolding fix_random
    fix_random-Emits trip [] = search emits_rules
    fix_random-Emits trip (i ∷ is) =
        search (emits_rules, randn-Emits, nth-Emits, fix_up_hard-Emits) depth 8

    pub fix_one-Emits : (trip : Triple) (infos : List NodeInfo) → Emits Q (fix_one env trip infos)
    unfolding fix_one
    fix_one-Emits trip [] = fix_random-Emits trip _
    fix_one-Emits trip (i ∷ is) =
        let names = get_node_name-Emits env (light env harmless) i in
        search (emits_rules, fix_up_hard-Emits)

    rebuild_crd-Emits : (i : NodeInfo) → Emits Q (rebuild_crd env i)
    unfolding rebuild_crd
    rebuild_crd-Emits i = search (emits_rules, nth-Emits) depth 8

    pub fix_master_crd-Emits : (is : List NodeInfo) → Emits Q (fix_master_crd env is)
    unfolding fix_master_crd
    fix_master_crd-Emits is = each-Emits_all _ is rebuild_crd-Emits

    pub fix_up_etcd-Emits : (trip : Triple) → Emits Q (fix_up_etcd env trip)
    unfolding fix_up_etcd
    fix_up_etcd-Emits trip =
        let etcds = new_etcd_from_crd-Emits env (light env harmless) trip.mcrds trip.cluster in
        let lists = member_list-Emits env (light env harmless) in
        let removes = remove_member-Emits env (light env harmless) in
        search (emits_rules, each-Emits_all) depth 10
