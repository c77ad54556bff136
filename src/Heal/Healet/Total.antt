-- ===== src/Heal/Healet/Total.antt =====
-- The repair of a control plane neither dereferences a nil pointer nor indexes a list out of range.
use ooc.Base.{
  ℕ, zero, suc, ◌+◌, ◌-◌, ◌≤◌, ◌<◌, String, ◌≡◌, ◌≢◌, refl, true, some, List, [], ◌∷◌, arith,
  is_some, length, All, All-select,
}
use ooc.Cloud.{Node, Master, Error, text}
use ooc.Cloud.Exec.{Env, Exec, Trace, ok, pure, fail, ◌>>=◌, ◌>>◌, wrap}
use ooc.Cloud.Exec.NoPanic.{
  NoPanic, no_panic_rules, NoPanic-catch_with, NoPanic-bind, NoPanic-wrap, NoPanic-deref_bind,
}
use ooc.Heal.Triple.{
  NodeInfo, Triple, is_unready, unready_node_list, lacks_instance, lacks_node, instance_node_diff,
  is_stale_crd, misses_crd, master_crddiff,
}
use ooc.Etcd.{etcd_tmp}
use ooc.Heal.Operation.Total.{
  run-NoPanic, reset-NoPanic, label_node-NoPanic, get_node_name-NoPanic, member_list-NoPanic,
  remove_member-NoPanic, HasAuthorities, new_etcd_from_crd-NoPanic,
}
use ooc.Heal.Healet.{
  each, randn, nth, fix_up_hard, delete_stray, fix_random, fix_one, fix_up_node, rebuild_crd,
  fix_master_crd, delete_stale, fix_up_meta, fix_up_etcd, repair,
}

-- rand.Intn(n) is below n.
abbrev pub IntnInRange : Env → Type 0
IntnInRange env = (t : Trace) (n : ℕ) → 0 < n → env.intn t n < n

-- Every node of the triple has an address.
abbrev pub HasAddress : NodeInfo → Type 0
HasAddress i = (n : Node) → i.node ≡ some n → n.addresses ≢ []

All-trivial : {A : Type 0} (xs : List A) → All (λ _. Unit {0}) xs
All-trivial [] = tt
All-trivial (x ∷ xs) = (tt, All-trivial xs)

each-NoPanic {ℓ} :
    {A : Type ℓ} (P : A → Type 0) (f : A → Exec (Unit {0})) (xs : List A)
    → ((x : A) → P x → NoPanic (f x))
    → All P xs
    → NoPanic (each f xs)
unfolding each
each-NoPanic P f [] step h = search no_panic_rules
each-NoPanic P f (x ∷ xs) step h = NoPanic-bind _ _ (step x h.0) (λ _. each-NoPanic P f xs step h.1)

each-NoPanic_all {ℓ} :
    {A : Type ℓ} (f : A → Exec (Unit {0})) (xs : List A)
    → ((x : A) → NoPanic (f x))
    → NoPanic (each f xs)
unfolding each
each-NoPanic_all f [] step = search no_panic_rules
each-NoPanic_all f (x ∷ xs) step = NoPanic-bind _ _ (step x) (λ _. each-NoPanic_all f xs step)

-- the element that `nth` returns is one of the list
nth-NoPanic_bind :
    {A : Type 0} (P : A → Type 0) (xs : List A) (k : ℕ) (g : A → Exec (Unit {0}))
    → k < length xs
    → All P xs
    → ((a : A) → P a → NoPanic (g a))
    → NoPanic (nth xs k >>= g)
unfolding nth ◌>>=◌ pure
nth-NoPanic_bind P [] k g lt h step = absurd (omega arith)
nth-NoPanic_bind P (x ∷ xs) zero g lt h step = step x h.0
nth-NoPanic_bind P (x ∷ xs) (suc k) g lt h step = nth-NoPanic_bind P xs k g (omega arith) h.1 step

-- an index of a list that is not empty
randn-lt :
    (env : Env) (n : ℕ) (t : Trace) (k : ℕ)
    → IntnInRange env
    → 0 < n
    → (randn env n t).0 ≡ ok k
    → k < n
unfolding randn pure
randn-lt env n t k range pos e = ground (arith, range t (n - 1))

-- randn of healet.go never gives the index of the last of two or more entries, by which fixUpNode
-- never picks it at random.
pub randn-before_last :
    (env : Env) (n : ℕ) (t : Trace) (k : ℕ)
    → IntnInRange env
    → 2 ≤ n
    → (randn env n t).0 ≡ ok k
    → k + 1 < n
unfolding randn pure
randn-before_last env n t k range two e = ground (arith, range t (n - 1))

abbrev HasInstance : NodeInfo → Type 0
HasInstance i = is_some i.instance_of ≡ true

module _ (env : Env) (range : IntnInRange env) (trip : Triple) (has_master : trip.mcrds ≢ [])
    (signs : HasAuthorities trip.cluster) where
  randn-NoPanic : (n : ℕ) → NoPanic (randn env n)
  unfolding randn
  randn-NoPanic n = search no_panic_rules

  fix_up_hard-NoPanic : (i : NodeInfo) → HasInstance i → NoPanic (fix_up_hard env trip i)
  unfolding fix_up_hard
  fix_up_hard-NoPanic i h =
      let runs = run-NoPanic env i h in
      let resets = reset-NoPanic env i h trip has_master signs in
      let labels = label_node-NoPanic env i h in
      NoPanic-deref_bind i.instance_of _ h (λ eid _. search no_panic_rules depth 10)

  fix_random-NoPanic :
      (infos : List NodeInfo) → All HasInstance infos → NoPanic (fix_random env trip infos)
  unfolding fix_random ◌>>=◌
  fix_random-NoPanic [] h = search no_panic_rules
  fix_random-NoPanic (i ∷ is) h =
      NoPanic-catch_with (λ k. k < length (i ∷ is)) (randn env (length (i ∷ is))) fail _
        (randn-NoPanic _) (λ t k e. randn-lt env (length (i ∷ is)) t k range (omega arith) e)
        (λ e. search no_panic_rules)
        (λ k lt. nth-NoPanic_bind HasInstance (i ∷ is) k _ lt h fix_up_hard-NoPanic)

  fix_one-NoPanic :
      (infos : List NodeInfo) → All HasInstance infos → NoPanic (fix_one env trip infos)
  unfolding fix_one unready_node_list is_unready
  fix_one-NoPanic [] h = fix_random-NoPanic _ (
      All-select (λ _. Unit {0}) HasInstance is_unready trip.node_info (λ i _ p. ground arith)
        (All-trivial trip.node_info))
  fix_one-NoPanic (i ∷ is) h =
      NoPanic-bind _ _ (get_node_name-NoPanic env i h.0) (λ _. fix_up_hard-NoPanic i h.0)

  delete_stray-NoPanic : (i : NodeInfo) → is_some i.node ≡ true → NoPanic (delete_stray env i)
  unfolding delete_stray
  delete_stray-NoPanic i h = NoPanic-deref_bind i.node _ h (λ n _. search no_panic_rules)

  fix_up_node-NoPanic : NoPanic (fix_up_node env trip)
  unfolding fix_up_node instance_node_diff lacks_instance lacks_node
  fix_up_node-NoPanic =
      NoPanic-bind _ _
        (each-NoPanic (λ i. is_some i.node ≡ true) _ _ delete_stray-NoPanic
          (All-select (λ _. Unit {0}) (λ i. is_some i.node ≡ true) lacks_instance trip.node_info
            (λ i _ p. ground arith) (All-trivial trip.node_info)))
        (λ _. fix_one-NoPanic _ (
          All-select (λ _. Unit {0}) HasInstance lacks_node trip.node_info (λ i _ p. ground arith)
            (All-trivial trip.node_info)))

module _ (env : Env) where
  first_address :
      (addresses : List String) (g : String → Exec (Unit {0}))
      → addresses ≢ []
      → ((ip : String) → NoPanic (g ip))
      → NoPanic (nth addresses 0 >>= g)
  first_address [] g h k = absurd (h refl)
  first_address (ip ∷ rest) g h k =
      nth-NoPanic_bind (λ _. Unit {0}) (ip ∷ rest) 0 g (omega arith) (tt, All-trivial rest)
        (λ a _. k a)

  abbrev IsRebuildable : NodeInfo → Type 0
  IsRebuildable i = (is_some i.node ≡ true) × HasAddress i

  rebuild_crd-NoPanic : (i : NodeInfo) → IsRebuildable i → NoPanic (rebuild_crd env i)
  unfolding rebuild_crd
  rebuild_crd-NoPanic i h =
      NoPanic-deref_bind i.node _ h.0
        (λ n e. first_address n.addresses _ (h.1 n e) (λ ip. search no_panic_rules))

  delete_stale-NoPanic : (i : NodeInfo) → is_some i.resource ≡ true → NoPanic (delete_stale env i)
  unfolding delete_stale
  delete_stale-NoPanic i h = NoPanic-deref_bind i.resource _ h (λ k _. search no_panic_rules)

  fix_up_meta-NoPanic :
      (trip : Triple) → All HasAddress trip.node_info → NoPanic (fix_up_meta env trip)
  unfolding fix_up_meta master_crddiff fix_master_crd is_stale_crd misses_crd
  fix_up_meta-NoPanic trip addressed =
      NoPanic-bind _ _
        (each-NoPanic (λ i. is_some i.resource ≡ true) _ _ delete_stale-NoPanic
          (All-select (λ _. Unit {0}) (λ i. is_some i.resource ≡ true) is_stale_crd trip.node_info
            (λ i _ p. ground arith) (All-trivial trip.node_info)))
        (λ _. each-NoPanic IsRebuildable _ _ rebuild_crd-NoPanic (
          All-select HasAddress IsRebuildable misses_crd trip.node_info (λ i a p. (ground arith, a))
            addressed))

  fix_up_etcd-NoPanic :
      (trip : Triple)
      → trip.mcrds ≢ []
      → HasAuthorities trip.cluster
      → NoPanic (fix_up_etcd env trip)
  unfolding fix_up_etcd
  fix_up_etcd-NoPanic trip h signs =
      let etcds = new_etcd_from_crd-NoPanic env trip.mcrds trip.cluster etcd_tmp h signs in
      let lists = member_list-NoPanic env in
      let removes = remove_member-NoPanic env in search (no_panic_rules, each-NoPanic_all) depth 10

fix_up_etcd_no_master :
    (env : Env) (trip : Triple)
    → trip.mcrds ≡ []
    → fix_up_etcd env trip ≡ fail (text "empty master: abort etcd fix")
unfolding fix_up_etcd
fix_up_etcd_no_master env trip none_left = rw none_left

-- With no master resource the repair stops before it reaches the nodes.
stop-NoPanic :
    (s : String) (e : Error) (g : Unit {0} → Exec (Unit {0})) → NoPanic (wrap s (fail e) >>= g)
unfolding wrap ◌>>=◌ fail
stop-NoPanic s e g = record { at = λ t p. cc }

etcd_then_node-NoPanic :
    (env : Env) (trip : Triple) (ms : List Master)
    → IntnInRange env
    → HasAuthorities trip.cluster
    → trip.mcrds ≡ ms
    → NoPanic (wrap "sync, etcd" (fix_up_etcd env trip) >> fix_up_node env trip)
etcd_then_node-NoPanic env trip [] range signs e =
    rw (fix_up_etcd_no_master env trip e) (stop-NoPanic _ _ _)
etcd_then_node-NoPanic env trip (m ∷ ms) range signs e =
    let some_left : trip.mcrds ≢ [] = λ z. cc in
    NoPanic-bind _ _ (NoPanic-wrap _ _ (fix_up_etcd-NoPanic env trip some_left signs))
      (λ _. fix_up_node-NoPanic env range trip some_left signs)

-- The repair of a control plane never dereferences a nil pointer and never indexes a list out of
-- range, whatever the outside world answers, if the cluster has the two authorities of etcd, every
-- node of the triple has an address, and rand.Intn(n) is below n.
pub repair-NoPanic :
    (env : Env) (trip : Triple)
    → IntnInRange env
    → HasAuthorities trip.cluster
    → All HasAddress trip.node_info
    → NoPanic (repair env trip)
unfolding repair
repair-NoPanic env trip range signs addressed =
    NoPanic-bind _ _ (NoPanic-wrap _ _ (fix_up_meta-NoPanic env trip addressed))
      (λ _. etcd_then_node-NoPanic env trip trip.mcrds range signs refl)
