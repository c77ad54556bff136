-- ===== src/Heal/Operation/Total.antt =====
-- The operations on an entry that has an instance dereference no nil pointer.
use ooc.Base.{
  concat, ℕ, zero, suc, String, ◌≡◌, ◌≢◌, refl, Bool, true, false, Option, none, some, List, [],
  ◌∷◌, arith, is_some, Option-cases, inl, inr,
}
use ooc.Cloud.{
  Instance, Node, Master, Cluster, Member, Error, text, not_found, retry, conflict, invalid,
}
use ooc.Cloud.Exec.{write_file, Env, Exec, Trace, ok, pure, catch, maybe}
use ooc.Cloud.Exec.NoPanic.{
  NoPanic, no_panic_rules, NoPanic-catch, NoPanic-deref, NoPanic-bind, NoPanic-wrap,
  NoPanic-perform,
}
use ooc.Help.Patch.{fetch, patch, wait_ready, steady, poll, wait_heartbeat}
use ooc.Etcd.{
  Etcd, rest_before, try_peer, give_up, try_peers, try_each_peer, with_ips, member_list,
  remove_member, load_or_sign, sign_missing, write_certs, cert_files, cert_home, new_etcd_from_crd,
}
use ooc.Heal.Triple.{NodeInfo, Triple}
use ooc.Heal.Operation.{
  get_node_name, cordon_node, drain, drained, admit_ecs, admit_found, admit_list_error, admit_node,
  remove_etcd, replace_disk, reinitialize, reset_admitted, reset_grown, reset, run, label_node,
}

-- the cluster has the two authorities of etcd
abbrev pub HasAuthorities : Cluster → Type 0
HasAuthorities spec = (is_some spec.peer_ca ≡ true) × (is_some spec.server_ca ≡ true)

module _ (env : Env) where
  fetch-NoPanic : (name : String) → NoPanic (fetch env name)
  unfolding fetch
  fetch-NoPanic name = search (no_panic_rules)

  pub patch-NoPanic : (name : String) (setter : Node → Node) → NoPanic (patch env name setter)
  unfolding patch
  patch-NoPanic name setter = search (no_panic_rules)

  wait_ready-NoPanic : (name : String) → NoPanic (wait_ready env name)
  unfolding wait_ready
  wait_ready-NoPanic name = search (no_panic_rules)

  steady-NoPanic : (name : String) (rounds : ℕ) → NoPanic (steady env name rounds)
  unfolding steady
  steady-NoPanic name zero = search no_panic_rules
  steady-NoPanic name (suc n) =
      let ih = steady-NoPanic name n in search (no_panic_rules, wait_ready-NoPanic)

  poll-NoPanic :
      (tries : ℕ) (condition : Exec Bool) → NoPanic condition → NoPanic (poll env tries condition)
  unfolding poll
  poll-NoPanic zero condition h = search no_panic_rules
  poll-NoPanic (suc n) condition h = let ih = poll-NoPanic n condition h in search no_panic_rules

  pub wait_heartbeat-NoPanic :
      (name : String) (timeout : ℕ) → NoPanic (wait_heartbeat env name timeout)
  unfolding wait_heartbeat
  wait_heartbeat-NoPanic name timeout = poll-NoPanic _ _ (steady-NoPanic name 3)

  module _ {A : Type 0} where
    rest_before-NoPanic : (n : ℕ) (m : Exec A) → NoPanic m → NoPanic (rest_before n m)
    unfolding rest_before
    rest_before-NoPanic n m h = search no_panic_rules

    try_peer-NoPanic :
        (mfunc : String → Exec A) (interval : ℕ) (p : String) (left : ℕ) (e : Option Error)
        (others : Option Error → Exec A)
        → ((ip : String) → NoPanic (mfunc ip))
        → ((o : Option Error) → NoPanic (others o))
        → NoPanic (try_peer mfunc interval p left e others)
    unfolding try_peer
    try_peer-NoPanic mfunc interval p zero e others h k = k e
    try_peer-NoPanic mfunc interval p (suc left) e others h k =
        let ih = λ (x : Error). try_peer-NoPanic mfunc interval p left (some x) others h k in
        search (no_panic_rules, rest_before-NoPanic)

    try_peers-NoPanic :
        (initial : A) (mfunc : String → Exec A) (interval : ℕ) (peer : List String)
        (e : Option Error)
        → ((ip : String) → NoPanic (mfunc ip))
        → NoPanic (try_peers initial mfunc interval peer e)
    unfolding try_peers give_up
    try_peers-NoPanic initial mfunc interval [] e h = search no_panic_rules
    try_peers-NoPanic initial mfunc interval (p ∷ peer) e h =
        try_peer-NoPanic mfunc interval p 2 e _ h
          (λ o. try_peers-NoPanic initial mfunc interval peer o h)

    try_each_peer-NoPanic :
        (initial : A) (peer : List String) (interval : ℕ) (mfunc : String → Exec A)
        → ((ip : String) → NoPanic (mfunc ip))
        → NoPanic (try_each_peer initial peer interval mfunc)
    unfolding try_each_peer
    try_each_peer-NoPanic initial peer interval mfunc h =
        try_peers-NoPanic initial mfunc interval peer none h

  with_ips-NoPanic : (ms : List Member) → NoPanic (with_ips ms)
  unfolding with_ips
  with_ips-NoPanic [] = search no_panic_rules
  with_ips-NoPanic (m ∷ ms) = let ih = with_ips-NoPanic ms in search no_panic_rules

  pub member_list-NoPanic : (m : Etcd) → NoPanic (member_list env m)
  unfolding member_list
  member_list-NoPanic m =
      try_each_peer-NoPanic [] m.peer 2 _ (λ ip. search (no_panic_rules, with_ips-NoPanic))

  pub remove_member-NoPanic : (m : Etcd) (mem : Member) → NoPanic (remove_member env m mem)
  unfolding remove_member
  remove_member-NoPanic m mem = search (no_panic_rules, try_each_peer-NoPanic) depth 8

  certs-NoPanic : (home : String) (names : List String) → NoPanic (write_certs env home names)
  unfolding write_certs
  certs-NoPanic home [] = search no_panic_rules
  certs-NoPanic home (name ∷ rest) =
      NoPanic-bind _ _
        (record {
          at = λ t p.
              NoPanic.at
                (NoPanic-wrap (concat ("write file " ∷ name ∷ [])) _
                  (NoPanic-perform env (write_file (cert_home home name) (env.certificate t name))))
                t p;
        })
        (λ _. certs-NoPanic home rest)

  ordered-NoPanic :
      (home : String) → NoPanic (λ t. write_certs env home (env.file_order t cert_files) t)
  ordered-NoPanic home = record {
    at = λ t p. NoPanic.at (certs-NoPanic home (env.file_order t cert_files)) t p;
  }

  sign-NoPanic :
      (ms : List Master) (spec : Cluster) (home : String) (b : Bool)
      → ms ≢ []
      → HasAuthorities spec
      → NoPanic (sign_missing env ms spec home b)
  unfolding sign_missing load_or_sign
  sign-NoPanic [] spec home b h k = absurd (h refl)
  sign-NoPanic (m ∷ ms) spec home true h k = search no_panic_rules
  sign-NoPanic (m ∷ ms) spec home false h k =
      let peer = NoPanic-deref spec.peer_ca k.0 in
      let server = NoPanic-deref spec.server_ca k.1 in
      search (no_panic_rules, ordered-NoPanic) depth 20

  -- `nodes[0]` is there if there is a master resource
  pub new_etcd_from_crd-NoPanic :
      (ms : List Master) (spec : Cluster) (home : String)
      → ms ≢ []
      → HasAuthorities spec
      → NoPanic (new_etcd_from_crd env ms spec home)
  unfolding new_etcd_from_crd
  new_etcd_from_crd-NoPanic ms spec home h k = search (no_panic_rules, sign-NoPanic)

  module _ (info : NodeInfo) (has_instance : is_some info.instance_of ≡ true) where
    pub get_node_name-NoPanic : NoPanic (get_node_name info)
    unfolding get_node_name
    get_node_name-NoPanic = search no_panic_rules

    drain-NoPanic : NoPanic (drain env info)
    unfolding drain cordon_node
    drain-NoPanic = search no_panic_rules depth 12

    drained_no_node : (t : Trace) → info.node ≡ none → (drained env info t).0 ≡ ok tt
    unfolding drained drain maybe catch pure
    drained_no_node t gone = ground arith

    drained-NoPanic : NoPanic (drained env info)
    unfolding drained
    drained-NoPanic = elim (Option-cases info.node) [
      | inl gone ↦ record { at = λ t p. cc (drained_no_node t gone) }
      | inr (n, there) ↦
          NoPanic-catch _ _ pure drain-NoPanic
            (λ e.
              NoPanic-bind _ _ (NoPanic-deref info.node (ground arith))
                (λ _. search no_panic_rules))
            (λ a. search no_panic_rules)
    ]

    admit_ecs-NoPanic : (n : ℕ) → NoPanic (admit_ecs env info n)
    unfolding admit_ecs
    admit_ecs-NoPanic n = search no_panic_rules

    admit_found-NoPanic : (o : Option Node) (n : ℕ) → NoPanic (admit_found env o n)
    unfolding admit_found
    admit_found-NoPanic o n = search no_panic_rules

    admit_list_error-NoPanic : (e : Error) → NoPanic (admit_list_error e)
    unfolding admit_list_error
    admit_list_error-NoPanic (text _) = search no_panic_rules
    admit_list_error-NoPanic (not_found _) = search no_panic_rules
    admit_list_error-NoPanic (retry _) = search no_panic_rules
    admit_list_error-NoPanic (conflict _) = search no_panic_rules
    admit_list_error-NoPanic (invalid _) = search no_panic_rules

    admit_node-NoPanic : (n : ℕ) → NoPanic (admit_node env info n)
    unfolding admit_node
    admit_node-NoPanic n = search (no_panic_rules, admit_found-NoPanic, admit_list_error-NoPanic)

    replace_disk-NoPanic : (eid : Instance) → NoPanic (replace_disk env info eid)
    unfolding replace_disk
    replace_disk-NoPanic eid = search (no_panic_rules, wait_heartbeat-NoPanic) depth 12

    pub run-NoPanic : (cmd : String) → NoPanic (run env info cmd)
    unfolding run
    run-NoPanic cmd = search (no_panic_rules, get_node_name-NoPanic, wait_heartbeat-NoPanic)

    pub label_node-NoPanic : (lbl : List (String × String)) → NoPanic (label_node env info lbl)
    unfolding label_node
    label_node-NoPanic lbl = search (no_panic_rules, get_node_name-NoPanic, patch-NoPanic)

    module _ (trip : Triple) (has_master : trip.mcrds ≢ [])
        (signs : HasAuthorities trip.cluster) where
      remove_etcd-NoPanic : (ip : String) → NoPanic (remove_etcd env trip ip)
      unfolding remove_etcd
      remove_etcd-NoPanic ip =
          search
            (no_panic_rules, new_etcd_from_crd-NoPanic, member_list-NoPanic, remove_member-NoPanic)

      reinitialize-NoPanic : (eid : Instance) → NoPanic (reinitialize env trip info eid)
      unfolding reinitialize
      reinitialize-NoPanic eid =
          search (no_panic_rules, drained-NoPanic, remove_etcd-NoPanic, replace_disk-NoPanic)

      reset_grown-NoPanic : (eid : Instance) → NoPanic (reset_grown env trip info eid)
      unfolding reset_grown reset_admitted
      reset_grown-NoPanic eid =
          search (no_panic_rules, admit_ecs-NoPanic, admit_node-NoPanic, reinitialize-NoPanic) depth
            12

      pub reset-NoPanic : NoPanic (reset env trip info)
      unfolding reset
      reset-NoPanic = search (no_panic_rules, reset_grown-NoPanic) depth 12
