-- ===== src/Monitor/EtcdCheck/Verdict.antt =====
-- When CheckEtcd says that etcd is down.
use ooc.Base.{
  String, ◌≡◌, refl, true, false, Option, none, some, List, [], ◌∷◌, map, ◌⊎◌, inl, inr, ap, subst,
  ◌∙◌,
}
use ooc.Cloud.{Master, Cluster, Member, Error}
use ooc.Cloud.Exec.{
  Env, Trace, ok, err, pure, ask, perform, catch, maybe, wrapped, etcd_endpoint_health,
}
use ooc.Cloud.Exec.Success.{ok-inj, bind-Then, catch-Then}
use ooc.Etcd.{Etcd, advertise, new_etcd_from_crd, member_list}
use ooc.Monitor.EtcdCheck.{
  CheckEtcd, Checked, any_healthy, probe_members, check_known, check_masters, check,
}

-- The members are asked one after the other, and none is healthy.
abbrev pub AllDown : Env → List Member → Trace → Type 0
AllDown env [] t = Unit {0}
AllDown env (mem ∷ mems) t =
    let c = etcd_endpoint_health (advertise mem.ip "2379") in
    ((e : Error) × (env.refusal t c ≡ some e)) × AllDown env mems (c ∷ t)

-- The list of members cannot be read, or it can and no member is healthy.
abbrev pub IsUnreachable : Env → Etcd → Trace → Type 0
IsUnreachable env metcd t =
    ((e : Error) × (t' : Trace) × (member_list env metcd t ≡ (err e, t')))
    ⊎ ((mems : List Member) × (t' : Trace) × (member_list env metcd t ≡ (ok mems, t'))
        × AllDown env mems t')

module _ (env : Env) where
  one_down :
      (o : Option Error) (mem : Member) (mems : List Member) (t : Trace)
      → env.refusal t (etcd_endpoint_health (advertise mem.ip "2379")) ≡ o
      → (any_healthy env (mem ∷ mems) t).0 ≡ ok false
      → ((e : Error) × (o ≡ some e))
        × ((any_healthy env mems (etcd_endpoint_health (advertise mem.ip "2379") ∷ t)).0 ≡ ok false)
  unfolding any_healthy catch perform ask pure
  one_down none mem mems t e h = cc (rw e at h)
  one_down (some x) mem mems t e h = ((x, refl), rw e at h)

  all_down :
      (mems : List Member) (t : Trace) → (any_healthy env mems t).0 ≡ ok false → AllDown env mems t
  all_down [] t h = tt
  all_down (mem ∷ mems) t h =
      let c = etcd_endpoint_health (advertise mem.ip "2379") in
      let (down, rest) = one_down (env.refusal t c) mem mems t refl h in
      (down, all_down mems (c ∷ t) rest)

  abbrev pub Verdict : Checked → Type 0
  Verdict c =
      (metcd : Etcd) × (t' : Trace) × IsUnreachable env metcd t'
      × (metcd.peer ≡ map (λ (n : Master). n.ip) c.state.master)
      × (c.error ≡ none)

  peers_of :
      (nodes : List Master) (spec : Cluster) (home : String) (t t' : Trace) (metcd : Etcd)
      → new_etcd_from_crd env nodes spec home t ≡ (ok metcd, t')
      → metcd.peer ≡ map (λ (n : Master). n.ip) nodes
  unfolding new_etcd_from_crd pure
  peers_of nodes spec home t t' metcd h =
      let (exist, t1, found, h1) = bind-Then _ _ t metcd (ap (λ r. r.0) h) in
      let (_, t2, signed, h2) = bind-Then _ _ t1 metcd h1 in cc

  probed :
      (s : CheckEtcd) (cluster : Cluster) (t : Trace) (c : Checked)
      → (probe_members env s cluster t).0 ≡ ok c
      → c.healthy ≡ false
      → Verdict c
  unfolding probe_members pure
  probed s cluster t c h sick = elim (catch-Then _ _ _ t c h) [
    | inl (metcd, t1, made, h1) ↦ elim (catch-Then _ _ _ t1 c h1) [
      | inl (mems, t2, listed, h2) ↦
          let (up, t3, asked, h3) = bind-Then _ _ t2 c h2 in
          let same = ok-inj _ c h3 in
          let false_up : up ≡ false = ap (λ (r : Checked). r.healthy) same ∙ sick in
          subst Verdict same (
            metcd,
            t1,
            inr (mems, t2, listed, all_down mems t2 (rw asked (ap ok false_up))),
            peers_of s.master cluster "/tmp" t t1 metcd made,
            refl,
          )
      | inr (e, t2, failed, h2) ↦
          subst Verdict (ok-inj _ c h2)
            (metcd, t1, inl (e, t2, failed), peers_of s.master cluster "/tmp" t t1 metcd made, refl)
    ]
    | inr (e, t1, failed, h1) ↦
        let well : true ≡ c.healthy = ap (λ (r : Checked). r.healthy) (ok-inj _ c h1) in cc
  ]

  known :
      (cluster : Cluster) (masters : List Master × Option Error) (t : Trace) (c : Checked)
      → (check_known env cluster masters t).0 ≡ ok c
      → c.healthy ≡ false
      → Verdict c
  unfolding check_known pure
  known cluster ([], failed) t c h sick =
      let well : true ≡ c.healthy = ap (λ (r : Checked). r.healthy) (ok-inj _ c h) in cc
  known cluster (m ∷ ms, failed) t c h sick = probed _ cluster t c h sick

  cached :
      (o : Option Cluster) (s : CheckEtcd) (e : Error) (t : Trace) (c : Checked)
      → (maybe o
          (pure
            (record { state = s; healthy = true; error = some (wrapped "empty cluster spec" e) }))
          (probe_members env s)
          t).0
        ≡ ok c
      → c.healthy ≡ false
      → Verdict c
  unfolding maybe pure
  cached none s e t c h sick =
      let well : true ≡ c.healthy = ap (λ (r : Checked). r.healthy) (ok-inj _ c h) in cc
  cached (some cluster) s e t c h sick = probed s cluster t c h sick

  -- When the check returns that etcd is not healthy, it returns no error, and `etcdctl` either could not
  -- read the members through the masters that the check knows by then, or found each of the members
  -- unhealthy, one after the other.
  pub check-Verdict :
      (s : CheckEtcd) (t : Trace) (c : Checked)
      → (check env s t).0 ≡ ok c
      → c.healthy ≡ false
      → Verdict c
  unfolding check check_masters
  check-Verdict s t c h sick = elim (catch-Then _ _ _ t c h) [
    | inl (cluster, t1, read, h1) ↦
        let (masters, t2, listed, h2) = bind-Then _ _ t1 c h1 in known cluster masters t2 c h2 sick
    | inr (e, t1, away, h1) ↦ cached s.cluster s e t1 c h1 sick
  ]
