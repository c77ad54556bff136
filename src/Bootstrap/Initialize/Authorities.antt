-- ===== src/Bootstrap/Initialize/Authorities.antt =====
-- The certificate authorities of a cluster that is initialised again from its configuration.
use ooc.Base.{
  String, ◌≡◌, refl, Bool, true, false, Option, none, some, [], ◌∷◌, ◌⊎◌, inl, inr, str_eq, concat,
  if◌then◌else◌, ap, sym, subst,
}
use ooc.Cloud.{Master, ClusterSpec, text}
use ooc.Cloud.Exec.{
  Env, Trace, Call, Reply, answer, failure, Outcome, ok, err, outcome, Exec, pure, fail, ask, maybe,
  wrap, ◌>>=◌, file_exist,
}
use ooc.Cloud.Exec.Success.{ok-inj, bind-Then, wrap-ok}
use ooc.Bootstrap.{BootCluster, NodeObject, Site}
use ooc.Bootstrap.Initialize.{
  keep_previous, keep_cas, or_fresh, set_default_credential, read_spec, previous_cas, node_of,
  add_extra_sans, identify, init_from_cfg,
}

-- A certificate is the configured one, or else the one of the generated file, if either is there.
abbrev pub IsKept : Option String → Option String → Option String → Type 0
IsKept (some own) prev r = r ≡ some own
IsKept none (some old) r = r ≡ some old
IsKept none none r = Unit {0}

abbrev pub KeepsCas : ClusterSpec → ClusterSpec → ClusterSpec → Type 0
KeepsCas own prev spec =
    IsKept own.root_ca prev.root_ca spec.root_ca
    × IsKept own.front_proxy_ca prev.front_proxy_ca spec.front_proxy_ca
    × IsKept own.svc_account_ca prev.svc_account_ca spec.svc_account_ca
    × IsKept own.server_ca prev.server_ca spec.server_ca
    × IsKept own.peer_ca prev.peer_ca spec.peer_ca
    × IsKept own.control_root prev.control_root spec.control_root

keep-IsKept : (own prev : Option String) → IsKept own prev (keep_previous own prev)
unfolding keep_previous
keep-IsKept (some own) prev = refl
keep-IsKept none (some old) = refl
keep-IsKept none none = tt

ok-pair :
    {A : Type 0} (a b : A) (t t' : Trace) → Path (Outcome A × Trace) (ok a, t) (ok b, t') → a ≡ b
ok-pair a b t t' h = ok-inj a b (ap (λ (r : Outcome _ × Trace). r.0) h)

fresh-IsKept :
    (site : Site) (purpose c : String) (own prev : Option String) (t t' : Trace)
    → or_fresh site purpose (keep_previous own prev) t ≡ (ok c, t')
    → IsKept own prev (some c)
unfolding or_fresh keep_previous maybe pure
fresh-IsKept site purpose c (some own) prev t t' h = ap some (sym (ok-pair own c t t' h))
fresh-IsKept site purpose c none (some old) t t' h = ap some (sym (ok-pair old c t t' h))
fresh-IsKept site purpose c none none t t' h = tt

credential-KeepsCas :
    (site : Site) (own prev spec : ClusterSpec) (t : Trace)
    → (set_default_credential site (keep_cas prev own) t).0 ≡ ok spec
    → KeepsCas own prev spec
unfolding set_default_credential keep_cas pure
credential-KeepsCas site own prev spec t h =
    let (root, t1, e1, h1) = bind-Then _ _ t spec h in
    let (front, t2, e2, h2) = bind-Then _ _ t1 spec h1 in
    let (sa, t3, e3, h3) = bind-Then _ _ t2 spec h2 in
    let (token, t4, e4, h4) = bind-Then _ _ t3 spec h3 in
    let (server, t5, e5, h5) = bind-Then _ _ t4 spec h4 in
    let (peer, t6, e6, h6) = bind-Then _ _ t5 spec h5 in
    subst (KeepsCas own prev) (ok-inj _ spec h6) (
      fresh-IsKept site _ root own.root_ca prev.root_ca t t1 e1,
      fresh-IsKept site _ front own.front_proxy_ca prev.front_proxy_ca t1 t2 e2,
      fresh-IsKept site _ sa own.svc_account_ca prev.svc_account_ca t2 t3 e3,
      fresh-IsKept site _ server own.server_ca prev.server_ca t4 t5 e5,
      fresh-IsKept site _ peer own.peer_ca prev.peer_ca t5 t6 e6,
      keep-IsKept own.control_root prev.control_root,
    )

answered :
    {A : Type 0} (c : Call) (r : Reply A) (t t' : Trace) (a : A)
    → Path (Outcome A × Trace) (outcome r, c ∷ t) (ok a, t')
    → (r ≡ answer a) × (c ∷ t ≡ t')
answered c (answer b) t t' a h =
    let same = ok-inj b a (ap (λ (r : Outcome _ × Trace). r.0) h) in
    (ap answer same, ap (λ (r : Outcome _ × Trace). r.1) h)
answered c (failure e) t t' a h =
    let e' : err e ≡ ok a = ap (λ (r : Outcome _ × Trace). r.0) h in cc

asked :
    {A : Type 0} (c : Call) (replies : Trace → Reply A) (note : String) (t t' : Trace) (a : A)
    → wrap note (ask c replies) t ≡ (ok a, t')
    → (replies t ≡ answer a) × (c ∷ t ≡ t')
unfolding ask
asked c replies note t t' a h =
    answered c (replies t) t t' a (wrap-ok note (ask c replies) t t' a h)

abbrev gen_of : Site → String
gen_of site = concat (site.flags.config ∷ ".gen" ∷ [])

-- the end of InitFromCfg
abbrev finish : Site → ClusterSpec → Exec NodeObject
finish site kept = do
  m ← identify site "meta data error node id" "meta data error node ip"
  spec ← set_default_credential site kept
  pure (node_of m (record { spec = spec; peers = [] }))

abbrev pub HasCas : ClusterSpec → ClusterSpec → NodeObject → Type 0
HasCas own prev n = (boot : BootCluster) × (n.boot ≡ some boot) × KeepsCas own prev boot.spec

node-HasCas :
    (own prev spec : ClusterSpec) (m : Master)
    → KeepsCas own prev spec
    → HasCas own prev (node_of m (record { spec = spec; peers = [] }))
unfolding node_of add_extra_sans
node-HasCas own prev spec m h = (_, refl, h)

finish-HasCas :
    (site : Site) (own prev : ClusterSpec) (t : Trace) (n : NodeObject)
    → (finish site (keep_cas prev own) t).0 ≡ ok n
    → HasCas own prev n
unfolding pure
finish-HasCas site own prev t n h =
    let (m, t1, e1, h1) = bind-Then _ _ t n h in
    let (spec, t2, e2, h2) = bind-Then _ _ t1 n h1 in
    let kept = credential-KeepsCas site own prev spec t1 (ap (λ (r : Outcome _ × Trace). r.0) e2) in
    subst (HasCas own prev) (ok-inj _ n h2) (node-HasCas own prev spec m kept)

-- There is no generated file, or it is read and its certificates are kept.
abbrev pub Reinitialises : Env → Site → ClusterSpec → Trace → NodeObject → Type 0
Reinitialises env site own t n =
    (env.has_file t (gen_of site) ≡ answer false)
    ⊎ ((prev : ClusterSpec) × (t' : Trace) × (read_spec site (gen_of site)
            (file_exist (gen_of site) ∷ t)
          ≡ (ok prev, t'))
        × HasCas own prev n)

with_previous :
    (env : Env) (site : Site) (own : ClusterSpec) (t : Trace) (n : NodeObject) (exist : Bool)
    → env.has_file t (gen_of site) ≡ answer exist
    → ((previous_cas site (gen_of site) own exist >>= finish site) (file_exist (gen_of site) ∷ t)).0
      ≡ ok n
    → Reinitialises env site own t n
unfolding previous_cas pure
with_previous env site own t n false e h = inl e
with_previous env site own t n true e h =
    let (kept, t1, e1, h1) = bind-Then _ _ _ n h in
    let (prev, t2, e2, h2) = bind-Then _ _ _ kept (ap (λ (r : Outcome _ × Trace). r.0) e1) in
    let same : keep_cas prev own ≡ kept = ok-inj _ kept h2 in
    inr (
      prev,
      t2,
      e2,
      finish-HasCas site own prev t1 n (subst (λ k. (finish site k t1).0 ≡ ok n) (sym same) h1),
    )

from_file :
    (env : Env) (site : Site) (t : Trace) (n : NodeObject) (b : Bool)
    → ((if b then fail (text "empty cluster config, --config") else do
      cluster ← read_spec site site.flags.config
      exist ←
          wrap
            (concat ("read file stat: " ∷ gen_of site ∷ []))
            (ask (file_exist (gen_of site)) (λ t. env.has_file t (gen_of site)))
      kept ← previous_cas site (gen_of site) cluster exist
      finish site kept)
        t).0
      ≡ ok n
    → (own : ClusterSpec) × (t' : Trace) × (read_spec site site.flags.config t ≡ (ok own, t'))
      × Reinitialises env site own t' n
unfolding fail
from_file env site t n true h = cc
from_file env site t n false h =
    let (own, t1, e1, h1) = bind-Then _ _ t n h in
    let (exist, t2, e2, h2) = bind-Then _ _ t1 n h1 in
    let (there, now) = asked _ _ _ t1 t2 exist e2 in
    (
      own,
      t1,
      e1,
      with_previous env site own t1 n exist there (
          subst (λ t'. ((previous_cas site (gen_of site) own exist >>= finish site) t').0 ≡ ok n)
            (sym now) h2),
    )

-- When InitFromCfg returns a node, it has read the configuration, and either there is no generated file
-- beside it, or that file is read too and the node's boot configuration has each of the six
-- certificates of the configuration, and where that has none, the one of the generated file.
pub init_from_cfg-Reinitialises :
    (env : Env) (site : Site) (t : Trace) (n : NodeObject)
    → (init_from_cfg env site t).0 ≡ ok n
    → (own : ClusterSpec) × (t' : Trace) × (read_spec site site.flags.config t ≡ (ok own, t'))
      × Reinitialises env site own t' n
unfolding init_from_cfg
init_from_cfg-Reinitialises env site t n h = from_file env site t n (str_eq site.flags.config "") h
