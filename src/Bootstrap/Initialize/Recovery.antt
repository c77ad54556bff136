-- ===== src/Bootstrap/Initialize/Recovery.antt =====
-- The infrastructure of a cluster that is recovered from a backup.
use ooc.Base.{String, ◌≡◌, refl, Bool, true, false, Option, some, [], if◌then◌else◌, ap, subst}
use ooc.Cloud.{ClusterId, ClusterSpec, Master}
use ooc.Cloud.Exec.{Env, Trace, Outcome, ok, pure, deref, ◌>>=◌}
use ooc.Cloud.Exec.Success.{ok-inj, bind-Then, wrap-ok}
use ooc.Clusters.{Desk, get_cluster_id}
use ooc.Bootstrap.{BootCluster, NodeObject, Site}
use ooc.Bootstrap.Initialize.{override_infra, adopt, node_of, add_extra_sans, init_from_recover}

-- The endpoint, the id, the provider, the region and the stack of a cluster.
abbrev pub SameInfra : ClusterSpec → ClusterSpec → Type 0
SameInfra own spec =
    (spec.intranet ≡ own.intranet)
    × (spec.internet ≡ own.internet)
    × (spec.cluster_id ≡ own.cluster_id)
    × (spec.provider ≡ own.provider)
    × (spec.region ≡ own.region)
    × (spec.resource_id ≡ own.resource_id)

abbrev pub HasInfra : ClusterSpec → NodeObject → Type 0
HasInfra own n = (boot : BootCluster) × (n.boot ≡ some boot) × SameInfra own boot.spec

override-SameInfra : (own from : ClusterSpec) → SameInfra own (override_infra own from)
unfolding override_infra
override-SameInfra own from = (refl, refl, refl, refl, refl, refl)

node-HasInfra :
    (m : Master) (own spec : ClusterSpec)
    → SameInfra own spec
    → HasInfra own (node_of m (record { spec = spec; peers = [] }))
unfolding node_of add_extra_sans
node-HasInfra m own spec h = (_, refl, h)

adopt-SameInfra :
    (env : Env) (desk : Desk) (source : String) (mid adopted : ClusterId) (from : ClusterSpec)
    (t : Trace)
    → (adopt env desk source mid from t).0 ≡ ok adopted
    → SameInfra mid.spec adopted.spec
unfolding adopt pure
adopt-SameInfra env desk source mid adopted from t h =
    let (u, t1, e1, h1) = bind-Then _ _ t adopted h in
    subst (λ (c : ClusterId). SameInfra mid.spec c.spec) (ok-inj _ adopted h1)
      (override-SameInfra mid.spec from)

adopted-SameInfra :
    (env : Env) (desk : Desk) (source : String) (mid adopted : ClusterId) (spec : Option _)
    (t : Trace) (same : Bool)
    → ((if same
          then pure mid
          else (deref spec >>= λ c. adopt env desk source mid (desk.cluster_spec c)))
        t).0
      ≡ ok adopted
    → SameInfra mid.spec adopted.spec
unfolding pure
adopted-SameInfra env desk source mid adopted spec t true h =
    subst (λ (c : ClusterId). SameInfra mid.spec c.spec) (ok-inj mid adopted h)
      (refl, refl, refl, refl, refl, refl)
adopted-SameInfra env desk source mid adopted spec t false h =
    let (c, t1, e1, h1) = bind-Then _ _ t adopted h in
    adopt-SameInfra env desk source mid adopted (desk.cluster_spec c) t1 h1

-- When InitFromRecover returns a node, it has read the cluster that is recovered, and the node's boot
-- configuration has the endpoint, the id, the provider, the region and the stack of that cluster,
-- whatever the backup says, be it one of the same or of another cluster.
pub init_from_recover-HasInfra :
    (env : Env) (desk : Desk) (site : Site) (t : Trace) (n : NodeObject)
    → (init_from_recover env desk site t).0 ≡ ok n
    → (mid : ClusterId) × (before : Trace) × (after : Trace) × (get_cluster_id env desk
          site.flags.cluster_name before
        ≡ (ok mid, after))
      × HasInfra mid.spec n
unfolding init_from_recover pure
init_from_recover-HasInfra env desk site t n h =
    let (m, t1, e1, h1) = bind-Then _ _ t n h in
    let (region, t2, e2, h2) = bind-Then _ _ t1 n h1 in
    let (u, t3, e3, h3) = bind-Then _ _ t2 n h2 in
    let (mid, t4, e4, h4) = bind-Then _ _ t3 n h3 in
    let (backup, t5, e5, h5) = bind-Then _ _ t4 n h4 in
    let (adopted, t6, e6, h6) = bind-Then _ _ t5 n h5 in
    let (loaded, t7, e7, h7) = bind-Then _ _ t6 n h6 in
    let kept =
      adopted-SameInfra env desk site.flags.recover_from mid adopted _ t5 _
        (ap (λ (r : Outcome _ × Trace). r.0) e6) in
    (
      mid,
      t3,
      t4,
      wrap-ok _ (get_cluster_id env desk site.flags.cluster_name) t3 t4 mid e4,
      subst (HasInfra mid.spec) (ok-inj _ n h7) (node-HasInfra m mid.spec adopted.spec kept),
    )
