-- ===== src/Apply/Addons.antt =====
-- The addon controller (pkg/operator/controllers/addon/addon_controller.go): the addons of a new
-- cluster are applied once.
use ooc.Base.{
  String, ◌≡◌, refl, Bool, true, false, List, [], ◌∷◌, str_eq, if◌then◌else◌, ap, sym, subst, ◌∙◌,
}
use ooc.Cloud.{Error, ClusterSpec, text}
use ooc.Cloud.Exec.{
  Env, Trace, Outcome, ok, Reply, Exec, pure, fail, ask, perform, catch, ◌>>=◌, ◌>>◌, wrap,
  get_resource, patch_resource,
}
use ooc.Cloud.Exec.Success.{bind-Then}
use ooc.Clusters.{given}
use ooc.Actions.{Machine}
use ooc.Actions.Post.{Shelf, default_addons}
use ooc.Apply.{Kubectl, is_not_found, do_apply}

-- v1.Cluster with the part of its Spec that the controller sets
pub record AddonCluster : Type 0 where
  pub name : String
  pub spec : ClusterSpec
  pub addon_initialized : Bool

-- What the API server holds, and the merge patch between two clusters.
pub record AddonApi : Type 0 where
  pub cluster : Trace → String → Reply AddonCluster
  pub merge_patch : AddonCluster → AddonCluster → Reply String

module _ (env : Env) (k : Kubectl) where
  -- the loop of Reconcile
  unfoldable pub apply_each : List (String × String) → Exec (Unit {0})
  apply_each [] = pure tt
  apply_each ((name, yml) ∷ rest) = do_apply env k yml >> apply_each rest

  -- The manifests have all been applied, one after the other.
  abbrev pub Applied : List (String × String) → Trace → Trace → Type 0
  Applied [] t t' = t ≡ t'
  Applied ((name, yml) ∷ rest) t t' =
      (u : Trace) × (do_apply env k yml t ≡ (ok tt, u)) × Applied rest u t'

module _ (env : Env) (api : AddonApi) where
  unfoldable pub get_addon_cluster : String → Exec AddonCluster
  get_addon_cluster name = ask (get_resource "" name) (λ t. api.cluster t name)

  -- patchAddonPhase
  unfoldable pub patch_addon_phase : AddonCluster → Exec (Unit {0})
  unfolding get_addon_cluster given
  patch_addon_phase cluster = do
    old ← wrap "load bootcfg from apiserver" (get_addon_cluster cluster.name)
    patch ←
        wrap "create merge patch"
          (given (api.merge_patch old (record old { addon_initialized = true })))
    perform env (patch_resource "" old.name patch)

module _ (env : Env) (m : Machine) (shelf : Shelf) (k : Kubectl) (api : AddonApi) where
  unfoldable pub apply_rendered : AddonCluster → List (String × String) → Exec (Unit {0})
  unfolding apply_each patch_addon_phase
  apply_rendered cluster rendered =
      (λ t. apply_each env k (m.map_order t rendered) t) >>= λ _. patch_addon_phase env api cluster

  unfoldable pub reconcile_cluster : AddonCluster → Exec (Unit {0})
  unfolding default_addons apply_rendered
  reconcile_cluster cluster =
      if cluster.addon_initialized
      then pure tt
      else if str_eq cluster.spec.intranet ""
      then fail (text "cluster intranet slb endpoint is not initialized, wait next retry")
      else (default_addons m shelf cluster.spec [] >>= apply_rendered cluster)

  -- Reconcile
  unfoldable pub reconcile_addons : String → Exec (Unit {0})
  unfolding get_addon_cluster is_not_found reconcile_cluster
  reconcile_addons name =
      catch (get_addon_cluster env api name) (λ e. if is_not_found e then pure tt else fail e)
        reconcile_cluster

after_ok :
    {A B : Type 0} (m : Exec A) (g : A → Exec B) (t u : Trace) (a : A)
    → m t ≡ (ok a, u)
    → (m >>= g) t ≡ g a u
unfolding ◌>>=◌ catch
after_ok m g t u a h = rw h refl

apply_each-Applied :
    (env : Env) (k : Kubectl) (entries : List (String × String)) (t : Trace)
    → (apply_each env k entries t).0 ≡ ok tt
    → Applied env k entries t (apply_each env k entries t).1
unfolding apply_each pure
apply_each-Applied env k [] t h = refl
apply_each-Applied env k ((name, yml) ∷ rest) t h =
    let (a, u, e, h') = bind-Then (do_apply env k yml) (λ _. apply_each env k rest) t tt h in
    let same = after_ok (do_apply env k yml) (λ _. apply_each env k rest) t u tt e in
    (u, e, rw same (apply_each-Applied env k rest u h'))

gated :
    (marked empty : Bool) (e : Error) (go : Exec (Unit {0})) (t : Trace)
    → marked ≡ false
    → ((if marked then pure tt else if empty then fail e else go) t).0 ≡ ok tt
    → (if marked then pure tt else if empty then fail e else go) t ≡ go t
unfolding fail
gated true empty e go t h k = absurd (cc)
gated false true e go t h k = absurd (cc)
gated false false e go t h k = refl

-- If Reconcile of the addons returns no error on a cluster that is not marked, then the addons of the
-- default set have been rendered and all applied without an error, one after the other in the
-- order of the range, and the step that marks the cluster has run after them.
pub reconcile_cluster-Applied :
    (env : Env) (m : Machine) (shelf : Shelf) (k : Kubectl) (api : AddonApi)
    (cluster : AddonCluster) (t : Trace)
    → cluster.addon_initialized ≡ false
    → (reconcile_cluster env m shelf k api cluster t).0 ≡ ok tt
    → (rendered : List (String × String)) × (u : Trace) × (v : Trace) × (default_addons m shelf
          cluster.spec [] t
        ≡ (ok rendered, u))
      × Applied env k (m.map_order u rendered) u v
      × (reconcile_cluster env m shelf k api cluster t ≡ patch_addon_phase env api cluster v)
unfolding reconcile_cluster apply_rendered
reconcile_cluster-Applied env m shelf k api cluster t unmarked done =
    let install = apply_rendered env m shelf k api cluster in
    let same =
      gated cluster.addon_initialized (str_eq cluster.spec.intranet "") _ _ t unmarked done in
    let (rendered, u, e, h) =
      bind-Then (default_addons m shelf cluster.spec []) install t tt
        (ap (λ (r : Outcome (Unit {0}) × Trace). r.0) (sym same) ∙ done) in
    let each = λ (t' : Trace). apply_each env k (m.map_order t' rendered) t' in
    let (a, v, e', h') = bind-Then each (λ _. patch_addon_phase env api cluster) u tt h in
    (
      rendered,
      u,
      v,
      e,
      subst (Applied env k (m.map_order u rendered) u)
          (ap (λ (r : Outcome (Unit {0}) × Trace). r.1) e')
          (apply_each-Applied env k (m.map_order u rendered) u
            (ap (λ (r : Outcome (Unit {0}) × Trace). r.0) e')),
      same
          ∙ after_ok (default_addons m shelf cluster.spec []) install t u rendered e
          ∙ after_ok each (λ _. patch_addon_phase env api cluster) u v tt e',
    )
