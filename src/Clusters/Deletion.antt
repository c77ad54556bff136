-- ===== src/Clusters/Deletion.antt =====
-- Delete (pkg/iaas/iaas.go) forgets a cluster only once its stack is gone; Scale panics.
use ooc.Base.{
  ℤ, String, ◌≡◌, refl, true, false, Option, none, some, List, [], ◌∷◌, str_eq, ◌⊎◌, inl, inr,
  contains, Bool-cases, some_inj,
}
use ooc.Cloud.{ClusterId, ClusterSpec, NodePool, Error}
use ooc.Cloud.Sdk.{delete_stack, delete_group}
use ooc.Cloud.Exec.{
  Env, Trace, ok, panic, Reply, answer, failure, Exec, pure, fail, crash, deref, catch, ◌>>=◌, wrap,
  message, perform, sdk, delete_object,
}
use ooc.Cloud.Exec.Hoare.{
  refused-failure, refused-answer, Hoare, Hoare-maybe, Hoare-ask_catch, Hoare-ends, Hoare-bind,
  Hoare-if, Hoare-fail, Hoare-pure, Hoare-ask, Hoare-wrap, Hoare-catch,
}
use ooc.Help.{lookup}
use ooc.Clusters.{Desk, get_cluster_id, remove_cluster, list_node_pools, parse_all, given}
use ooc.Clusters.Operations.{
  delete_known, delete_pools, delete_cluster, scale_cluster, in_fresh_context, new_context,
}
use ooc.Alibaba.{Sdk, issue, stack_value}
use ooc.Alibaba.Groups.{delete_node_group, delete_bound}
use ooc.Alibaba.Scaling.{scale_master_group}
use ooc.Alibaba.Stacks.{delete}
use ooc.Alibaba.Waits.{issue-Hoare}

-- the answer to a request to delete a stack: done, or there is no such stack
abbrev pub IsDone : Option Error → Type 0
IsDone none = Unit
IsDone (some e) = contains (message e) "NotFound" ≡ true

-- A request to delete the stack has been answered so.
abbrev pub IsGone : Sdk → String → Trace → Type 0
IsGone api rid [] = ⊥
IsGone api rid (sdk (delete_stack r) ∷ t) =
    ((r ≡ rid) × IsDone (api.refusal t (delete_stack r))) ⊎ IsGone api rid t
IsGone api rid (c ∷ t) = IsGone api rid t

-- Nothing is deleted from the object storage before the stack is gone.
abbrev pub IsTidy : Sdk → String → Trace → Type 0
IsTidy api rid [] = Unit
IsTidy api rid (delete_object path ∷ t) = IsGone api rid t × IsTidy api rid t
IsTidy api rid (c ∷ t) = IsTidy api rid t

module _ (env : Env) (desk : Desk) (api : Sdk) (id : ClusterId) where
  Tidy : Trace → Type 0
  Tidy = IsTidy api id.resource_id

  Keeps : {A : Type 0} → Exec A → Type 0
  Keeps m = Hoare Tidy Tidy m (λ _. Tidy)

  read-Keeps : {A : Type 0} (r : Reply A) → Keeps (given r)
  unfolding given Keeps
  read-Keeps (answer a) = record { at = λ t i. i }
  read-Keeps (failure e) = record { at = λ t i. i }

  parse_all-Keeps :
      {A : Type 0} (parse : String → Reply A) (note : String) (texts : List String)
      → Keeps (parse_all parse note texts)
  unfolding parse_all Keeps
  parse_all-Keeps parse note [] = Hoare-pure [] (λ t i. i)
  parse_all-Keeps parse note (s ∷ rest) =
      Hoare-bind _ _ (Hoare-wrap _ _ (read-Keeps (parse s))) (λ a.
        Hoare-bind _ _ (parse_all-Keeps parse note rest)
          (λ others. Hoare-pure (a ∷ others) (λ t i. i)))

  pools-Keeps : (name : String) → Keeps (list_node_pools env desk name)
  unfolding list_node_pools Keeps Tidy
  pools-Keeps name =
      Hoare-if (str_eq env.bucket_name "") _ _ (λ _. Hoare-fail _ (λ t i. i))
        (λ _.
          Hoare-bind {R = λ _. Tidy} _ _ (Hoare-wrap _ _ (Hoare-ask _ _ (λ t i. i) (λ t a i e. i)))
            (parse_all-Keeps desk.parse_pool "unmarshal NodePoolIndex"))

  group-Keeps : (np : NodePool) → Keeps (delete_node_group api np)
  unfolding delete_node_group delete_bound Keeps Tidy
  group-Keeps np = Hoare-maybe np.bind _ _ (Hoare-pure tt (λ t i. i)) (λ bind bound.
      let gid = bind.scaling_group_id in
      Hoare-if (str_eq gid "") _ _ (λ _. Hoare-pure tt (λ t i. i))
        (λ _.
          Hoare-catch {R = λ _. Tidy} _ _ pure
            (issue-Hoare api (delete_group gid) (λ t i. i) (λ t i. i))
            (λ e.
              Hoare-if (contains (message e) "not found") _ _ (λ _. Hoare-fail _ (λ t i. i))
                (λ _. Hoare-pure tt (λ t i. i)))
            (λ a. Hoare-pure a (λ t i. i))))

  delete_pools-Keeps : (pools : List NodePool) → Keeps (delete_pools api pools)
  unfolding delete_pools Keeps
  delete_pools-Keeps [] = Hoare-pure tt (λ t i. i)
  delete_pools-Keeps (np ∷ pools) =
      Hoare-bind _ _ (Hoare-wrap _ _ (group-Keeps np)) (λ _. delete_pools-Keeps pools)

  Gone : Trace → Type 0
  Gone t = Tidy t × IsGone api id.resource_id t

  IsDone-none : (o : Option Error) → o ≡ none → IsDone o
  IsDone-none none h = tt
  IsDone-none (some e) h = cc

  IsDone-some :
      (o : Option Error) (e : Error)
      → o ≡ some e
      → contains (message e) "NotFound" ≡ true
      → IsDone o
  IsDone-some none e h k = tt
  IsDone-some (some x) e h k = rw (some_inj x e h) k

  delete-Gone : Hoare Tidy Tidy (delete api id) (λ _. Gone)
  unfolding delete issue pure fail Tidy Gone
  delete-Gone =
      Hoare-if (str_eq id.resource_id "") _ _ (λ _. Hoare-fail _ (λ t i. i))
        (λ _.
          Hoare-ask_catch Tidy (λ _. Gone) _ _ _ pure
            (λ t e i h. elim (Bool-cases (contains (message e) "NotFound")) [
              | inl k ↦ rw k (i, inl (refl, IsDone-some _ e (refused-failure _ e h) k))
              | inr k ↦ rw k i
            ])
            (λ t a i h. (i, inl (refl, IsDone-none _ (refused-answer _ a h)))))

  remove-Tidy : (name : String) → Hoare Tidy Gone (remove_cluster env name) (λ _. Tidy)
  unfolding remove_cluster perform Tidy Gone
  remove-Tidy name =
      Hoare-if (str_eq env.bucket_name "") _ _ (λ _. Hoare-fail _ (λ t g. g.0))
        (λ _. Hoare-ask _ _ (λ t g. (g.1, g.0)) (λ t a g e. (g.1, g.0)))

  known-Keeps : (name : String) → Keeps (delete_known env desk api false name id)
  unfolding delete_known Keeps
  known-Keeps name = Hoare-bind _ _ (Hoare-wrap _ _ (pools-Keeps name)) (λ pools.
      Hoare-bind _ _ (delete_pools-Keeps pools) (λ _.
        Hoare-bind {R = λ _. Gone} _ _
          (Hoare-catch _ _ pure delete-Gone (λ e. Hoare-wrap _ _ (Hoare-fail e (λ t i. i)))
            (λ a. Hoare-pure a (λ t g. g)))
          (λ _. remove-Tidy name)))

  pub known-IsTidy :
      (name : String) (t : Trace)
      → IsTidy api id.resource_id t
      → IsTidy api id.resource_id (delete_known env desk api false name id t).1
  unfolding Keeps Tidy
  known-IsTidy name t i = Hoare-ends Tidy _ (known-Keeps name) t i

-- Delete without the flag ForceDelete, on a cluster that the object storage knows, deletes from the
-- object storage only after the cloud has deleted the stack of the cluster or has said that there is
-- none: whatever fails before, the cluster is not forgotten.
pub delete_cluster-IsTidy :
    (env : Env) (desk : Desk) (api : Sdk) (name : String) (id : ClusterId)
    (context : Option ClusterSpec) (t t' : Trace)
    → desk.new_context t ≡ answer context
    → str_eq name "" ≡ false
    → get_cluster_id env desk name t ≡ (ok id, t')
    → IsTidy api id.resource_id t'
    → IsTidy api id.resource_id (delete_cluster env desk api false name t).1
unfolding delete_cluster new_context in_fresh_context wrap catch ◌>>=◌ pure
delete_cluster-IsTidy env desk api name id context t t' fresh named known i =
    rw (named, fresh, known) (known-IsTidy env desk (in_fresh_context api) id name t' i)

-- Scale panics on every cluster that the object storage knows, whatever the count: it makes a new
-- context and never loads the stack of the cluster into it, in which ScaleMasterGroup looks for the
-- scaling group of the masters.
pub scale_cluster-panics :
    (env : Env) (desk : Desk) (api : Sdk) (name : String) (count : ℤ) (id : ClusterId)
    (context : Option ClusterSpec) (t t' : Trace)
    → desk.new_context t ≡ answer context
    → get_cluster_id env desk name t ≡ (ok id, t')
    → scale_cluster env desk api name count t ≡ (panic, t')
unfolding scale_cluster new_context in_fresh_context scale_master_group stack_value lookup deref
    wrap catch ◌>>=◌ pure crash
scale_cluster-panics env desk api name count id context t t' fresh known = rw (fresh, known) refl
