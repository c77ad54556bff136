-- ===== src/Apply/Retries.antt =====
-- How often the patcher asks the API server to patch, delete and create.
use ooc.Base.{
  ℕ, zero, suc, ◌+◌, ◌*◌, ◌≤◌, String, ◌≡◌, refl, Bool, true, false, ◌&&◌, ltb, Option, none, some,
  str_eq, if◌then◌else◌, arith,
}
use ooc.Cloud.{Error}
use ooc.Cloud.Exec.{
  Call, Env, Trace, Reply, answer, failure, refused, Exec, pure, ask, perform, pause, sleep,
  get_resource, delete_resource, create_resource, patch_resource,
}
use ooc.Cloud.Exec.Costs.{
  count_calls, Costs, Costs-pure, Costs-fail, Costs-free, Costs-ask, Costs-if, Costs-le,
  Costs-catch, Costs-bind, Costs-poll, Costs-rest, Costs-first, Costs-last,
}
use ooc.Clusters.{given}
use ooc.Apply.{
  Object, Kubectl, Versioned, known, unregistered, broken, check_error, sourced, get_original,
  create_patch, send_patch, patch_simple, tried, get_object_of, again_after, create_object,
  patch_again, gone, replace_object, delete_and_create, is_forcing, is_not_found, finish_patch,
  patch_object,
}

-- what a test counts of the calls of the patcher
record Prices (p : Call → Bool) (patches deletes creates : ℕ) : Type 0 where
  on_patch :
      (namespace name body : String) (f : Trace → Reply Object)
      → Costs p patches (ask (patch_resource namespace name body) f)
  on_delete :
      (namespace name : String) (f : Trace → Reply (Unit {0}))
      → Costs p deletes (ask (delete_resource namespace name) f)
  on_create :
      (namespace name : String) (f : Trace → Reply Object)
      → Costs p creates (ask (create_resource namespace name) f)
  on_get : (namespace name : String) → p (get_resource namespace name) ≡ false
  on_sleep : (n : ℕ) → p (sleep n) ≡ false

module _ {p : Call → Bool} where
  given-Costs : {A : Type 0} (r : Reply A) → Costs p 0 (given r)
  unfolding given
  given-Costs r = record { at = λ t. omega arith }

  check-Costs : (o : Option Error) → Costs p 0 (check_error o)
  unfolding check_error
  check-Costs none = Costs-pure tt
  check-Costs (some e) = Costs-fail e

  sourced-Costs :
      {A : Type 0} (n : ℕ) (k : Kubectl) (s : String) (m : Exec A)
      → Costs p n m
      → Costs p n (sourced k s m)
  unfolding sourced
  sourced-Costs n k s m h = Costs-first n m _ pure h (λ e. Costs-fail _) (λ a. Costs-pure a)

  create_patch-Costs :
      (k : Kubectl) (v : Versioned) (original : Option String) (modified current : String)
      → Costs p 0 (create_patch k v original modified current)
  unfolding create_patch
  create_patch-Costs k unregistered original modified current =
      Costs-first 0 _ _ pure (given-Costs _)
        (λ e. Costs-if (k.is_precondition e) 0 _ _ (Costs-fail _) (Costs-fail _)) Costs-pure
  create_patch-Costs k (broken e) original modified current = Costs-fail _
  create_patch-Costs k known original modified current =
      sourced-Costs 0 k _ _ (Costs-rest 0 _ _ (check-Costs k.patch_meta) (λ _. given-Costs _))

module _ {p : Call → Bool} {patches deletes creates : ℕ} (price : Prices p patches deletes creates)
    (env : Env) (k : Kubectl) (namespace name : String) where
  simple-Costs :
      (obj : Object) (modified : String)
      → Costs p patches (patch_simple k namespace name obj modified)
  unfolding patch_simple get_original send_patch
  simple-Costs obj modified =
      Costs-rest patches _ _ (sourced-Costs 0 k _ _ (given-Costs _)) (λ current.
        Costs-rest patches _ _
          (sourced-Costs 0 k _ _
            (Costs-rest 0 _ _ (check-Costs (k.accessor obj)) (λ _. Costs-pure _)))
          (λ original.
            Costs-rest patches _ _
              (create_patch-Costs k (k.versioned obj) original modified current)
              (λ patch.
                Costs-if (str_eq patch "{}") patches _ _
                  (Costs-le 0 patches _ (Costs-pure _) (omega arith))
                  (price.on_patch namespace name patch _))))

  tried-Costs :
      (obj : Object) (modified : String)
      → Costs p patches (tried (patch_simple k namespace name obj modified))
  unfolding tried
  tried-Costs obj modified =
      Costs-first patches _ _ _ (simple-Costs obj modified) (λ e. Costs-pure _) (λ a. Costs-pure _)

  get-Costs : Costs p 0 (get_object_of k namespace name)
  unfolding get_object_of
  get-Costs = Costs-free _ _ (price.on_get namespace name)

  pause-Costs : (b : Bool) → Costs p 0 (if b then pause 1 else pure tt)
  unfolding pause
  pause-Costs b =
      Costs-if b 0 _ _ (Costs-free (sleep 1) (λ _. answer tt) (price.on_sleep 1)) (Costs-pure tt)

  -- each round of the loop sends one patch
  again-Costs :
      (modified : String) (left i : ℕ) (current : Object) (r : Reply Object)
      → Costs p (left * patches) (patch_again env k namespace name modified left i current r)
  unfolding patch_again
  again-Costs modified zero i current r = Costs-le 0 _ _ (Costs-pure _) (omega arith)
  again-Costs modified (suc left) i current r =
      Costs-if (again_after r) (suc left * patches) _ _
        (Costs-le (patches + left * patches) _ _
          (Costs-rest _ _ _ (Costs-rest 0 _ _ (pause-Costs (ltb 1 i)) (λ _. get-Costs)) (λ fresh.
            Costs-bind patches (left * patches) _ _ (tried-Costs fresh modified)
              (λ r'. again-Costs modified left (i + 1) fresh r')))
          (grind arith))
        (Costs-le 0 _ _ (Costs-pure _) (omega arith))

  gone-Costs : Costs p 0 (gone env k namespace name)
  unfolding gone
  gone-Costs =
      Costs-first 0 _ _ _ get-Costs
        (λ e. Costs-if (is_not_found e) 0 _ _ (Costs-pure _) (Costs-fail _)) (λ o. Costs-pure _)

  replace-Costs :
      (original obj : Object)
      → Costs p (creates + creates) (replace_object env k namespace name original obj)
  unfolding replace_object create_object
  replace-Costs original obj =
      Costs-catch creates creates _ _ pure (price.on_create namespace obj.name _)
        (λ e.
          Costs-first creates _ _ _ (price.on_create namespace original.name _) (λ e'. Costs-fail _)
            (λ o. Costs-fail _))
        (λ o. Costs-le 0 creates _ (Costs-pure o) (omega arith))

  replaced-Costs :
      (original : Object) (modified : String)
      → Costs p
          (deletes + (creates + creates))
          (delete_and_create env k namespace name original modified)
  unfolding delete_and_create perform
  replaced-Costs original modified =
      Costs-bind deletes (creates + creates) _ _
        (Costs-last deletes _ _
          (Costs-last deletes _ _
            (price.on_delete namespace name
              (λ t. refused (env.refusal t (delete_resource namespace name))))
            (λ _. Costs-poll _ 1 (env.attempts 1 30) gone-Costs (price.on_sleep 1)))
          (λ _. given-Costs (k.decode modified)))
        (replace-Costs original)

  finish-Costs :
      (force : Bool) (modified : String) (r : Object × Reply Object)
      → Costs p (deletes + (creates + creates)) (finish_patch env k namespace name force modified r)
  unfolding finish_patch
  finish-Costs force modified (current, answer o) = Costs-le 0 _ _ (Costs-pure o) (omega arith)
  finish-Costs force modified (current, failure e) =
      Costs-if (is_forcing e && force) _ _ _ (replaced-Costs current modified)
        (Costs-le 0 _ _ (Costs-fail e) (omega arith))

  patch-Costs :
      (force : Bool) (current : Object) (modified : String)
      → Costs p
          (patches + 5 * patches + (deletes + (creates + creates)))
          (patch_object env k namespace name force current modified)
  unfolding patch_object
  patch-Costs force current modified =
      Costs-bind (patches + 5 * patches) _ _ _
        (Costs-bind patches (5 * patches) _ _ (tried-Costs current modified)
          (λ r. again-Costs modified 5 1 current r))
        (finish-Costs force modified)

abbrev pub is_patch : Call → Bool
is_patch (patch_resource namespace name body) = true
is_patch _ = false

abbrev pub is_deletion : Call → Bool
is_deletion (delete_resource namespace name) = true
is_deletion _ = false

abbrev pub is_creation : Call → Bool
is_creation (create_resource namespace name) = true
is_creation _ = false

is_patch-Prices : Prices is_patch 1 0 0
is_patch-Prices = record {
  on_patch = λ namespace name body f. Costs-ask _ f;
  on_delete = λ namespace name f. Costs-free _ f refl;
  on_create = λ namespace name f. Costs-free _ f refl;
  on_get = λ namespace name. refl;
  on_sleep = λ n. refl;
}

is_deletion-Prices : Prices is_deletion 0 1 0
is_deletion-Prices = record {
  on_patch = λ namespace name body f. Costs-free _ f refl;
  on_delete = λ namespace name f. Costs-ask _ f;
  on_create = λ namespace name f. Costs-free _ f refl;
  on_get = λ namespace name. refl;
  on_sleep = λ n. refl;
}

is_creation-Prices : Prices is_creation 0 0 1
is_creation-Prices = record {
  on_patch = λ namespace name body f. Costs-free _ f refl;
  on_delete = λ namespace name f. Costs-free _ f refl;
  on_create = λ namespace name f. Costs-ask _ f;
  on_get = λ namespace name. refl;
  on_sleep = λ n. refl;
}

-- Whatever the API server answers, patch sends it at most six patches, at most one deletion and at most
-- two creations.
pub patch_object-IsBounded :
    (env : Env) (k : Kubectl) (namespace name : String) (force : Bool) (current : Object)
    (modified : String) (t : Trace)
    → let after = (patch_object env k namespace name force current modified t).1 in
      (count_calls is_patch after ≤ 6 + count_calls is_patch t)
      × (count_calls is_deletion after ≤ 1 + count_calls is_deletion t)
      × (count_calls is_creation after ≤ 2 + count_calls is_creation t)
patch_object-IsBounded env k namespace name force current modified t = (
  (patch-Costs is_patch-Prices env k namespace name force current modified).at t,
  (patch-Costs is_deletion-Prices env k namespace name force current modified).at t,
  (patch-Costs is_creation-Prices env k namespace name force current modified).at t,
)
