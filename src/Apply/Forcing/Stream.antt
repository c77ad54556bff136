-- ===== src/Apply/Forcing/Stream.antt =====
-- The deletions of doApply.
use ooc.Base.{
  ℕ, zero, suc, String, ◌≡◌, ◌⊎◌, inl, inr, Bool, true, false, ◌&&◌, not, Option, List, [], ◌∷◌,
}
use ooc.Cloud.{Error, text, not_found, retry, conflict, invalid}
use ooc.Cloud.Exec.{
  Env, Trace, Reply, answer, failure, Exec, pure, perform, pause, wrap, refused, delete_resource,
  create_resource,
}
use ooc.Cloud.Exec.Polling.{poll_immediate}
use ooc.Cloud.Exec.Triple.{
  Triple, Triple-pure, Triple-fail, Triple-ask, Triple-if, Triple-pre, Triple-catch, Triple-bind,
  Triple-maybe, Triple-ends,
}
use ooc.Clusters.{given}
use ooc.Apply.{
  Object, Kubectl, patch_simple, tried, get_object_of, create_object, is_forcing, is_not_found,
  gone, replace_object, delete_and_create, finish_patch, patch_object, refresh, create_and_refresh,
  apply_found, create_missing_object, apply_one, visit_item, visit_all, report_errors, do_apply,
  max_patch_retry,
}
use ooc.Apply.Forcing.{
  has_status, HasPlainErrors, IsRefused, IsForced, Keeps, given-Keeps, sourced-Keeps, check-Keeps,
  get_modified-Keeps, get-Keeps, pause-Keeps,
}
use ooc.Apply.Forcing.Patching.{tried-Ready, again-Ready, Tells}

module _ (k : Kubectl) (plain : HasPlainErrors k) (env : Env) where
  gone-Keeps : (namespace name : String) → Keeps k (gone env k namespace name)
  unfolding gone
  gone-Keeps namespace name =
      Triple-catch (get_object_of k namespace name) _ _ (get-Keeps k namespace name)
        (λ e.
          Triple-if (is_not_found e) _ _ (λ _. Triple-pure _ (λ t h. h))
            (λ _. Triple-fail _ (λ t h. h)))
        (λ o. Triple-pure _ (λ t h. h))

  poll-Keeps :
      {A : Type 0} (round : Exec (Option A)) (interval tries : ℕ)
      → Keeps k round
      → Keeps k (poll_immediate round interval tries)
  unfolding poll_immediate
  poll-Keeps round interval zero h = Triple-fail _ (λ t p. p)
  poll-Keeps round interval (suc tries) h = Triple-bind round _ h (λ seen.
      Triple-maybe seen _ _
        (Triple-bind (pause interval) _ (pause-Keeps k interval)
          (λ _. poll-Keeps round interval tries h))
        (λ a. Triple-pure a (λ t p. p)))

  create-Keeps : (namespace : String) (obj : Object) → Keeps k (create_object k namespace obj)
  unfolding create_object
  create-Keeps namespace obj =
      Triple-ask (create_resource namespace obj.name) (λ t. k.created t obj) (λ t a h _. (tt, h))
        (λ t e h _. (tt, h))

  replace-Keeps :
      (namespace name : String) (original obj : Object)
      → Keeps k (replace_object env k namespace name original obj)
  unfolding replace_object
  replace-Keeps namespace name original obj =
      Triple-catch (create_object k namespace obj) _ pure (create-Keeps namespace obj)
        (λ e.
          Triple-catch (create_object k namespace original) _ _ (create-Keeps namespace original)
            (λ e'. Triple-fail _ (λ t h. h)) (λ o. Triple-fail _ (λ t h. h)))
        (λ o. Triple-pure o (λ t h. h))

  -- Begun after a refused patch, the deletion is forced.
  replaced :
      (namespace name : String) (original : Object) (modified : String)
      → Triple
          (IsForced k)
          (λ _. IsForced k)
          (λ _. IsForced k)
          (λ t. IsRefused k namespace name t × IsForced k t)
          (delete_and_create env k namespace name original modified)
  unfolding delete_and_create perform
  replaced namespace name original modified =
      Triple-bind _ _
        (Triple-bind _ _
          (Triple-bind {R = λ _. IsForced k} _ _
            (Triple-ask (delete_resource namespace name)
              (λ t. refused (env.refusal t (delete_resource namespace name))) (λ t a h _. h)
              (λ t e h _. h))
            (λ _. poll-Keeps _ 1 (env.attempts 1 30) (gone-Keeps namespace name)))
          (λ _. given-Keeps k (k.decode modified)))
        (replace-Keeps namespace name original)

  refused_of :
      (namespace name : String) (e : Error) (force : Bool) (t : Trace)
      → (is_forcing e && force) ≡ true
      → (has_status e ≡ false) ⊎ IsRefused k namespace name t
      → IsRefused k namespace name t
  unfolding is_forcing
  refused_of namespace name (text s) force t h w = absurd (cc)
  refused_of namespace name (not_found s) force t h w = absurd (cc)
  refused_of namespace name (retry n) force t h w = absurd (cc)
  refused_of namespace name (conflict s) force t h (inl mild) = absurd (cc)
  refused_of namespace name (conflict s) force t h (inr refusal) = refusal
  refused_of namespace name (invalid s) force t h (inl mild) = absurd (cc)
  refused_of namespace name (invalid s) force t h (inr refusal) = refusal

  finish :
      (namespace name : String) (force : Bool) (modified : String) (r : Object × Reply Object)
      → Triple
          (IsForced k)
          (λ _. IsForced k)
          (λ _. IsForced k)
          (Tells k plain namespace name r.1)
          (finish_patch env k namespace name force modified r)
  unfolding finish_patch
  finish namespace name force modified (current, answer o) = Triple-pure o (λ t h. h)
  finish namespace name force modified (current, failure e) =
      Triple-if (is_forcing e && force) _ _
        (λ forcing.
          Triple-pre _ (λ t h. (refused_of namespace name e force t forcing h.0, h.1))
            (replaced namespace name current modified))
        (λ _. Triple-fail e (λ t h. h.1))

  patch-Keeps :
      (namespace name : String) (force : Bool) (current : Object) (modified : String)
      → Keeps k (patch_object env k namespace name force current modified)
  unfolding patch_object
  patch-Keeps namespace name force current modified =
      Triple-bind _ _
        (Triple-bind (tried (patch_simple k namespace name current modified)) _
          (tried-Ready k plain namespace name current modified)
          (λ r. again-Ready k plain env namespace name modified max_patch_retry 1 current r))
        (finish namespace name force modified)

  found-Keeps :
      (obj : Object) (modified : String) (current : Object)
      → Keeps k (apply_found env k obj modified current)
  unfolding apply_found refresh
  found-Keeps obj modified current =
      Triple-bind _ _
        (Triple-bind _ _ (check-Keeps k k.client)
          (λ _. sourced-Keeps k _ _ (patch-Keeps obj.namespace obj.name true current modified)))
        (λ o. check-Keeps k (k.accessor o))

  missing-Keeps : (obj : Object) (e : Error) → Keeps k (create_missing_object k obj e)
  unfolding create_missing_object create_and_refresh refresh
  missing-Keeps obj e =
      Triple-if (not (is_not_found e)) _ _ (λ _. Triple-fail _ (λ t h. h))
        (λ _.
          sourced-Keeps k _ _
            (Triple-bind _ _ (create-Keeps obj.namespace obj) (λ o. check-Keeps k (k.accessor o))))

  one-Keeps : (obj : Object) → Keeps k (apply_one env k obj)
  unfolding apply_one
  one-Keeps obj = Triple-bind _ _ (sourced-Keeps k _ _ (get_modified-Keeps k true obj)) (λ found.
      Triple-catch (get_object_of k obj.namespace obj.name) _ _ (get-Keeps k obj.namespace obj.name)
        (missing-Keeps found.1) (found-Keeps obj found.0))

  item-Keeps : (item : Reply Object) → Keeps k (visit_item env k item)
  unfolding visit_item
  item-Keeps (failure e) = Triple-fail _ (λ t h. h)
  item-Keeps (answer obj) = one-Keeps obj

  visit-Keeps : (items : List (Reply Object)) → Keeps k (visit_all (visit_item env k) items)
  unfolding visit_all
  visit-Keeps [] = Triple-pure [] (λ t h. h)
  visit-Keeps (item ∷ items) =
      Triple-catch (visit_item env k item) _ _ (item-Keeps item)
        (λ e. Triple-bind _ _ (visit-Keeps items) (λ errs. Triple-pure _ (λ t h. h)))
        (λ _. visit-Keeps items)

  report-Keeps : (errs : List Error) → Keeps k (report_errors k errs)
  unfolding report_errors
  report-Keeps [] = Triple-pure tt (λ t h. h)
  report-Keeps (e ∷ errs) = Triple-fail _ (λ t h. h)

  stream-Keeps : (yml : String) → Keeps k (do_apply env k yml)
  unfolding do_apply wrap
  stream-Keeps yml = Triple-bind _ _ (check-Keeps k k.validator) (λ _.
      Triple-bind _ _ (check-Keeps k k.namespace) (λ _.
        Triple-bind _ _
          (Triple-catch (given (k.objects yml)) _ pure (given-Keeps k _)
            (λ e. Triple-fail _ (λ t h. h)) (λ a. Triple-pure a (λ t h. h)))
          (λ objs. Triple-bind _ _ (visit-Keeps objs) report-Keeps)))

-- If the libraries that work in memory fail without the status of an API server, and AddSourceToErr keeps
-- whether a status is a conflict or an invalid object, then doApply deletes an object only right
-- after the server refused a patch of that object as a conflict or as invalid, whatever else
-- the server answers and on every manifest.
pub do_apply-IsForced :
    (k : Kubectl)
    → HasPlainErrors k
    → (env : Env) (yml : String) (t : Trace) → IsForced k t
    → IsForced k (do_apply env k yml t).1
do_apply-IsForced k plain env yml t h =
    Triple-ends (IsForced k) (do_apply env k yml) (stream-Keeps k plain env yml) t h
