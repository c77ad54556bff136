-- ===== src/Apply.antt =====
-- doApply and its patcher (pkg/utils/kubeclient/apply.go): each object of a stream is created, or patched
-- in three ways against what the server has.
pub mod Addons
pub mod Annotations
pub mod Forcing
pub mod Retries
use ooc.Base.{
  ℕ, zero, suc, ◌+◌, String, Bool, true, false, not, ◌||◌, ◌&&◌, ltb, Option, none, some, List, [],
  ◌∷◌, select, str_eq, if◌then◌else◌,
}
use ooc.Cloud.{Error, text, not_found, conflict, invalid}
use ooc.Cloud.Exec.{
  Env, Trace, Reply, answer, failure, Exec, pure, fail, ask, perform, catch, ◌>>=◌, ◌>>◌, wrap,
  wrapped, maybe, pause, message, get_resource, delete_resource, create_resource, patch_resource,
}
use ooc.Cloud.Exec.Polling.{poll_immediate}
use ooc.Masters.{load_key, store_key}
use ooc.Clusters.{given}

-- a resource, with the annotations of its metadata, which may be nil
pub record Object : Type 0 where
  pub namespace : String
  pub name : String
  pub annotations : Option (List (String × String))
  pub body : String

-- scheme.New: the versioned struct of a resource
pub data Versioned : Type 0 where
  known unregistered : Versioned
  broken : Error → Versioned

-- What the libraries of kubectl and the API server answer: the validator, the namespace and the client,
-- the objects of a stream, the accessor of metadata, JSON, the patches, and how errors are put together:
-- `aggregate` by ContinueOnError, `add_source` by AddSourceToErr.
pub record Kubectl : Type 0 where
  pub add_source : String → Error → Error
  pub validator : Option Error
  pub namespace : Option Error
  pub client : Option Error
  pub objects : String → Reply (List (Reply Object))
  pub aggregate : List Error → Error
  pub accessor : Object → Option Error
  pub encode : Object → Reply String
  pub decode : String → Reply Object
  pub versioned : Object → Versioned
  pub merge_patch : Option String → String → String → Reply String
  pub is_precondition : Error → Bool
  pub patch_meta : Option Error
  pub strategic_patch : Option String → String → String → Reply String
  pub found : Trace → String → String → Reply Object
  pub patched : Trace → String → Reply Object
  pub created : Trace → Object → Reply Object

abbrev pub last_applied : String
last_applied = "kubectl.kubernetes.io/last-applied-configuration"

abbrev pub max_patch_retry : ℕ
max_patch_retry = 5

-- `if err != nil { return err }`
unfoldable pub check_error : Option Error → Exec (Unit {0})
check_error none = pure tt
check_error (some e) = fail e

unfoldable pub is_not_found : Error → Bool
is_not_found (not_found s) = true
is_not_found _ = false

unfoldable pub is_conflict : Error → Bool
is_conflict (conflict s) = true
is_conflict _ = false

unfoldable pub is_invalid : Error → Bool
is_invalid (invalid s) = true
is_invalid _ = false

unfoldable pub sourced : {A : Type 0} → Kubectl → String → Exec A → Exec A
sourced k s m = catch m (λ e. fail (k.add_source s e)) pure

unfoldable pub remove_key : {A : Type 0} → String → List (String × A) → List (String × A)
unfolding select
remove_key {A} k m = select (λ (e : String × A). not (str_eq e.0 k)) m

unfoldable pub or_empty : {A : Type 0} → Option (List A) → List A
or_empty none = []
or_empty (some xs) = xs

unfoldable pub text_or_empty : Option String → String
text_or_empty none = ""
text_or_empty (some s) = s

-- SetAnnotations
unfoldable pub set_annotations : Kubectl → Object → List (String × String) → Exec Object
unfolding check_error
set_annotations k obj annots =
    let obj' = record obj { annotations = some annots } in
    check_error (k.accessor obj') >> pure obj'

-- GetModifiedConfiguration, with the object that it leaves
unfoldable pub get_modified : Kubectl → Bool → Object → Exec (String × Object)
unfolding check_error set_annotations remove_key or_empty text_or_empty load_key store_key given
get_modified k annotate obj =
    let annots = or_empty obj.annotations in
    let original = text_or_empty (load_key last_applied annots) in
    let bare = remove_key last_applied annots in
    do
      check_error (k.accessor obj)
      plain ← set_annotations k obj bare >>= λ obj'. given (k.encode obj')
      let full = if annotate then store_key last_applied plain bare else bare
      modified ←
          if annotate
          then (set_annotations k obj full >>= λ obj'. given (k.encode obj'))
          else pure plain
      restored ← set_annotations k obj (store_key last_applied original full)
      pure (modified, restored)

-- GetOriginalConfiguration
unfoldable pub get_original : Kubectl → Object → Exec (Option String)
unfolding check_error or_empty load_key
get_original k obj =
    check_error (k.accessor obj) >> pure (load_key last_applied (or_empty obj.annotations))

-- the patch of patchSimple; the OpenAPI schema is nil
unfoldable pub create_patch : Kubectl → Versioned → Option String → String → String → Exec String
unfolding check_error given sourced
create_patch k unregistered original modified current =
    catch (given (k.merge_patch original modified current))
      (λ e.
        if k.is_precondition e
        then fail (text "At least one of apiVersion, kind and name was changed")
        else fail (k.add_source "creating patch with" e))
      pure
create_patch k (broken e) original modified current =
    fail (k.add_source "getting instance of versioned object" e)
create_patch k known original modified current =
    sourced k "creating patch with"
      (check_error k.patch_meta >> given (k.strategic_patch original modified current))

unfoldable pub send_patch : Kubectl → String → String → Object → String → Exec Object
send_patch k namespace name obj patch =
    if str_eq patch "{}"
    then pure obj
    else ask (patch_resource namespace name patch) (λ t. k.patched t patch)

-- patchSimple
unfoldable pub patch_simple : Kubectl → String → String → Object → String → Exec Object
unfolding get_original create_patch send_patch given sourced
patch_simple k namespace name obj modified = do
  current ← sourced k "serializing current configuration" (given (k.encode obj))
  original ← sourced k "retrieving original configuration" (get_original k obj)
  patch ← create_patch k (k.versioned obj) original modified current
  send_patch k namespace name obj patch

-- an error as a value, as the loop of `patch` keeps it
unfoldable pub tried : {A : Type 0} → Exec A → Exec (Reply A)
tried m = catch m (λ e. pure (failure e)) (λ a. pure (answer a))

unfoldable pub get_object_of : Kubectl → String → String → Exec Object
get_object_of k namespace name = ask (get_resource namespace name) (λ t. k.found t namespace name)

unfoldable pub again_after : {A : Type 0} → Reply A → Bool
unfolding is_conflict
again_after (answer a) = false
again_after (failure e) = is_conflict e

unfoldable pub create_object : Kubectl → String → Object → Exec Object
create_object k namespace obj = ask (create_resource namespace obj.name) (λ t. k.created t obj)

unfoldable pub is_forcing : Error → Bool
unfolding is_conflict is_invalid
is_forcing e = is_conflict e || is_invalid e

module _ (env : Env) (k : Kubectl) (namespace name : String) where
  -- the loop of `patch`: `left` rounds are left, `i` is the number of this one
  unfoldable pub patch_again : String → ℕ → ℕ → Object → Reply Object → Exec (Object × Reply Object)
  unfolding tried patch_simple get_object_of again_after pause
  patch_again modified zero i current r = pure (current, r)
  patch_again modified (suc left) i current r =
      let next =
        λ (fresh : Object) (r' : Reply Object). patch_again modified left (i + 1) fresh r' in
      if again_after r
      then ((if ltb 1 i then pause 1 else pure tt) >> get_object_of k namespace name >>= λ fresh.
          tried (patch_simple k namespace name fresh modified) >>= next fresh)
      else pure (current, r)

  unfoldable pub gone : Exec (Option (Unit {0}))
  unfolding get_object_of is_not_found
  gone =
      catch (get_object_of k namespace name)
        (λ e. if is_not_found e then pure (some tt) else fail e) (λ o. pure none)

  -- deleteAndCreate: the error of a failed creation is returned also if the original could be restored
  unfoldable pub replace_object : Object → Object → Exec Object
  unfolding create_object
  replace_object original obj =
      catch (create_object k namespace obj)
        (λ e.
          catch (create_object k namespace original)
            (λ e'. fail (wrapped "An error occurred force-replacing the existing object" e'))
            (λ o. fail e))
        pure

  unfoldable pub delete_and_create : Object → String → Exec Object
  unfolding perform poll_immediate gone given replace_object
  delete_and_create original modified =
      perform env (delete_resource namespace name)
      >> poll_immediate gone 1 (env.attempts 1 30)
      >> given (k.decode modified)
      >>= replace_object original

  unfoldable pub finish_patch : Bool → String → Object × Reply Object → Exec Object
  unfolding is_forcing delete_and_create
  finish_patch force modified (current, answer o) = pure o
  finish_patch force modified (current, failure e) =
      if is_forcing e && force then delete_and_create current modified else fail e

  -- patch
  unfoldable pub patch_object : Bool → Object → String → Exec Object
  unfolding tried patch_simple patch_again finish_patch
  patch_object force current modified =
      tried (patch_simple k namespace name current modified)
      >>= patch_again modified max_patch_retry 1 current
      >>= finish_patch force modified

-- createAndRefresh, and Refresh of an info
unfoldable pub refresh : Kubectl → Object → Exec (Unit {0})
unfolding check_error
refresh k obj = check_error (k.accessor obj)

unfoldable pub create_and_refresh : Kubectl → Object → Exec (Unit {0})
unfolding create_object refresh
create_and_refresh k obj = create_object k obj.namespace obj >>= refresh k

unfoldable pub apply_found : Env → Kubectl → Object → String → Object → Exec (Unit {0})
unfolding check_error patch_object refresh sourced
apply_found env k obj modified current =
    check_error k.client
    >> sourced k "applying patch" (patch_object env k obj.namespace obj.name true current modified)
    >>= refresh k

unfoldable pub create_missing_object : Kubectl → Object → Error → Exec (Unit {0})
unfolding is_not_found create_and_refresh sourced
create_missing_object k obj e =
    if not (is_not_found e)
    then fail (k.add_source "retrieving current configuration" e)
    else sourced k "creating" (create_and_refresh k obj)

-- the visitor of doApply on an object
unfoldable pub apply_one : Env → Kubectl → Object → Exec (Unit {0})
unfolding get_modified get_object_of create_missing_object apply_found sourced
apply_one env k obj = do
  found ← sourced k "retrieving modified configuration" (get_modified k true obj)
  catch (get_object_of k obj.namespace obj.name) (create_missing_object k found.1)
      (apply_found env k obj found.0)

-- the visitor, also of an object that the stream could not give
unfoldable pub visit_item : Env → Kubectl → Reply Object → Exec (Unit {0})
unfolding apply_one
visit_item env k (failure e) = fail (wrapped "visit object" e)
visit_item env k (answer obj) = apply_one env k obj

-- Visit with ContinueOnError
unfoldable pub visit_all :
    (Reply Object → Exec (Unit {0})) → List (Reply Object) → Exec (List Error)
visit_all visit [] = pure []
visit_all visit (item ∷ items) =
    let rest = visit_all visit items in
    catch (visit item) (λ e. rest >>= λ errs. pure (e ∷ errs)) (λ _. rest)

unfoldable pub report_errors : Kubectl → List Error → Exec (Unit {0})
report_errors k [] = pure tt
report_errors k (e ∷ errs) = fail (k.aggregate (e ∷ errs))

-- doApply, ApplyInCluster
unfoldable pub do_apply : Env → Kubectl → String → Exec (Unit {0})
unfolding check_error given visit_item visit_all report_errors
do_apply env k yml = do
  check_error k.validator
  check_error k.namespace
  objs ← wrap "object builder" (given (k.objects yml))
  visit_all (visit_item env k) objs >>= report_errors k
