-- ===== src/Apply/Forcing.antt =====
-- When the patcher deletes an object of the cluster.
pub mod Patching
pub mod Stream
use ooc.Base.{
  ℕ, zero, suc, ◌+◌, String, ◌≡◌, refl, ◌⊎◌, inl, inr, Bool, true, false, Bool-cases, ◌&&◌, not,
  ltb, Option, none, some, List, [], ◌∷◌, str_eq, if◌then◌else◌, ◌∙◌,
}
use ooc.Cloud.{conflict, invalid, Error, text}
use ooc.Cloud.Exec.{
  Call, Env, Trace, Reply, answer, failure, Exec, pure, fail, ask, perform, catch, ◌>>=◌, pause,
  maybe, wrap, wrapped, refused, sleep, get_resource, delete_resource, create_resource,
  patch_resource,
}
use ooc.Cloud.Exec.Polling.{poll_immediate}
use ooc.Cloud.Exec.Triple.{
  Triple, Triple-pure, Triple-fail, Triple-ask, Triple-reply, Triple-if, Triple-pre, Triple-catch,
  Triple-bind, Triple-ends,
}
use ooc.Clusters.{given}
use ooc.Apply.{
  Object, Kubectl, Versioned, known, unregistered, broken, check_error, sourced, get_modified,
  get_original, create_patch, send_patch, patch_simple, tried, get_object_of, again_after,
  create_object, is_forcing, is_not_found, patch_again, gone, replace_object, delete_and_create,
  finish_patch, patch_object, refresh, create_and_refresh, apply_found, create_missing_object,
  apply_one, visit_all, report_errors, do_apply, max_patch_retry, set_annotations,
}

-- the status of a conflict or of an invalid object
abbrev pub has_status : Error → Bool
has_status (conflict s) = true
has_status (invalid s) = true
has_status e = false

-- The libraries that work in memory fail without the status of an API server, and AddSourceToErr keeps
-- the status of an error.
pub record HasPlainErrors (k : Kubectl) : Type 0 where
  pub plain_encode : (o : Object) (e : Error) → k.encode o ≡ failure e → has_status e ≡ false
  pub plain_accessor : (o : Object) (e : Error) → k.accessor o ≡ some e → has_status e ≡ false
  pub plain_merge :
      (o : Option String) (m c : String) (e : Error)
      → k.merge_patch o m c ≡ failure e
      → has_status e ≡ false
  pub plain_meta : (e : Error) → k.patch_meta ≡ some e → has_status e ≡ false
  pub plain_strategic :
      (o : Option String) (m c : String) (e : Error)
      → k.strategic_patch o m c ≡ failure e
      → has_status e ≡ false
  pub plain_versioned : (o : Object) (e : Error) → k.versioned o ≡ broken e → has_status e ≡ false
  pub plain_source : (s : String) (e : Error) → has_status (k.add_source s e) ≡ has_status e

module _ (k : Kubectl) where
  -- the newest call is a patch of the object that the server refused as a conflict or as invalid
  abbrev pub IsRefused : String → String → Trace → Type 0
  IsRefused namespace name (patch_resource namespace' name' patch ∷ t) =
      (namespace ≡ namespace')
      × (name ≡ name')
      × ((e : Error) × (k.patched t patch ≡ failure e) × (has_status e ≡ true))
  IsRefused namespace name t = ⊥

  abbrev pub IsAllowed : Call → Trace → Type 0
  IsAllowed (delete_resource namespace name) t = IsRefused namespace name t
  IsAllowed c t = Unit {0}

  -- each deletion comes right after such a patch of the same object
  abbrev pub IsForced : Trace → Type 0
  IsForced [] = Unit {0}
  IsForced (c ∷ t) = IsAllowed c t × IsForced t

  abbrev pub Keeps : {A : Type 0} → Exec A → Type 0
  Keeps {A} m = Triple {A = A} IsForced (λ _. IsForced) (λ _. IsForced) IsForced m

  -- what fails here is no conflict
  abbrev pub Plain : {A : Type 0} → Exec A → Type 0
  Plain {A} m =
      Triple {A = A} IsForced (λ _. IsForced) (λ e t. (has_status e ≡ false) × IsForced t) IsForced
        m

module _ (k : Kubectl) where
  pub given-Keeps : {A : Type 0} (r : Reply A) → Keeps k (given r)
  unfolding given
  given-Keeps r = Triple-reply r (λ t a h _. h) (λ t e h _. h)

  pub sourced-Keeps : {A : Type 0} (s : String) (m : Exec A) → Keeps k m → Keeps k (sourced k s m)
  unfolding sourced
  sourced-Keeps s m h =
      Triple-catch m _ pure h (λ e. Triple-fail _ (λ t p. p)) (λ a. Triple-pure a (λ t p. p))

  pub check-Keeps : (o : Option Error) → Keeps k (check_error o)
  unfolding check_error
  check-Keeps none = Triple-pure tt (λ t h. h)
  check-Keeps (some e) = Triple-fail e (λ t h. h)

  pub set_annotations-Keeps :
      (obj : Object) (annots : List (String × String)) → Keeps k (set_annotations k obj annots)
  unfolding set_annotations
  set_annotations-Keeps obj annots =
      Triple-bind (check_error _) _ (check-Keeps _) (λ _. Triple-pure _ (λ t h. h))

  pub encoded-Keeps :
      (obj : Object) (annots : List (String × String))
      → Keeps k (set_annotations k obj annots >>= λ obj'. given (k.encode obj'))
  encoded-Keeps obj annots =
      Triple-bind (set_annotations k obj annots) _ (set_annotations-Keeps obj annots)
        (λ o. given-Keeps _)

  pub get_modified-Keeps : (annotate : Bool) (obj : Object) → Keeps k (get_modified k annotate obj)
  unfolding get_modified
  get_modified-Keeps annotate obj = Triple-bind (check_error _) _ (check-Keeps _) (λ _.
      Triple-bind _ _ (encoded-Keeps obj _) (λ plain.
        Triple-bind _ _
          (Triple-if annotate _ _ (λ _. encoded-Keeps obj _) (λ _. Triple-pure _ (λ t h. h)))
          (λ modified.
            Triple-bind _ _ (set_annotations-Keeps obj _) (λ o. Triple-pure _ (λ t h. h)))))

  pub get-Keeps : (namespace name : String) → Keeps k (get_object_of k namespace name)
  unfolding get_object_of
  get-Keeps namespace name =
      Triple-ask (get_resource namespace name) (λ t. k.found t namespace name) (λ t a h _. (tt, h))
        (λ t e h _. (tt, h))

  pub pause-Keeps : (n : ℕ) → Keeps k (pause n)
  unfolding pause
  pause-Keeps n = Triple-ask (sleep n) (λ _. answer tt) (λ t a h _. (tt, h)) (λ t e h _. (tt, h))

module _ (k : Kubectl) (plain : HasPlainErrors k) where
  pub given-Plain :
      {A : Type 0} (r : Reply A)
      → ((e : Error) → r ≡ failure e → has_status e ≡ false)
      → Plain k (given r)
  unfolding given
  given-Plain r f = Triple-reply r (λ t a h _. h) (λ t e h q. (f e q, h))

  pub sourced-Plain : {A : Type 0} (s : String) (m : Exec A) → Plain k m → Plain k (sourced k s m)
  unfolding sourced
  sourced-Plain s m h =
      Triple-catch m _ pure h (λ e. Triple-fail _ (λ t p. (plain.plain_source s e ∙ p.0, p.1)))
        (λ a. Triple-pure a (λ t p. p))

  pub check-Plain :
      (o : Option Error)
      → ((e : Error) → o ≡ some e → has_status e ≡ false)
      → Plain k (check_error o)
  unfolding check_error
  check-Plain none f = Triple-pure tt (λ t h. h)
  check-Plain (some e) f = Triple-fail e (λ t h. (f e refl, h))

  pub create_patch-Plain :
      (obj : Object) (v : Versioned) (original : Option String) (modified current : String)
      → k.versioned obj ≡ v
      → Plain k (create_patch k v original modified current)
  unfolding create_patch
  create_patch-Plain obj unregistered original modified current h =
      Triple-catch (given _) _ pure
        (given-Plain _ (λ e. plain.plain_merge original modified current e))
        (λ e.
          Triple-if (k.is_precondition e) _ _ (λ _. Triple-fail _ (λ t p. (refl, p.1)))
            (λ _. Triple-fail _ (λ t p. (plain.plain_source _ e ∙ p.0, p.1))))
        (λ a. Triple-pure a (λ t p. p))
  create_patch-Plain obj (broken e) original modified current h =
      Triple-fail _ (λ t p. (plain.plain_source _ e ∙ plain.plain_versioned obj e h, p))
  create_patch-Plain obj known original modified current h = sourced-Plain _ _ (
      Triple-bind (check_error _) _ (check-Plain _ plain.plain_meta)
        (λ _. given-Plain _ (λ e. plain.plain_strategic original modified current e)))
