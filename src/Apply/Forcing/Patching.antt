-- ===== src/Apply/Forcing/Patching.antt =====
-- The errors of patchSimple and of the loop around it.
use ooc.Base.{
  ℕ, zero, suc, ◌+◌, String, ◌≡◌, refl, ◌⊎◌, inl, inr, false, Bool-cases, ltb, ◌∷◌, str_eq,
}
use ooc.Cloud.{Error}
use ooc.Cloud.Exec.{Env, Trace, Reply, answer, failure, Exec, fail, ◌>>=◌, patch_resource}
use ooc.Cloud.Exec.Triple.{
  Triple, Triple-pure, Triple-fail, Triple-ask, Triple-if, Triple-pre, Triple-catch, Triple-bind,
}
use ooc.Apply.{
  Object, Kubectl, check_error, get_original, create_patch, send_patch, patch_simple, tried,
  again_after, patch_again,
}
use ooc.Apply.Forcing.{
  has_status, HasPlainErrors, IsRefused, IsForced, Plain, get-Keeps, pause-Keeps, given-Plain,
  sourced-Plain, check-Plain, create_patch-Plain,
}

module _ (k : Kubectl) (plain : HasPlainErrors k) (namespace name : String) where
  abbrev pub Refuses : Error → Trace → Type 0
  Refuses e t = (has_status e ≡ false) ⊎ IsRefused k namespace name t

  abbrev pub Told : {A : Type 0} → Exec A → Type 0
  Told {A} m =
      Triple {A = A} (IsForced k) (λ _. IsForced k) (λ e t. Refuses e t × IsForced k t) (IsForced k)
        m

  abbrev pub Tells : Reply Object → Trace → Type 0
  Tells (answer o) t = IsForced k t
  Tells (failure e) t = Refuses e t × IsForced k t

  pub bind-Told :
      {A B : Type 0} (m : Exec A) (g : A → Exec B)
      → Plain k m
      → ((a : A) → Told (g a))
      → Told (m >>= g)
  unfolding ◌>>=◌
  bind-Told m g km kg = Triple-catch m fail g km (λ e. Triple-fail e (λ t p. (inl p.0, p.1))) kg

  pub refused_by :
      (e : Error) (patch : String) (t : Trace)
      → k.patched t patch ≡ failure e
      → Refuses e (patch_resource namespace name patch ∷ t)
  refused_by e patch t q = elim (Bool-cases (has_status e)) [
    | inl forcing ↦ inr (refl, refl, (e, q, forcing))
    | inr mild ↦ inl mild
  ]

  pub simple-Told :
      (obj : Object) (modified : String) → Told (patch_simple k namespace name obj modified)
  unfolding patch_simple get_original send_patch
  simple-Told obj modified =
      bind-Told _ _ (sourced-Plain k plain _ _ (given-Plain k plain _ (plain.plain_encode obj)))
        (λ current.
          bind-Told _ _
            (sourced-Plain k plain _ _ (
              Triple-bind (check_error _) _ (check-Plain k plain _ (plain.plain_accessor obj))
                (λ _. Triple-pure _ (λ t h. h))))
            (λ original.
              bind-Told (create_patch k (k.versioned obj) original modified current) _
                (create_patch-Plain k plain obj _ original modified current refl)
                (λ patch.
                  Triple-if (str_eq patch "{}") _ _ (λ _. Triple-pure obj (λ t h. h))
                    (λ _.
                      Triple-ask (patch_resource namespace name patch) _ (λ t o h q. (tt, h))
                        (λ t e h q. (refused_by e patch t q, (tt, h)))))))

  abbrev pub Ready : {A : Type 0} → (A → Reply Object) → (Trace → Type 0) → Exec A → Type 0
  Ready {A} reply P m = Triple {A = A} (IsForced k) (λ a. Tells (reply a)) (λ _. IsForced k) P m

  pub tried-Ready :
      (obj : Object) (modified : String)
      → Ready (λ r. r) (IsForced k) (tried (patch_simple k namespace name obj modified))
  unfolding tried
  tried-Ready obj modified =
      Triple-catch (patch_simple k namespace name obj modified) _ _ (simple-Told obj modified)
        (λ e. Triple-pure _ (λ t p. p)) (λ a. Triple-pure _ (λ t p. p))

  pub tells-IsForced : (r : Reply Object) (t : Trace) → Tells r t → IsForced k t
  tells-IsForced (answer o) t h = h
  tells-IsForced (failure e) t h = h.1

module _ (k : Kubectl) (plain : HasPlainErrors k) (env : Env) (namespace name : String) where
  pub again-Ready :
      (modified : String) (left i : ℕ) (current : Object) (r : Reply Object)
      → Ready k plain namespace name
          (λ p. p.1)
          (Tells k plain namespace name r)
          (patch_again env k namespace name modified left i current r)
  unfolding patch_again
  again-Ready modified zero i current r = Triple-pure _ (λ t h. h)
  again-Ready modified (suc left) i current r =
      Triple-if (again_after r) _ _
        (λ _.
          Triple-bind _ _
            (Triple-pre _ (tells-IsForced k plain namespace name r) (
              Triple-bind _ _
                (Triple-if (ltb 1 i) _ _ (λ _. pause-Keeps k 1) (λ _. Triple-pure tt (λ t h. h)))
                (λ _. get-Keeps k namespace name)))
            (λ fresh.
              Triple-bind (tried (patch_simple k namespace name fresh modified)) _
                (tried-Ready k plain namespace name fresh modified)
                (λ r'. again-Ready modified left (i + 1) fresh r')))
        (λ _. Triple-pure _ (λ t h. h))
