-- ===== src/Bootstrap/Nodes/Authority.antt =====
-- When the boot of a master runs `kubeadm init`.
use ooc.Base.{
  String, ◌≡◌, refl, ◌⊎◌, inl, inr, Bool, true, false, not, ◌&&◌, Bool-cases, List, [], ◌∷◌, Option,
  none, some, any, str_eq, eq_iff, arith,
}
use ooc.Cloud.Exec.{
  Call, Env, Trace, Outcome, ok, err, panic, crash, Exec, pure, perform, wrap, deref, write_file,
  command, refused,
}
use ooc.Cloud.Exec.Hoare.{refused-answer}
use ooc.Cloud.Exec.Confines.{Confined, Confined-wrap, Confined-Triple}
use ooc.Cloud.Exec.Triple.{Triple, Ends, Triple-ask, Triple-bind, Triple-wrap}
use ooc.Actions.{Machine, write, write_all}
use ooc.Actions.Kubelet.{cert_path}
use ooc.Actions.Calls.{is_kubeadm_init, Permits, write_all-Confined, write-Confined}

abbrev pub is_ordinary : Call → Bool
is_ordinary (command args) = not (is_kubeadm_init args)
is_ordinary c = true

-- a call other than `kubeadm init`
abbrev pub IsOrdinary : Call → Type 0
IsOrdinary c = is_ordinary c ≡ true

pub IsOrdinary-Permits : (m : Machine) → Permits m IsOrdinary (λ path. true)
IsOrdinary-Permits m = record {
  on_dir = λ s. refl;
  on_read = λ s. refl;
  on_move = λ s dest name h. refl;
  on_unpack = λ f h. refl;
  on_remove = λ s. refl;
  on_meta = λ s. refl;
  on_sleep = λ n. refl;
  on_systemctl = λ args. refl;
  on_register = λ s. refl;
  on_command = λ args h. rw h;
  on_write = λ path body h. refl;
}

module _ (env : Env) (m : Machine) (root : String) where
  abbrev pub writes_authority : Call → Bool
  writes_authority (write_file path body) =
      str_eq path (cert_path m "ca.crt") && str_eq body (m.cert root)
  writes_authority c = false

  -- The cluster's certificate has been written to its place, and the write was not refused.
  abbrev pub HasAuthority : Trace → Type 0
  HasAuthority [] = ⊥
  HasAuthority (c ∷ t) = ((writes_authority c ≡ true) × (env.refusal t c ≡ none)) ⊎ HasAuthority t

  -- Each `kubeadm init` of the trace comes after such a write.
  abbrev pub IsCertified : Trace → Type 0
  IsCertified [] = Unit {0}
  IsCertified (c ∷ t) = ((is_ordinary c ≡ true) ⊎ HasAuthority t) × IsCertified t

  abbrev pub Written : Trace → Type 0
  Written t = HasAuthority t × IsCertified t

  cons-IsCertified : (c : Call) (t : Trace) → IsOrdinary c → IsCertified t → IsCertified (c ∷ t)
  cons-IsCertified c t q h = (inl q, h)

  cons-Written : (c : Call) (t : Trace) → IsOrdinary c → Written t → Written (c ∷ t)
  cons-Written c t q h = (inr h.0, (inl q, h.1))

  abbrev pub Orderly : {A : Type 0} → (Trace → Type 0) → (Trace → Type 0) → Exec A → Type 0
  Orderly {A} P Q m' = Triple {A = A} IsCertified (λ _. Q) (λ _. IsCertified) P m'

  pub ordinary :
      {A : Type 0} (k : Exec A) → Confined IsOrdinary k → Orderly IsCertified IsCertified k
  ordinary k h = Confined-Triple IsCertified k cons-IsCertified h

  relaxed :
      {A : Type 0} (o : Outcome A) (t : Trace)
      → Written t
      → Ends IsCertified (λ _. Written) (λ _. IsCertified) o t
  relaxed (ok a) t h = h
  relaxed (err e) t h = h.1
  relaxed panic t h = h.1

  pub after_writing : {A : Type 0} (k : Exec A) → Confined IsOrdinary k → Orderly Written Written k
  after_writing k h = record { at = λ t p. relaxed (k t).0 (k t).1 (h.at Written cons-Written t p) }

  -- what is read from a pointer
  pub dereferenced :
      {A : Type 0} (o : Option A) (P : Trace → Type 0)
      → ((t : Trace) → P t → IsCertified t)
      → Triple IsCertified (λ a t. (o ≡ some a) × P t) (λ _. IsCertified) P (deref o)
  unfolding deref crash pure
  dereferenced none P f = record { at = λ t p. f t p }
  dereferenced (some a) P f = record { at = λ t p. (refl, p) }

  pub fact :
      {A X : Type 0} {P Q : Trace → Type 0} (k : Exec A)
      → (X → Orderly P Q k)
      → Orderly (λ t. X × P t) Q k
  fact k h = record { at = λ t p. Triple.at (h p.0) t p.1 }

  abbrev pub is_authority : String × String → Bool
  is_authority e = str_eq e.0 "ca.crt" && str_eq e.1 (m.cert root)

  stored :
      (name body : String)
      → is_authority (name, body) ≡ true
      → writes_authority (write_file (cert_path m name) body) ≡ true
  stored name body h =
      ground (arith, eq_iff name "ca.crt", eq_iff (cert_path m name) (cert_path m "ca.crt"))

  none_forbidden :
      (entries : List (String × String)) → any (λ (e : String × String). false) entries ≡ false
  unfolding any
  none_forbidden [] = refl
  none_forbidden (e ∷ rest) = none_forbidden rest

  writes_it :
      (s name body : String)
      → is_authority (name, body) ≡ true
      → Orderly IsCertified Written (wrap s (write env (cert_path m name) body))
  unfolding write perform
  writes_it s name body h =
      let found = stored name body h in
      Triple-wrap s _ (λ e t p. p)
        (Triple-ask (write_file (cert_path m name) body)
          (λ t. refused (env.refusal t (write_file (cert_path m name) body)))
          (λ t a p e. (inl (found, refused-answer _ a e), (inl refl, p)))
          (λ t e p _. (inl refl, p)))

  pub write_all-Written :
      (note : String → String) (entries : List (String × String))
      → any is_authority entries ≡ true
      → Orderly IsCertified Written (write_all env note (cert_path m) entries)
  unfolding write_all any
  write_all-Written note [] h = absurd (cc)
  write_all-Written note ((name, body) ∷ rest) h = elim (Bool-cases (is_authority (name, body))) [
    | inl it ↦ Triple-bind _ _ (writes_it _ name body it) (λ _.
        after_writing (write_all env note (cert_path m) rest) (
          write_all-Confined (IsOrdinary-Permits m) env note (cert_path m) rest
            (none_forbidden rest)))
    | inr other ↦
        Triple-bind _ _
          (ordinary _ (
            Confined-wrap _ _
              (write-Confined (IsOrdinary-Permits m) env (cert_path m name) body refl)))
          (λ _. write_all-Written note rest (ground (arith)))
  ]
