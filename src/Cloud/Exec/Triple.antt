-- ===== src/Cloud/Exec/Triple.antt =====
-- What is known of the trace after a value and after an error, which Hoare.antt does not tell apart from
-- one another: one rule for each way to build code.
use ooc.Base.{subst, Option, none, some, String, ◌≡◌, refl, Bool, true, false, if◌then◌else◌, ◌∷◌}
use ooc.Cloud.{Error}
use ooc.Cloud.Exec.{
  Call, Trace, Outcome, ok, err, panic, Reply, answer, failure, outcome, Exec, pure, fail, ask,
  catch, ◌>>=◌, wrap, wrapped, maybe,
}
use ooc.Cloud.Exec.Success.{ok-inj}

module _ {A : Type 0} (I : Trace → Type 0) (Q : A → Trace → Type 0)
    (E : Error → Trace → Type 0) where
  abbrev pub Ends : Outcome A → Trace → Type 0
  Ends (ok a) t = Q a t
  Ends (err e) t = E e t
  Ends panic t = I t

  -- Begun after a trace with `P`, the code returns a value with `Q`, an error with `E`, or panics with `I`.
  pub record Triple (P : Trace → Type 0) (m : Exec A) : Type 0 where
    pub at : (t : Trace) → P t → Ends (m t).0 (m t).1

  asked :
      (c : Call) (t : Trace) (r : Reply A)
      → ((a : A) → r ≡ answer a → Q a (c ∷ t))
      → ((e : Error) → r ≡ failure e → E e (c ∷ t))
      → Ends (outcome r) (c ∷ t)
  asked c t (answer a) q f = q a refl
  asked c t (failure e) q f = f e refl

  replied :
      (t : Trace) (r : Reply A)
      → ((a : A) → r ≡ answer a → Q a t)
      → ((e : Error) → r ≡ failure e → E e t)
      → Ends (outcome r) t
  replied t (answer a) q f = q a refl
  replied t (failure e) q f = f e refl

module _ {A : Type 0} {I P : Trace → Type 0} {Q : A → Trace → Type 0}
    {E : Error → Trace → Type 0} where
  pub Triple-pure : (a : A) → ((t : Trace) → P t → Q a t) → Triple I Q E P (pure a)
  unfolding pure
  Triple-pure a h = record { at = h }

  pub Triple-fail : (e : Error) → ((t : Trace) → P t → E e t) → Triple I Q E P (fail {A = A} e)
  unfolding fail
  Triple-fail e h = record { at = h }

  pub Triple-ask :
      (c : Call) (replies : Trace → Reply A)
      → ((t : Trace) (a : A) → P t → replies t ≡ answer a → Q a (c ∷ t))
      → ((t : Trace) (e : Error) → P t → replies t ≡ failure e → E e (c ∷ t))
      → Triple I Q E P (ask c replies)
  unfolding ask
  Triple-ask c replies q f = record {
    at = λ t p. asked I Q E c t (replies t) (λ a h. q t a p h) (λ e h. f t e p h);
  }

  -- a value of another package, with no call
  pub Triple-reply :
      (r : Reply A)
      → ((t : Trace) (a : A) → P t → r ≡ answer a → Q a t)
      → ((t : Trace) (e : Error) → P t → r ≡ failure e → E e t)
      → Triple I Q E P (λ t. (outcome r, t))
  Triple-reply r q f = record {
    at = λ t p. replied I Q E t r (λ a h. q t a p h) (λ e h. f t e p h);
  }

  pub Triple-if :
      (b : Bool) (m n : Exec A)
      → (b ≡ true → Triple I Q E P m)
      → (b ≡ false → Triple I Q E P n)
      → Triple I Q E P (if b then m else n)
  Triple-if true m n km kn = km refl
  Triple-if false m n km kn = kn refl

  pub Triple-pre :
      {P' : Trace → Type 0} (m : Exec A)
      → ((t : Trace) → P t → P' t)
      → Triple I Q E P' m
      → Triple I Q E P m
  Triple-pre m f h = record { at = λ t p. h.at t (f t p) }

module _ {A B : Type 0} (I : Trace → Type 0) (R : A → Trace → Type 0) (F : Error → Trace → Type 0)
    (Q : B → Trace → Type 0) (E : Error → Trace → Type 0) where
  settled :
      (r : Outcome A) (f : Error → Exec B) (g : A → Exec B) (t : Trace)
      → ((e : Error) → Triple I Q E (F e) (f e))
      → ((a : A) → Triple I Q E (R a) (g a))
      → Ends I R F r t
      → let end = catch (λ t'. (r, t')) f g t in Ends I Q E end.0 end.1
  unfolding catch
  settled (ok a) f g t kf kg h = (kg a).at t h
  settled (err e) f g t kf kg h = (kf e).at t h
  settled panic f g t kf kg h = h

module _ {A B : Type 0} {I P : Trace → Type 0} {R : A → Trace → Type 0} {F : Error → Trace → Type 0}
    {Q : B → Trace → Type 0} {E : Error → Trace → Type 0} where
  pub Triple-catch :
      (m : Exec A) (f : Error → Exec B) (g : A → Exec B)
      → Triple I R F P m
      → ((e : Error) → Triple I Q E (F e) (f e))
      → ((a : A) → Triple I Q E (R a) (g a))
      → Triple I Q E P (catch m f g)
  unfolding catch
  Triple-catch m f g km kf kg = record {
    at = λ t p. settled I R F Q E (m t).0 f g (m t).1 kf kg (km.at t p);
  }

module _ {A B : Type 0} {I P : Trace → Type 0} {R : A → Trace → Type 0} {Q : B → Trace → Type 0}
    {E : Error → Trace → Type 0} where
  pub Triple-bind :
      (m : Exec A) (g : A → Exec B)
      → Triple I R E P m
      → ((a : A) → Triple I Q E (R a) (g a))
      → Triple I Q E P (m >>= g)
  unfolding ◌>>=◌
  Triple-bind m g km kg = Triple-catch m fail g km (λ e. Triple-fail e (λ t h. h)) kg

module _ {A : Type 0} {I P : Trace → Type 0} {Q : A → Trace → Type 0}
    {F E : Error → Trace → Type 0} where
  pub Triple-wrap :
      (s : String) (m : Exec A)
      → ((e : Error) (t : Trace) → F e t → E (wrapped s e) t)
      → Triple I Q F P m
      → Triple I Q E P (wrap s m)
  unfolding wrap
  Triple-wrap s m f km =
      Triple-catch m _ pure km (λ e. Triple-fail _ (λ t h. f e t h)) (λ a. Triple-pure a (λ t h. h))

module _ {A B : Type 0} {I P : Trace → Type 0} {Q : B → Trace → Type 0}
    {E : Error → Trace → Type 0} where
  pub Triple-maybe :
      (o : Option A) (m : Exec B) (f : A → Exec B)
      → Triple I Q E P m
      → ((a : A) → Triple I Q E P (f a))
      → Triple I Q E P (maybe o m f)
  unfolding maybe
  Triple-maybe none m f hm hf = hm
  Triple-maybe (some a) m f hm hf = hf a

module _ {A : Type 0} (I : Trace → Type 0) where
  ended : (o : Outcome A) (t : Trace) → Ends I (λ _. I) (λ _. I) o t → I t
  ended (ok a) t h = h
  ended (err e) t h = h
  ended panic t h = h

  -- what holds wherever the code ends
  pub Triple-ends :
      {P : Trace → Type 0} (m : Exec A)
      → Triple I (λ _. I) (λ _. I) P m
      → (t : Trace) → P t
      → I (m t).1
  Triple-ends m h t p = ended (m t).0 (m t).1 (h.at t p)

module _ {A : Type 0} (Q : A → Trace → Type 0) where
  abbrev pub Anything : {B : Type 0} → B → Trace → Type 0
  Anything b t = Unit {0}

  returned :
      (o : Outcome A) (t : Trace) (a : A) → o ≡ ok a → Ends (λ _. Unit {0}) Q Anything o t → Q a t
  returned (ok b) t a e h = subst (λ (x : A). Q x t) (ok-inj b a e) h
  returned (err x) t a e h = absurd (cc)
  returned panic t a e h = absurd (cc)

  -- what holds of the value that the code returns
  pub Triple-value :
      {P : Trace → Type 0} (m : Exec A)
      → Triple (λ _. Unit {0}) Q Anything P m
      → (t : Trace) (a : A) → P t
      → (m t).0 ≡ ok a
      → Q a (m t).1
  Triple-value m h t a p e = returned (m t).0 (m t).1 a e (h.at t p)
