-- ===== src/Cloud/Exec/Hoare.antt =====
-- What is known of the trace before and after code: one rule for each way to build code. `I` holds
-- wherever the code ends, by a value, an error or a panic.
use ooc.Base.{ℕ, ◌∷◌, String, ◌≡◌, refl, Bool, true, false, Option, none, some, if◌then◌else◌}
use ooc.Cloud.{Error}
use ooc.Cloud.Exec.{
  Call, Trace, Outcome, ok, err, panic, Reply, answer, failure, Exec, pure, fail, crash, ask, deref,
  catch, ◌>>=◌, maybe, wrap, outcome, pause, sleep, refused,
}

module _ {A : Type 0} (I : Trace → Type 0) where
  abbrev pub Settled : (A → Trace → Type 0) → Outcome A → Trace → Type 0
  Settled Q (ok a) t = Q a t
  Settled Q (err e) t = I t
  Settled Q panic t = I t

  -- Begun after a trace with `P`, the code returns a value with `Q`, or ends otherwise with `I`.
  pub record Hoare (P : Trace → Type 0) (m : Exec A) (Q : A → Trace → Type 0) : Type 0 where
    pub at : (t : Trace) → P t → Settled Q (m t).0 (m t).1

module _ {A : Type 0} (I : Trace → Type 0) (Q : A → Trace → Type 0) where
  asked :
      (c : Call) (t : Trace) (r : Reply A)
      → I (c ∷ t)
      → ((a : A) → r ≡ answer a → Q a (c ∷ t))
      → Settled I Q (outcome r) (c ∷ t)
  asked c t (answer a) i q = q a refl
  asked c t (failure e) i q = i

module _ {A : Type 0} {I P : Trace → Type 0} {Q : A → Trace → Type 0} where
  pub Hoare-pure : (a : A) → ((t : Trace) → P t → Q a t) → Hoare I P (pure a) Q
  unfolding pure
  Hoare-pure a h = record { at = h }

  pub Hoare-fail : (e : Error) → ((t : Trace) → P t → I t) → Hoare I P (fail {A = A} e) Q
  unfolding fail
  Hoare-fail e h = record { at = h }

  pub Hoare-crash : ((t : Trace) → P t → I t) → Hoare I P (crash {A = A}) Q
  unfolding crash
  Hoare-crash h = record { at = h }

  pub Hoare-ask :
      (c : Call) (replies : Trace → Reply A)
      → ((t : Trace) → P t → I (c ∷ t))
      → ((t : Trace) (a : A) → P t → replies t ≡ answer a → Q a (c ∷ t))
      → Hoare I P (ask c replies) Q
  unfolding ask
  Hoare-ask c replies i q = record {
    at = λ t p. asked I Q c t (replies t) (i t p) (λ a e. q t a p e);
  }

  pub Hoare-deref :
      (o : Option A)
      → ((t : Trace) → P t → I t)
      → ((t : Trace) (a : A) → P t → Q a t)
      → Hoare I P (deref o) Q
  unfolding deref
  Hoare-deref none i q = Hoare-crash i
  Hoare-deref (some a) i q = Hoare-pure a (λ t p. q t a p)

  pub Hoare-if :
      (b : Bool) (m n : Exec A)
      → (b ≡ true → Hoare I P m Q)
      → (b ≡ false → Hoare I P n Q)
      → Hoare I P (if b then m else n) Q
  Hoare-if true m n km kn = km refl
  Hoare-if false m n km kn = kn refl

  -- a stronger precondition
  pub Hoare-pre :
      {P' : Trace → Type 0} (m : Exec A)
      → ((t : Trace) → P t → P' t)
      → Hoare I P' m Q
      → Hoare I P m Q
  Hoare-pre m f h = record { at = λ t p. h.at t (f t p) }

module _ {A B : Type 0} {I P : Trace → Type 0} {Q : B → Trace → Type 0} where
  pub Hoare-maybe :
      (o : Option A) (m : Exec B) (f : A → Exec B)
      → Hoare I P m Q
      → ((a : A) → o ≡ some a → Hoare I P (f a) Q)
      → Hoare I P (maybe o m f) Q
  unfolding maybe
  Hoare-maybe none m f km kf = km
  Hoare-maybe (some a) m f km kf = kf a refl

module _ {A B : Type 0} (I : Trace → Type 0) (Q : B → Trace → Type 0) where
  ask-Settled :
      (c : Call) (t : Trace) (r : Reply A) (f : Error → Exec B) (g : A → Exec B)
      → ((e : Error) → r ≡ failure e → Settled I Q (f e (c ∷ t)).0 (f e (c ∷ t)).1)
      → ((a : A) → r ≡ answer a → Settled I Q (g a (c ∷ t)).0 (g a (c ∷ t)).1)
      → let end = catch (λ t'. (outcome r, c ∷ t)) f g t in Settled I Q end.0 end.1
  unfolding catch
  ask-Settled c t (answer a) f g kf kg = kg a refl
  ask-Settled c t (failure e) f g kf kg = kf e refl

  -- what follows a call, or its failure, knows the reply
  pub Hoare-ask_catch :
      {P : Trace → Type 0} (c : Call) (replies : Trace → Reply A) (f : Error → Exec B)
      (g : A → Exec B)
      → ((t : Trace) (e : Error)
          → P t
          → replies t ≡ failure e
          → Settled I Q (f e (c ∷ t)).0 (f e (c ∷ t)).1)
      → ((t : Trace) (a : A)
          → P t
          → replies t ≡ answer a
          → Settled I Q (g a (c ∷ t)).0 (g a (c ∷ t)).1)
      → Hoare I P (catch (ask c replies) f g) Q
  unfolding catch ask
  Hoare-ask_catch c replies f g kf kg = record {
    at = λ t p. ask-Settled c t (replies t) f g (λ e h. kf t e p h) (λ a h. kg t a p h);
  }

module _ {A B : Type 0} (I : Trace → Type 0) (R : A → Trace → Type 0) (Q : B → Trace → Type 0) where
  settle-Hoare :
      (r : Outcome A) (f : Error → Exec B) (g : A → Exec B) (t : Trace)
      → ((e : Error) → Hoare I I (f e) Q)
      → ((a : A) → Hoare I (R a) (g a) Q)
      → Settled I R r t
      → let end = catch (λ t'. (r, t')) f g t in Settled I Q end.0 end.1
  unfolding catch
  settle-Hoare (ok a) f g t kf kg h = (kg a).at t h
  settle-Hoare (err e) f g t kf kg h = (kf e).at t h
  settle-Hoare panic f g t kf kg h = h

module _ {A B : Type 0} {I P : Trace → Type 0} {R : A → Trace → Type 0}
    {Q : B → Trace → Type 0} where
  pub Hoare-catch :
      (m : Exec A) (f : Error → Exec B) (g : A → Exec B)
      → Hoare I P m R
      → ((e : Error) → Hoare I I (f e) Q)
      → ((a : A) → Hoare I (R a) (g a) Q)
      → Hoare I P (catch m f g) Q
  unfolding catch
  Hoare-catch m f g km kf kg = record {
    at = λ t p. settle-Hoare I R Q (m t).0 f g (m t).1 kf kg (km.at t p);
  }

  pub Hoare-bind :
      (m : Exec A) (g : A → Exec B)
      → Hoare I P m R
      → ((a : A) → Hoare I (R a) (g a) Q)
      → Hoare I P (m >>= g) Q
  unfolding ◌>>=◌
  Hoare-bind m g km kg = Hoare-catch m fail g km (λ e. Hoare-fail e (λ t i. i)) kg

module _ {A : Type 0} (I : Trace → Type 0) (Q Q' : A → Trace → Type 0) where
  weakened :
      (o : Outcome A) (t : Trace)
      → ((a : A) (t : Trace) → Q a t → Q' a t)
      → Settled I Q o t
      → Settled I Q' o t
  weakened (ok a) t f h = f a t h
  weakened (err e) t f h = h
  weakened panic t f h = h

module _ {A : Type 0} (I I' : Trace → Type 0) (Q : A → Trace → Type 0) where
  weakened_ends :
      (o : Outcome A) (t : Trace) → ((t : Trace) → I t → I' t) → Settled I Q o t → Settled I' Q o t
  weakened_ends (ok a) t f h = h
  weakened_ends (err e) t f h = f t h
  weakened_ends panic t f h = f t h

module _ {A : Type 0} {I : Trace → Type 0} {Q : A → Trace → Type 0} where
  -- less is known where the code ends otherwise
  pub Hoare-weaken :
      {P I' : Trace → Type 0} (m : Exec A)
      → ((t : Trace) → I t → I' t)
      → Hoare I P m Q
      → Hoare I' P m Q
  Hoare-weaken {I'} m f h = record { at = λ t p. weakened_ends I I' Q (m t).0 (m t).1 f (h.at t p) }

module _ {A : Type 0} {I : Trace → Type 0} {Q Q' : A → Trace → Type 0} where
  -- a weaker postcondition
  pub Hoare-post :
      {P : Trace → Type 0} (m : Exec A)
      → ((a : A) (t : Trace) → Q a t → Q' a t)
      → Hoare I P m Q
      → Hoare I P m Q'
  Hoare-post m f h = record { at = λ t p. weakened I Q Q' (m t).0 (m t).1 f (h.at t p) }

module _ {A : Type 0} (I : Trace → Type 0) where
  settled_ends : (o : Outcome A) (t : Trace) → Settled I (λ _. I) o t → I t
  settled_ends (ok a) t h = h
  settled_ends (err e) t h = h
  settled_ends panic t h = h

  -- what holds wherever the code ends
  pub Hoare-ends :
      {P : Trace → Type 0} (m : Exec A) → Hoare I P m (λ _. I) → (t : Trace) → P t → I (m t).1
  Hoare-ends m h t p = settled_ends (m t).0 (m t).1 (h.at t p)

module _ {A : Type 0} {I P : Trace → Type 0} {Q : A → Trace → Type 0} where
  pub Hoare-wrap : (s : String) (m : Exec A) → Hoare I P m Q → Hoare I P (wrap s m) Q
  unfolding wrap
  Hoare-wrap s m km =
      Hoare-catch m _ pure km (λ e. Hoare-fail _ (λ t i. i)) (λ a. Hoare-pure a (λ t q. q))

pub Hoare-pause :
    {I P : Trace → Type 0} {Q : Unit {0} → Trace → Type 0} (n : ℕ)
    → ((t : Trace) → P t → I (sleep n ∷ t))
    → ((t : Trace) → P t → Q tt (sleep n ∷ t))
    → Hoare I P (pause n) Q
unfolding pause
Hoare-pause n i q = Hoare-ask (sleep n) (λ _. answer tt) i (λ t a p e. q t p)

-- what a reply says of the error that it stands for
pub refused-failure : (o : Option Error) (e : Error) → refused o ≡ failure e → o ≡ some e
refused-failure none e h = cc
refused-failure (some x) e h = cc

pub refused-answer : (o : Option Error) (a : Unit {0}) → refused o ≡ answer a → o ≡ none
refused-answer none a h = refl
refused-answer (some x) a h = cc
