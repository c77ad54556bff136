-- ===== src/Cloud/Exec/Emits.antt =====
-- Which calls code makes, one rule for each way to build code.
use ooc.Base.{
  ℕ, String, ◌≡◌, refl, Bool, true, false, Option, none, some, List, [], ◌∷◌, if◌then◌else◌, All,
}
use ooc.Cloud.{Error}
use ooc.Cloud.Exec.{
  Call, Trace, Outcome, ok, err, panic, Reply, Env, Exec, pure, fail, crash, ask, deref, catch,
  ◌>>=◌, wrap, perform, sleep, pause, maybe,
}

-- Every call that `m` makes satisfies `Q`, whether it returns, fails or panics.
pub record Emits {A : Type 0} (Q : Call → Type 0) (m : Exec A) : Type 0 where
  pub at : (t : Trace) → All Q t → All Q (m t).1

module _ {A : Type 0} {Q : Call → Type 0} where
  pub Emits-pure : (a : A) → Emits Q (pure a)
  unfolding pure
  Emits-pure a = record { at = λ t h. h }

  pub Emits-read : (f : Trace → A) → Emits Q (λ t. pure (f t) t)
  unfolding pure
  Emits-read f = record { at = λ t h. h }

  pub Emits-fail : (e : Error) → Emits Q (fail {A = A} e)
  unfolding fail
  Emits-fail e = record { at = λ t h. h }

  pub Emits-crash : Emits Q (crash {A = A})
  unfolding crash
  Emits-crash = record { at = λ t h. h }

  pub Emits-ask : (c : Call) (f : Trace → Reply A) → Q c → Emits Q (ask c f)
  unfolding ask
  Emits-ask c f safe = record { at = λ t h. (safe, h) }

  pub Emits-deref : (o : Option A) → Emits Q (deref o)
  unfolding deref
  Emits-deref none = record { at = λ t h. h }
  Emits-deref (some a) = record { at = λ t h. h }

  pub Emits-if :
      (b : Bool) (m n : Exec A)
      → (b ≡ true → Emits Q m)
      → (b ≡ false → Emits Q n)
      → Emits Q (if b then m else n)
  Emits-if true m n km kn = km refl
  Emits-if false m n km kn = kn refl

module _ {Q : Call → Type 0} where
  pub Emits-perform : (env : Env) (c : Call) → Q c → Emits Q (perform env c)
  unfolding perform
  Emits-perform env c safe = record { at = λ t h. (safe, h) }

  pub Emits-pause : (n : ℕ) → Q (sleep n) → Emits Q (pause n)
  unfolding pause
  Emits-pause n safe = record { at = λ t h. (safe, h) }

module _ {A B : Type 0} {Q : Call → Type 0} where
  settle-Emits :
      (r : Outcome A) (f : Error → Exec B) (g : A → Exec B) (t : Trace)
      → ((e : Error) → Emits Q (f e))
      → ((a : A) → Emits Q (g a))
      → All Q t
      → All Q (catch (λ t'. (r, t')) f g t).1
  unfolding catch
  settle-Emits (ok a) f g t kf kg h = (kg a).at t h
  settle-Emits (err e) f g t kf kg h = (kf e).at t h
  settle-Emits panic f g t kf kg h = h

  pub Emits-catch :
      (m : Exec A) (f : Error → Exec B) (g : A → Exec B)
      → Emits Q m
      → ((e : Error) → Emits Q (f e))
      → ((a : A) → Emits Q (g a))
      → Emits Q (catch m f g)
  unfolding catch
  Emits-catch m f g km kf kg = record {
    at = λ t h. let (r, t') = m t in settle-Emits r f g t' kf kg (km.at t h);
  }

  pub Emits-bind :
      (m : Exec A) (g : A → Exec B) → Emits Q m → ((a : A) → Emits Q (g a)) → Emits Q (m >>= g)
  unfolding ◌>>=◌
  Emits-bind m g km kg = Emits-catch m fail g km Emits-fail kg

module _ {A B : Type 0} {Q : Call → Type 0} where
  known_next :
      (r : Outcome A) (g : A → Exec B) (t t' : Trace)
      → ((a : A) → r ≡ ok a → Emits Q (g a))
      → All Q t'
      → All Q (catch (λ (_ : Trace). (r, t')) fail g t).1
  unfolding catch fail
  known_next (ok a) g t t' k h = (k a refl).at t' h
  known_next (err e) g t t' k h = h
  known_next panic g t t' k h = h

  -- what follows a step knows how the step has ended
  pub Emits-known :
      (m : Exec A) (g : A → Exec B)
      → Emits Q m
      → ((t : Trace) (a : A) → (m t).0 ≡ ok a → Emits Q (g a))
      → Emits Q (m >>= g)
  unfolding ◌>>=◌ catch
  Emits-known m g km kg = record {
    at = λ t h. known_next (m t).0 g t (m t).1 (λ a e. kg t a e) (km.at t h);
  }

module _ {A B : Type 0} {Q : Call → Type 0} where
  pub Emits-maybe :
      (o : Option A) (m : Exec B) (f : A → Exec B)
      → Emits Q m
      → ((a : A) → o ≡ some a → Emits Q (f a))
      → Emits Q (maybe o m f)
  unfolding maybe
  Emits-maybe none m f km kf = km
  Emits-maybe (some a) m f km kf = kf a refl

  -- what follows a dereference knows the value
  pub Emits-deref_bind :
      (o : Option A) (g : A → Exec B)
      → ((a : A) → o ≡ some a → Emits Q (g a))
      → Emits Q (deref o >>= g)
  unfolding deref ◌>>=◌
  Emits-deref_bind none g k = record { at = λ t h. h }
  Emits-deref_bind (some a) g k = k a refl

module _ {A : Type 0} {Q : Call → Type 0} where
  pub Emits-wrap : (s : String) (m : Exec A) → Emits Q m → Emits Q (wrap s m)
  unfolding wrap
  Emits-wrap s m km = Emits-catch m _ pure km (λ e. Emits-fail _) Emits-pure

pub ruleset emits_rules = (
  Emits-pure, Emits-fail, Emits-crash, Emits-deref, Emits-if, Emits-catch, Emits-bind, Emits-wrap,
  Emits-perform, Emits-ask, Emits-pause, Emits-read, Emits-maybe, refl,
)
