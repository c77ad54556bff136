-- ===== src/Cloud/Exec/NoPanic.antt =====
-- Code that dereferences no nil pointer and indexes no list out of range, whatever the outside world
-- answers: one rule for each way to build code.
use ooc.Base.{
  ℕ, String, ◌≡◌, ◌≢◌, refl, Bool, true, false, Option, none, some, if◌then◌else◌, is_some,
}
use ooc.Cloud.{Error}
use ooc.Cloud.Exec.{
  Call, Trace, Outcome, ok, err, panic, Reply, answer, failure, Env, Exec, pure, fail, ask, deref,
  catch, ◌>>=◌, wrap, perform, pause, sleep, outcome, maybe,
}

pub record NoPanic {A : Type 0} (m : Exec A) : Type 0 where
  pub at : (t : Trace) → (m t).0 ≢ panic

module _ {A : Type 0} where
  pub NoPanic-pure : (a : A) → NoPanic (pure a)
  unfolding pure
  NoPanic-pure a = record { at = λ t e. cc }

  pub NoPanic-fail : (e : Error) → NoPanic (fail {A = A} e)
  unfolding fail
  NoPanic-fail x = record { at = λ t e. cc }

  outcome-ne-panic : (r : Reply A) → outcome r ≢ panic
  outcome-ne-panic (answer a) e = cc
  outcome-ne-panic (failure x) e = cc

  pub NoPanic-ask : (c : Call) (f : Trace → Reply A) → NoPanic (ask c f)
  unfolding ask
  NoPanic-ask c f = record { at = λ t. outcome-ne-panic (f t) }

  pub NoPanic-deref : (o : Option A) → is_some o ≡ true → NoPanic (deref o)
  unfolding deref
  NoPanic-deref none h = cc
  NoPanic-deref (some a) h = NoPanic-pure a

  pub NoPanic-if :
      (b : Bool) (m n : Exec A)
      → (b ≡ true → NoPanic m)
      → (b ≡ false → NoPanic n)
      → NoPanic (if b then m else n)
  NoPanic-if true m n km kn = km refl
  NoPanic-if false m n km kn = kn refl

  pub NoPanic-read : (f : Trace → A) → NoPanic (λ t. pure (f t) t)
  unfolding pure
  NoPanic-read f = record { at = λ t e. cc }

pub NoPanic-perform : (env : Env) (c : Call) → NoPanic (perform env c)
unfolding perform
NoPanic-perform env c = NoPanic-ask c _

pub NoPanic-pause : (n : ℕ) → NoPanic (pause n)
unfolding pause
NoPanic-pause n = NoPanic-ask (sleep n) (λ _. answer tt)

module _ {A B : Type 0} where
  settle-NoPanic :
      (r : Outcome A) (f : Error → Exec B) (g : A → Exec B) (t : Trace)
      → ((e : Error) → NoPanic (f e))
      → ((a : A) → r ≡ ok a → NoPanic (g a))
      → r ≢ panic
      → (catch (λ t'. (r, t')) f g t).0 ≢ panic
  unfolding catch
  settle-NoPanic (ok a) f g t kf kg h = (kg a refl).at t
  settle-NoPanic (err e) f g t kf kg h = (kf e).at t
  settle-NoPanic panic f g t kf kg h = absurd (h refl)

  -- what is known of every value that `m` returns may be used by the rest
  pub NoPanic-catch_with :
      (P : A → Type 0) (m : Exec A) (f : Error → Exec B) (g : A → Exec B)
      → NoPanic m
      → ((t : Trace) (a : A) → (m t).0 ≡ ok a → P a)
      → ((e : Error) → NoPanic (f e))
      → ((a : A) → P a → NoPanic (g a))
      → NoPanic (catch m f g)
  unfolding catch
  NoPanic-catch_with P m f g km val kf kg = record {
    at = λ t. settle-NoPanic (m t).0 f g (m t).1 kf (λ a e. kg a (val t a e)) (km.at t);
  }

  pub NoPanic-catch :
      (m : Exec A) (f : Error → Exec B) (g : A → Exec B)
      → NoPanic m
      → ((e : Error) → NoPanic (f e))
      → ((a : A) → NoPanic (g a))
      → NoPanic (catch m f g)
  NoPanic-catch m f g km kf kg =
      NoPanic-catch_with (λ _. Unit {0}) m f g km (λ _ _ _. tt) kf (λ a _. kg a)

  pub NoPanic-bind :
      (m : Exec A) (g : A → Exec B) → NoPanic m → ((a : A) → NoPanic (g a)) → NoPanic (m >>= g)
  unfolding ◌>>=◌
  NoPanic-bind m g km kg = NoPanic-catch m fail g km NoPanic-fail kg

module _ {A B : Type 0} where
  pub NoPanic-maybe :
      (o : Option A) (m : Exec B) (f : A → Exec B)
      → (o ≡ none → NoPanic m)
      → ((a : A) → o ≡ some a → NoPanic (f a))
      → NoPanic (maybe o m f)
  unfolding maybe
  NoPanic-maybe none m f km kf = km refl
  NoPanic-maybe (some a) m f km kf = kf a refl

  -- what follows a dereference knows the value
  pub NoPanic-deref_bind :
      (o : Option A) (g : A → Exec B)
      → is_some o ≡ true
      → ((a : A) → o ≡ some a → NoPanic (g a))
      → NoPanic (deref o >>= g)
  unfolding deref ◌>>=◌
  NoPanic-deref_bind none g h k = cc
  NoPanic-deref_bind (some a) g h k = k a refl

module _ {A : Type 0} where
  pub NoPanic-wrap : (s : String) (m : Exec A) → NoPanic m → NoPanic (wrap s m)
  unfolding wrap
  NoPanic-wrap s m km = NoPanic-catch m _ pure km (λ e. NoPanic-fail _) NoPanic-pure

pub ruleset no_panic_rules = (
  NoPanic-pure, NoPanic-fail, NoPanic-deref, NoPanic-if, NoPanic-catch, NoPanic-bind, NoPanic-wrap,
  NoPanic-perform, NoPanic-ask, NoPanic-pause, NoPanic-read, NoPanic-maybe,
)
