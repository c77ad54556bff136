-- ===== src/Cloud/Exec/Confines.antt =====
-- The calls that code adds to a trace: one rule for each way to build code.
use ooc.Base.{ℕ, zero, suc, String, Bool, true, false, Option, none, some, ◌∷◌, if◌then◌else◌}
use ooc.Cloud.{Error}
use ooc.Cloud.Exec.{
  Call, Trace, Outcome, ok, err, panic, Reply, answer, Env, Exec, pure, fail, crash, ask, deref,
  catch, ◌>>=◌, wrap, perform, sleep, pause, maybe,
}
use ooc.Cloud.Exec.Polling.{poll_after}
use ooc.Cloud.Exec.Triple.{Triple, Ends}

-- What `Q`-calls preserve, `m` preserves: all its calls are `Q`-calls.
pub record Confined {A : Type 0} (Q : Call → Type 0) (m : Exec A) : Type 1 where
  pub at :
      (I : Trace → Type 0)
      → ((c : Call) (t : Trace) → Q c → I t → I (c ∷ t))
      → (t : Trace) → I t
      → I (m t).1

module _ {A : Type 0} {Q : Call → Type 0} where
  pub Confined-pure : (a : A) → Confined Q (pure a)
  unfolding pure
  Confined-pure a = record { at = λ I k t h. h }

  pub Confined-fail : (e : Error) → Confined Q (fail {A = A} e)
  unfolding fail
  Confined-fail e = record { at = λ I k t h. h }

  pub Confined-crash : Confined Q (crash {A = A})
  unfolding crash
  Confined-crash = record { at = λ I k t h. h }

  pub Confined-ask : (c : Call) (f : Trace → Reply A) → Q c → Confined Q (ask c f)
  unfolding ask
  Confined-ask c f q = record { at = λ I k t h. k c t q h }

  pub Confined-deref : (o : Option A) → Confined Q (deref o)
  unfolding deref
  Confined-deref none = record { at = λ I k t h. h }
  Confined-deref (some a) = record { at = λ I k t h. h }

  pub Confined-if :
      (b : Bool) (m n : Exec A) → Confined Q m → Confined Q n → Confined Q (if b then m else n)
  Confined-if true m n km kn = km
  Confined-if false m n km kn = kn

  -- code that reads the trace, such as the order of a range over a map
  pub Confined-read :
      {B : Type 0} (f : Trace → B) (m : B → Exec A)
      → ((b : B) → Confined Q (m b))
      → Confined Q (λ t. m (f t) t)
  Confined-read f m h = record { at = λ I k t. (h (f t)).at I k t }

module _ {Q : Call → Type 0} where
  pub Confined-perform : (env : Env) (c : Call) → Q c → Confined Q (perform env c)
  unfolding perform
  Confined-perform env c q = Confined-ask c _ q

module _ {A B : Type 0} {Q : Call → Type 0} where
  settled :
      (r : Outcome A) (f : Error → Exec B) (g : A → Exec B) (I : Trace → Type 0) (t : Trace)
      → ((c : Call) (t : Trace) → Q c → I t → I (c ∷ t))
      → ((e : Error) → Confined Q (f e))
      → ((a : A) → Confined Q (g a))
      → I t
      → I (catch (λ t'. (r, t')) f g t).1
  unfolding catch
  settled (ok a) f g I t k kf kg h = (kg a).at I k t h
  settled (err e) f g I t k kf kg h = (kf e).at I k t h
  settled panic f g I t k kf kg h = h

  pub Confined-catch :
      (m : Exec A) (f : Error → Exec B) (g : A → Exec B)
      → Confined Q m
      → ((e : Error) → Confined Q (f e))
      → ((a : A) → Confined Q (g a))
      → Confined Q (catch m f g)
  unfolding catch
  Confined-catch m f g km kf kg = record {
    at = λ I k t h. settled (m t).0 f g I (m t).1 k kf kg (km.at I k t h);
  }

  pub Confined-bind :
      (m : Exec A) (g : A → Exec B)
      → Confined Q m
      → ((a : A) → Confined Q (g a))
      → Confined Q (m >>= g)
  unfolding ◌>>=◌
  Confined-bind m g km kg = Confined-catch m fail g km (λ e. Confined-fail e) kg

  pub Confined-maybe :
      (o : Option A) (m : Exec B) (f : A → Exec B)
      → Confined Q m
      → ((a : A) → Confined Q (f a))
      → Confined Q (maybe o m f)
  unfolding maybe
  Confined-maybe none m f hm hf = hm
  Confined-maybe (some a) m f hm hf = hf a

module _ {A : Type 0} {Q : Call → Type 0} where
  pub Confined-wrap : (s : String) (m : Exec A) → Confined Q m → Confined Q (wrap s m)
  unfolding wrap
  Confined-wrap s m h = Confined-catch m _ pure h (λ e. Confined-fail _) (λ a. Confined-pure a)

  pub Confined-poll_after :
      (round : Exec (Option A)) (interval tries : ℕ)
      → Confined Q round
      → Q (sleep interval)
      → Confined Q (poll_after round interval tries)
  unfolding poll_after pause
  Confined-poll_after round interval zero h q = Confined-fail _
  Confined-poll_after round interval (suc tries) h q =
      Confined-bind _ _
        (Confined-bind _ _ (Confined-ask (sleep interval) (λ _. answer tt) q) (λ _. h))
        (λ seen.
          Confined-maybe seen _ _ (Confined-poll_after round interval tries h q) Confined-pure)

module _ {A : Type 0} (I : Trace → Type 0) where
  everywhere : (o : Outcome A) (t : Trace) → I t → Ends I (λ _. I) (λ _. I) o t
  everywhere (ok a) t h = h
  everywhere (err e) t h = h
  everywhere panic t h = h

  -- an invariant that such calls preserve
  pub Confined-Triple :
      {Q : Call → Type 0} (m : Exec A)
      → ((c : Call) (t : Trace) → Q c → I t → I (c ∷ t))
      → Confined Q m
      → Triple I (λ _. I) (λ _. I) I m
  Confined-Triple m k h = record { at = λ t p. everywhere (m t).0 (m t).1 (h.at I k t p) }
