-- ===== src/Cloud/Exec/Success.antt =====
-- What is known of the steps of code that has returned a value.
use ooc.Base.{◌≡◌, refl, ◌⊎◌, inl, inr, String}
use ooc.Cloud.{Error}
use ooc.Cloud.Exec.{Trace, Outcome, ok, err, panic, Exec, pure, fail, catch, ◌>>=◌, wrap}

pub ok-inj : {A : Type 0} (a b : A) → ok a ≡ ok b → a ≡ b
ok-inj a b h = cc

-- The first step has returned `a`, and the rest, begun after it, has returned `b`.
abbrev pub Then : {A B : Type 0} → Exec A → (A → Exec B) → Trace → B → Type 0
Then {A} m g t b = (a : A) × (t' : Trace) × (m t ≡ (ok a, t')) × ((g a t').0 ≡ ok b)

module _ {A B : Type 0} where
  settled :
      (r : Outcome A × Trace) (m : Exec A) (g : A → Exec B) (t : Trace) (b : B)
      → m t ≡ r
      → (catch (λ _. r) fail g t).0 ≡ ok b
      → Then m g t b
  unfolding catch fail
  settled (ok a, t') m g t b e h = (a, t', e, h)
  settled (err x, t') m g t b e h = cc
  settled (panic, t') m g t b e h = cc

  pub bind-Then :
      (m : Exec A) (g : A → Exec B) (t : Trace) (b : B) → ((m >>= g) t).0 ≡ ok b → Then m g t b
  unfolding ◌>>=◌ catch
  bind-Then m g t b h = settled (m t) m g t b refl h

module _ {A : Type 0} where
  wrapped_ok :
      (s : String) (r : Outcome A × Trace) (m : Exec A) (t t' : Trace) (a : A)
      → m t ≡ r
      → wrap s (λ _. r) t ≡ (ok a, t')
      → m t ≡ (ok a, t')
  unfolding wrap catch fail pure
  wrapped_ok s (ok b, t'') m t t' a e h = cc
  wrapped_ok s (err x, t'') m t t' a e h = cc
  wrapped_ok s (panic, t'') m t t' a e h = cc

  pub wrap-ok :
      (s : String) (m : Exec A) (t t' : Trace) (a : A) → wrap s m t ≡ (ok a, t') → m t ≡ (ok a, t')
  unfolding wrap catch
  wrap-ok s m t t' a h = wrapped_ok s (m t) m t t' a refl h

-- The first step has failed with `e`, and its handler, begun after it, has returned `b`.
abbrev pub Rescued : {A B : Type 0} → Exec A → (Error → Exec B) → Trace → B → Type 0
Rescued m f t b = (e : Error) × (t' : Trace) × (m t ≡ (err e, t')) × ((f e t').0 ≡ ok b)

module _ {A B : Type 0} where
  caught :
      (r : Outcome A × Trace) (m : Exec A) (f : Error → Exec B) (g : A → Exec B) (t : Trace) (b : B)
      → m t ≡ r
      → (catch (λ _. r) f g t).0 ≡ ok b
      → Then m g t b ⊎ Rescued m f t b
  unfolding catch
  caught (ok a, t') m f g t b e h = inl (a, t', e, h)
  caught (err x, t') m f g t b e h = inr (x, t', e, h)
  caught (panic, t') m f g t b e h = cc

  pub catch-Then :
      (m : Exec A) (f : Error → Exec B) (g : A → Exec B) (t : Trace) (b : B)
      → (catch m f g t).0 ≡ ok b
      → Then m g t b ⊎ Rescued m f t b
  unfolding catch
  catch-Then m f g t b h = caught (m t) m f g t b refl h
