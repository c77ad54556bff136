-- ===== src/Cloud/Exec/Costs.antt =====
-- How many calls of a kind code makes at most: one rule for each way to build code.
use ooc.Base.{
  ℕ, zero, suc, ◌+◌, ◌≤◌, String, ◌≡◌, Bool, true, false, Option, none, some, [], ◌∷◌, arith,
  if◌then◌else◌,
}
use ooc.Cloud.{Error}
use ooc.Cloud.Exec.{
  Call, Trace, Outcome, ok, err, panic, Reply, answer, Exec, pure, fail, ask, catch, ◌>>=◌, wrap,
  sleep, pause, maybe,
}
use ooc.Cloud.Exec.Polling.{poll_immediate}

-- the calls of a trace that pass the test
abbrev pub count_calls : (Call → Bool) → Trace → ℕ
count_calls p [] = 0
count_calls p (c ∷ t) = (if p c then 1 else 0) + count_calls p t

-- Whether it returns, fails or panics, `m` makes at most `n` calls that pass the test.
pub record Costs {A : Type 0} (p : Call → Bool) (n : ℕ) (m : Exec A) : Type 0 where
  pub at : (t : Trace) → count_calls p (m t).1 ≤ n + count_calls p t

module _ {A : Type 0} {p : Call → Bool} where
  pub Costs-pure : (a : A) → Costs p 0 (pure a)
  unfolding pure
  Costs-pure a = record { at = λ t. omega arith }

  pub Costs-fail : (e : Error) → Costs p 0 (fail {A = A} e)
  unfolding fail
  Costs-fail e = record { at = λ t. omega arith }

  pub Costs-free : (c : Call) (f : Trace → Reply A) → p c ≡ false → Costs p 0 (ask c f)
  unfolding ask
  Costs-free c f free = record { at = λ t. rw free (omega arith) }

  pub Costs-ask : (c : Call) (f : Trace → Reply A) → Costs p 1 (ask c f)
  unfolding ask
  Costs-ask c f = record { at = λ t. ground arith }

  pub Costs-if :
      (b : Bool) (n : ℕ) (m k : Exec A) → Costs p n m → Costs p n k → Costs p n (if b then m else k)
  Costs-if true n m k hm hk = hm
  Costs-if false n m k hm hk = hk

  pub Costs-le : (n n' : ℕ) (m : Exec A) → Costs p n m → n ≤ n' → Costs p n' m
  Costs-le n n' m h le = record { at = λ t. omega (arith, h.at t, le) }

module _ {A B : Type 0} {p : Call → Bool} where
  settled :
      (r : Outcome A) (f : Error → Exec B) (g : A → Exec B) (n k : ℕ) (t t' : Trace)
      → count_calls p t' ≤ n + count_calls p t
      → ((e : Error) → Costs p k (f e))
      → ((a : A) → Costs p k (g a))
      → count_calls p (catch (λ t. (r, t')) f g t).1 ≤ n + k + count_calls p t
  unfolding catch
  settled (ok a) f g n k t t' h kf kg = omega (arith, (kg a).at t')
  settled (err e) f g n k t t' h kf kg = omega (arith, (kf e).at t')
  settled panic f g n k t t' h kf kg = omega arith

  pub Costs-catch :
      (n k : ℕ) (m : Exec A) (f : Error → Exec B) (g : A → Exec B)
      → Costs p n m
      → ((e : Error) → Costs p k (f e))
      → ((a : A) → Costs p k (g a))
      → Costs p (n + k) (catch m f g)
  unfolding catch
  Costs-catch n k m f g km kf kg = record {
    at = λ t. settled (m t).0 f g n k t (m t).1 (km.at t) kf kg;
  }

  pub Costs-bind :
      (n k : ℕ) (m : Exec A) (g : A → Exec B)
      → Costs p n m
      → ((a : A) → Costs p k (g a))
      → Costs p (n + k) (m >>= g)
  unfolding ◌>>=◌
  Costs-bind n k m g km kg =
      Costs-catch n k m fail g km (λ e. Costs-le 0 k _ (Costs-fail e) (omega arith)) kg

  -- only the rest has a price
  pub Costs-rest :
      (n : ℕ) (m : Exec A) (g : A → Exec B)
      → Costs p 0 m
      → ((a : A) → Costs p n (g a))
      → Costs p n (m >>= g)
  Costs-rest n m g km kg = Costs-le (0 + n) n _ (Costs-bind 0 n m g km kg) (omega arith)

  -- only the first part has a price
  pub Costs-first :
      (n : ℕ) (m : Exec A) (f : Error → Exec B) (g : A → Exec B)
      → Costs p n m
      → ((e : Error) → Costs p 0 (f e))
      → ((a : A) → Costs p 0 (g a))
      → Costs p n (catch m f g)
  Costs-first n m f g km kf kg = Costs-le (n + 0) n _ (Costs-catch n 0 m f g km kf kg) (omega arith)

  pub Costs-last :
      (n : ℕ) (m : Exec A) (g : A → Exec B)
      → Costs p n m
      → ((a : A) → Costs p 0 (g a))
      → Costs p n (m >>= g)
  unfolding ◌>>=◌
  Costs-last n m g km kg = Costs-first n m fail g km (λ e. Costs-fail e) kg

  pub Costs-maybe :
      (n : ℕ) (o : Option A) (m : Exec B) (f : A → Exec B)
      → Costs p n m
      → ((a : A) → Costs p n (f a))
      → Costs p n (maybe o m f)
  unfolding maybe
  Costs-maybe n none m f hm hf = hm
  Costs-maybe n (some a) m f hm hf = hf a

module _ {A : Type 0} {p : Call → Bool} where
  pub Costs-wrap : (n : ℕ) (s : String) (m : Exec A) → Costs p n m → Costs p n (wrap s m)
  unfolding wrap
  Costs-wrap n s m h = Costs-first n m _ pure h (λ e. Costs-fail _) (λ a. Costs-pure a)

  -- a loop whose rounds, and the sleep between them, make no such call
  pub Costs-poll :
      (round : Exec (Option A)) (interval tries : ℕ)
      → Costs p 0 round
      → p (sleep interval) ≡ false
      → Costs p 0 (poll_immediate round interval tries)
  unfolding poll_immediate pause
  Costs-poll round interval zero h free = Costs-fail _
  Costs-poll round interval (suc tries) h free = Costs-rest 0 round _ h (λ seen.
      Costs-maybe 0 seen _ _
        (Costs-rest 0 _ _ (Costs-free (sleep interval) (λ _. answer tt) free)
          (λ _. Costs-poll round interval tries h free))
        (λ a. Costs-pure a))
