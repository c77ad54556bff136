-- ===== src/Alibaba/Waits.antt =====
-- WaitECS (scaling.go) ends, after so many requests; what is known when it or a poll ends well.
use ooc.Base.{
  ℕ, zero, suc, ◌+◌, ◌-◌, ◌*◌, ◌/◌, ◌≤◌, ◌<◌, String, ◌==◌, leb, ◌≡◌, ◌≢◌, refl, Bool, true, false,
  [], ◌∷◌, length, str_eq, arith, eq_iff, Bool-cases, inl, inr, if◌then◌else◌,
}
use ooc.Cloud.Sdk.{SdkCall, describe_instance}
use ooc.Cloud.Exec.{
  Trace, Outcome, panic, Reply, answer, failure, Exec, fail, ask, catch, ◌>>=◌, sdk, pause, sleep,
  refused,
}
use ooc.Cloud.Exec.Hoare.{
  Hoare, Hoare-bind, Hoare-if, Hoare-fail, Hoare-pure, Hoare-crash, Hoare-ask, Hoare-pause,
}
use ooc.Alibaba.{Sdk, describe, status_rounds, wait_ecs, wait_timeout, issue, poll_state}

-- the seconds that code has slept
abbrev pub slept : Trace → ℕ
slept [] = 0
slept (sleep n ∷ t) = n + slept t
slept (c ∷ t) = slept t

-- No panic, `rounds` pairs of calls at most, and `seconds` of sleep at most.
abbrev pub IsWithin : ℕ → ℕ → Trace → Outcome (Unit {0}) × Trace → Type 0
IsWithin rounds seconds t (r, t') =
    (r ≢ panic) × (length t' ≤ length t + 2 * rounds) × (slept t' ≤ slept t + seconds)

leb-false : (a b : ℕ) → leb a b ≡ false → b < a
leb-false a b h = ground arith

module _ (api : Sdk) (id status : String) where
  round :
      (r : Reply String) (fuel timeout : ℕ) (t : Trace)
      → api.status_of t id ≡ r
      → 0 < timeout
      → (5 < timeout
          → IsWithin
              ((timeout - 5 + 4) / 5)
              (5 * ((timeout - 5 + 4) / 5))
              (sleep 5 ∷ sdk (describe_instance id) ∷ t)
              (status_rounds api id status fuel
                (timeout - 5)
                (sleep 5 ∷ sdk (describe_instance id) ∷ t)))
      → IsWithin
          ((timeout + 4) / 5)
          (5 * ((timeout + 4) / 5))
          t
          (status_rounds api id status (suc fuel) timeout t)
  unfolding status_rounds describe ask ◌>>=◌ catch fail pause
  round (failure e) fuel timeout t h pos ih = rw h ((λ p. cc), omega arith, omega arith)
  round (answer s) fuel timeout t h pos ih = rw h (elim (Bool-cases (str_eq s status)) [
    | inl same ↦ rw same ((λ p. cc), omega arith, omega arith)
    | inr other ↦ rw other (elim (Bool-cases (leb timeout 5)) [
      | inl over ↦ rw over ((λ p. cc), omega arith, omega arith)
      | inr left ↦ rw left (
          let more = ih (ground arith) in
          let five = leb-false timeout 5 left in (more.0, omega arith, omega arith))
    ])
  ])

  within_rounds :
      (fuel timeout : ℕ) (t : Trace)
      → timeout < fuel
      → 0 < timeout
      → IsWithin
          ((timeout + 4) / 5)
          (5 * ((timeout + 4) / 5))
          t
          (status_rounds api id status fuel timeout t)
  within_rounds zero timeout t h pos = absurd (omega arith)
  within_rounds (suc fuel) timeout t h pos =
      round (api.status_of t id) fuel timeout t refl pos
        (λ more. within_rounds fuel (timeout - 5) _ (omega arith) (omega arith))

  -- WaitECS with a timeout always ends: it asks for the status once in five seconds of the timeout at
  -- most, sleeps as often, so for no longer than the timeout rounded up to five seconds, and does not
  -- panic.
  pub wait_ecs-IsWithin :
      (timeout : ℕ) (t : Trace)
      → 0 < timeout
      → IsWithin ((timeout + 4) / 5) (5 * ((timeout + 4) / 5)) t (wait_ecs api id status timeout t)
  unfolding wait_ecs
  wait_ecs-IsWithin timeout t pos = ground (arith, within_rounds (suc timeout) timeout t)

  module _ (I Q : Trace → Type 0) (keep : (t : Trace) → I t → I (sdk (describe_instance id) ∷ t))
      (rest : (n : ℕ) (t : Trace) → I t → I (sleep n ∷ t))
      (seen : (t : Trace)
        → I t
        → api.status_of t id ≡ answer status
        → Q (sleep 5 ∷ sdk (describe_instance id) ∷ t)) where
    -- The status is the answer to the newest request.
    Observed : String → Trace → Type 0
    Observed s t = I t × (s ≡ status → Q (sleep 5 ∷ t))

    rounds-Hoare :
        (fuel timeout : ℕ) → Hoare I I (status_rounds api id status fuel timeout) (λ _. Q)
    unfolding status_rounds describe Observed
    rounds-Hoare zero timeout = Hoare-crash (λ t i. i)
    rounds-Hoare (suc fuel) timeout =
        Hoare-bind {R = Observed} _ _
          (Hoare-ask _ _ keep (λ t s i e. (keep t i, λ same. seen t i (rw (← same) e))))
          (λ s.
            Hoare-if (str_eq s status) _ _
              (λ same. Hoare-pause 5 (λ t o. rest 5 t o.0) (λ t o. o.1 ((eq_iff s status).0 same)))
              (λ other.
                Hoare-if (leb timeout 5) (fail (wait_timeout id status)) _
                  (λ over. Hoare-fail _ (λ t o. o.0))
                  (λ left.
                    Hoare-bind {R = λ _. I} _ _
                      (Hoare-pause 5 (λ t o. rest 5 t o.0) (λ t o. rest 5 t o.0))
                      (λ _. rounds-Hoare fuel (timeout - 5)))))

    -- WaitECS that ends well has just seen the status.
    pub wait_ecs-Hoare : (timeout : ℕ) → Hoare I I (wait_ecs api id status timeout) (λ _. Q)
    unfolding wait_ecs
    wait_ecs-Hoare timeout =
        let left = if timeout == 0 then 120 else timeout in rounds-Hoare (suc left) left

-- a request of which only the error is read
pub issue-Hoare :
    {I P : Trace → Type 0} {Q : Unit {0} → Trace → Type 0} (api : Sdk) (c : SdkCall)
    → ((t : Trace) → P t → I (sdk c ∷ t))
    → ((t : Trace) → P t → Q tt (sdk c ∷ t))
    → Hoare I P (issue api c) Q
unfolding issue
issue-Hoare api c i q = Hoare-ask (sdk c) (λ t. refused (api.refusal t c)) i (λ t a p e. q t p)

-- a poll whose condition keeps `I`, with `Q` for what it has found in the end
pub poll_state-Hoare :
    {S : Type 0} (I : Trace → Type 0) (Q : S → Trace → Type 0) (interval : ℕ)
    (condition : S → Exec (Bool × S))
    → ((t : Trace) → I t → I (sleep interval ∷ t))
    → ((s : S) → Hoare I I (condition s) (λ r t. I t × (r.0 ≡ true → Q r.1 t)))
    → (tries : ℕ) (s : S) → Hoare I I (poll_state tries interval condition s) Q
unfolding poll_state
poll_state-Hoare I Q interval condition rest step zero s = Hoare-fail _ (λ t i. i)
poll_state-Hoare I Q interval condition rest step (suc tries) s = Hoare-bind _ _ (step s) (λ r.
    Hoare-if r.0 _ _ (λ done. Hoare-pure r.1 (λ t h. h.1 done))
      (λ more.
        Hoare-bind {R = λ _. I} _ _ (Hoare-pause interval (λ t h. rest t h.0) (λ t h. rest t h.0))
          (λ _. poll_state-Hoare I Q interval condition rest step tries r.1)))
