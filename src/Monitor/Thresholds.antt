-- ===== src/Monitor/Thresholds.antt =====
-- When the monitor runs its actions.
use ooc.Base.{
  ℕ, ◌+◌, ◌<◌, String, ◌≡◌, ◌≢◌, refl, true, false, ◌&&◌, List, [], ◌∷◌, ltb, arith, Bool-cases,
  inl, inr, ◌↔◌,
}
use ooc.Cloud.Exec.{Trace, Env, pure}
use ooc.Monitor.{
  Probe, throttled, check_error, answered, ThreshedCheck, Monitor, new_threshed_check, check_one,
  thresh_meet, meet_all, tick, finish_round,
}

-- A history of a check has the newest answer first. Its streak is the number of bad answers since the
-- last good one; rounds without an answer do not count.
abbrev pub streak : List Probe → ℕ
streak [] = 0
streak (throttled ∷ rest) = streak rest
streak (check_error ∷ rest) = streak rest
streak (answered true ∷ rest) = 0
streak (answered false ∷ rest) = streak rest + 1

abbrev pub after_rounds : List Probe → ThreshedCheck → ThreshedCheck
after_rounds [] c = c
after_rounds (p ∷ rest) c = check_one p (after_rounds rest c)

module _ (name : String) (threshold : ℕ) where
  abbrev fresh : ThreshedCheck
  fresh = new_threshed_check name threshold

  counts : (ps : List Probe) → (after_rounds ps fresh).threshed ≡ streak ps
  unfolding check_one new_threshed_check
  counts [] = refl
  counts (throttled ∷ ps) = counts ps
  counts (check_error ∷ ps) = counts ps
  counts (answered true ∷ ps) = refl
  counts (answered false ∷ ps) = omega (arith, counts ps)

  keeps_threshold : (ps : List Probe) → (after_rounds ps fresh).threshold ≡ threshold
  unfolding check_one new_threshed_check
  keeps_threshold [] = refl
  keeps_threshold (throttled ∷ ps) = keeps_threshold ps
  keeps_threshold (check_error ∷ ps) = keeps_threshold ps
  keeps_threshold (answered true ∷ ps) = keeps_threshold ps
  keeps_threshold (answered false ∷ ps) = keeps_threshold ps

-- A check that starts from zero meets its threshold exactly if it has answered badly more often than
-- its threshold since its last good answer; throttled and failed rounds count for nothing.
pub thresh_meet_iff :
    (name : String) (threshold : ℕ) (ps : List Probe)
    → (thresh_meet (after_rounds ps (new_threshed_check name threshold)) ≡ true)
      ↔ (threshold < streak ps)
unfolding thresh_meet
thresh_meet_iff name threshold ps = (
  ground (arith, counts name threshold ps, keeps_threshold name threshold ps),
  ground (arith, counts name threshold ps, keeps_threshold name threshold ps),
)

-- A tick makes a call of the outside world only if every check meets its threshold and the last run
-- is more than five minutes ago.
pub tick-quiet :
    (env : Env) (probe : Trace → String → Probe) (m : Monitor) (t : Trace)
    → (tick env probe m t).1 ≢ t
    → (meet_all m.checks ≡ true) × (m.last_run + 300 < env.now t)
unfolding tick finish_round pure
tick-quiet env probe m t acts =
    elim (Bool-cases (meet_all m.checks && ltb (m.last_run + 300) (env.now t))) [
      | inl gate ↦ (ground arith, ground arith)
      | inr shut ↦ absurd (acts (rw shut refl))
    ]
