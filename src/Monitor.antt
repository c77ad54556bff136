-- ===== src/Monitor.antt =====
-- Monitor (pkg/operator/monit/monitor.go): checks that count their failures, and actions that run
-- once every check has failed often enough. The checks are an interface of the source: a check
-- answers as `probe` says.
pub mod Thresholds
pub mod EtcdCheck
use ooc.Base.{
  ℕ, ◌+◌, String, Bool, true, false, not, ◌&&◌, List, [], ◌∷◌, map, ltb, str_eq, if◌then◌else◌,
}
use ooc.Cloud.Exec.{Trace, Env, Exec, pure, catch, ◌>>=◌, ◌>>◌}

-- What a check gives in a round: its rate limiter refuses, it fails, or it answers.
pub data Probe : Type 0 where
  throttled check_error : Probe
  answered : Bool → Probe

pub record ThreshedCheck : Type 0 where
  pub name : String
  pub threshold : ℕ
  pub threshed : ℕ

pub record Monitor : Type 0 where
  pub checks : List ThreshedCheck
  pub actions : List (Exec (Unit {0}))
  pub last_run : ℕ

-- NewThreshedCheck
unfoldable pub new_threshed_check : String → ℕ → ThreshedCheck
new_threshed_check name threshold = record { name = name; threshold = threshold; threshed = 0 }

-- WithCheck: a check of the same name takes the place of the old one
unfoldable pub with_check : ThreshedCheck → List ThreshedCheck → List ThreshedCheck
with_check c [] = c ∷ []
with_check c (d ∷ rest) = if str_eq d.name c.name then c ∷ rest else d ∷ with_check c rest

-- ThreshMeet
unfoldable pub thresh_meet : ThreshedCheck → Bool
thresh_meet c = ltb c.threshold c.threshed

-- the body of the loop of CheckRound
unfoldable pub check_one : Probe → ThreshedCheck → ThreshedCheck
check_one throttled c = c
check_one check_error c = c
check_one (answered true) c = record c { threshed = 0 }
check_one (answered false) c = record c { threshed = c.threshed + 1 }

-- CheckRound
unfoldable pub check_round : (String → Probe) → List ThreshedCheck → List ThreshedCheck
unfolding check_one
check_round probe checks = map (λ (c : ThreshedCheck). check_one (probe c.name) c) checks

-- meetAll
unfoldable pub meet_all : List ThreshedCheck → Bool
unfolding thresh_meet
meet_all [] = true
meet_all (c ∷ rest) = if not (thresh_meet c) then false else meet_all rest

-- The actions one after the other; an error is only logged.
unfoldable pub run_actions : List (Exec (Unit {0})) → Exec (Unit {0})
run_actions [] = pure tt
run_actions (action ∷ rest) = catch action (λ _. pure tt) pure >> run_actions rest

unfoldable pub finish_round : (Trace → String → Probe) → Monitor → Exec Monitor
unfolding check_round
finish_round probe m t = pure (record m { checks = check_round (probe t) m.checks }) t

-- The function `check` of StartMonit, which is called every ten seconds.
unfoldable pub tick : Env → (Trace → String → Probe) → Monitor → Exec Monitor
unfolding meet_all run_actions finish_round
tick env probe m t =
    if meet_all m.checks && ltb (m.last_run + 300) (env.now t)
    then (do
      run_actions m.actions
      λ t'. finish_round probe (record m { last_run = env.now t' }) t')
        t
    else finish_round probe m t
