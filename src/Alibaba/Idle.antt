-- ===== src/Alibaba/Idle.antt =====
-- The operations on the group of the masters and on a group of a node pool (scaling.go) change a group
-- only when no activity of a group is in progress.
use ooc.Base.{
  ℕ, ℤ, String, ◌==◌, ◌≡◌, refl, true, false, not, Option, none, some, List, [], ◌∷◌, find, arith,
  contains,
}
use ooc.Cloud.Sdk.{SdkCall, describe_activities, execute_rule, remove_instances, modify_rule}
use ooc.Cloud.Exec.{Trace, answer, Exec, pure, crash, deref, sdk, message}
use ooc.Cloud.Exec.Hoare.{
  Hoare, Hoare-ends, Hoare-post, Hoare-deref, Hoare-bind, Hoare-if, Hoare-fail, Hoare-crash,
  Hoare-pure, Hoare-ask, Hoare-wrap, Hoare-catch,
}
use ooc.Help.{lookup}
use ooc.Alibaba.{Sdk, ScalingRule, issue, stack_value}
use ooc.Alibaba.Scaling.{
  activities_done, wait_activity, wait_enabled, set_rule, only_rule, scale_master_group,
  ensure_rule, is_node_scale, first, scale_node_group, remove_scaling_group_ecs,
}
use ooc.Alibaba.Waits.{issue-Hoare, poll_state-Hoare}

-- The newest call asked for the activities of the group in progress, and the answer was that there are
-- none.
abbrev pub IdleNow : Sdk → String → Trace → Type 0
IdleNow api gid [] = ⊥
IdleNow api gid (sdk (describe_activities g) ∷ t) = (g ≡ gid) × (api.activities t g ≡ answer 0)
IdleNow api gid (c ∷ t) = ⊥

-- Each execution of a rule came right after a group was seen idle, and each removal of machines from a
-- group right after that group was.
abbrev pub IsCalm : Sdk → Trace → Type 0
IsCalm api [] = Unit
IsCalm api (sdk (execute_rule ari) ∷ t) = ((gid : String) × IdleNow api gid t) × IsCalm api t
IsCalm api (sdk (remove_instances gid id) ∷ t) = IdleNow api gid t × IsCalm api t
IsCalm api (c ∷ t) = IsCalm api t

module _ (api : Sdk) where
  abbrev Idle : String → Trace → Type 0
  Idle gid t = IsCalm api t × IdleNow api gid t

  IsCalm-request :
      (c : SdkCall)
      → ((t : Trace) → IsCalm api t → IsCalm api (sdk c ∷ t))
      → Hoare (IsCalm api) (IsCalm api) (issue api c) (λ _. IsCalm api)
  IsCalm-request c keep = issue-Hoare api c keep keep

  is_zero : (n : ℕ) → (n == 0) ≡ true → n ≡ 0
  is_zero n h = ground arith

  done-Hoare :
      (gid : String) (s : Unit {0})
      → Hoare
          (IsCalm api)
          (IsCalm api)
          (activities_done api gid s)
          (λ r t. IsCalm api t × (r.0 ≡ true → Idle gid t))
  unfolding activities_done
  done-Hoare gid s =
      Hoare-catch {R = λ n t. IsCalm api t × (n ≡ 0 → IdleNow api gid t)} _ _ _
        (Hoare-ask _ _ (λ t i. i) (λ t n i e. (i, λ z. (refl, rw (← z) e))))
        (λ _. Hoare-pure (false, tt) (λ t i. (i, λ e. cc)))
        (λ n. Hoare-pure (n == 0, tt) (λ t h. (h.0, λ e. (h.0, h.1 (is_zero n e)))))

  wait-Hoare :
      (gid : String) → Hoare (IsCalm api) (IsCalm api) (wait_activity api gid) (λ _. Idle gid)
  unfolding wait_activity
  wait-Hoare gid =
      poll_state-Hoare (IsCalm api) (λ _. Idle gid) 10 (activities_done api gid) (λ t i. i)
        (done-Hoare gid) _ tt

  wait-IsCalm :
      (gid : String) → Hoare (IsCalm api) (IsCalm api) (wait_activity api gid) (λ _. IsCalm api)
  wait-IsCalm gid = Hoare-post _ (λ a t i. i.0) (wait-Hoare gid)

  enabled-Hoare :
      (gid : String) → Hoare (IsCalm api) (IsCalm api) (wait_enabled api gid) (λ _. Idle gid)
  unfolding wait_enabled
  enabled-Hoare gid =
      Hoare-catch _ _ pure (wait-Hoare gid) (λ _. Hoare-fail _ (λ t i. i))
        (λ a. Hoare-pure a (λ t i. i))

  Calm : {A : Type 0} → Exec A → Type 0
  Calm m = Hoare (IsCalm api) (IsCalm api) m (λ _. IsCalm api)

  value-Calm : (key : String) → Calm (stack_value api key)
  unfolding stack_value Calm
  value-Calm key =
      elim api.stack
        as (λ o.
          Hoare (IsCalm api) (IsCalm api)
            (elim o [ none ↦ crash | some stack ↦ deref (lookup key stack) ]) (λ _. IsCalm api)) [
              | none ↦ Hoare-crash (λ t i. i)
              | some stack ↦ Hoare-deref (lookup key stack) (λ t i. i) (λ t a i. i)
            ]

  rule-Calm : (id : String) (desired : ℤ) → Calm (set_rule api id desired)
  unfolding set_rule Calm
  rule-Calm id desired = Hoare-wrap _ _ (IsCalm-request (modify_rule id desired) (λ t i. i))

  only-Calm : (id : String) (rules : List ScalingRule) → Calm (only_rule api id rules)
  unfolding only_rule Calm
  only-Calm id [] = Hoare-fail _ (λ t i. i)
  only-Calm id (r ∷ []) = Hoare-pure r (λ t i. i)
  only-Calm id (r ∷ r' ∷ rules) = Hoare-fail _ (λ t i. i)

  execute-Hoare :
      (gid ari : String)
      → Hoare (IsCalm api) (Idle gid) (issue api (execute_rule ari)) (λ _. IsCalm api)
  execute-Hoare gid ari =
      issue-Hoare api (execute_rule ari) (λ t i. ((gid, i.1), i.0)) (λ t i. ((gid, i.1), i.0))

  master-Calm : (desired : ℤ) → Calm (scale_master_group api desired)
  unfolding scale_master_group Calm
  master-Calm desired = Hoare-bind _ _ (value-Calm "k8s_master_sg") (λ sgid.
      Hoare-bind _ _ (value-Calm "k8s_master_srule") (λ srid.
        Hoare-bind _ _ (rule-Calm srid desired) (λ _.
          Hoare-bind {R = λ _. IsCalm api} _ _
            (Hoare-wrap _ _ (Hoare-ask _ _ (λ t i. i) (λ t a i e. i)))
            (λ rules. Hoare-bind _ _ (only-Calm srid rules) (λ rule.
              Hoare-bind _ _ (enabled-Hoare sgid) (λ _.
                Hoare-bind {R = λ _. IsCalm api} _ _
                  (Hoare-catch _ _ pure (execute-Hoare sgid rule.rule_ari)
                    (λ e.
                      Hoare-if (not (contains (message e) "IncorrectCapacity.NoChange")) _ _
                        (λ _. Hoare-fail _ (λ t i. i)) (λ _. Hoare-pure tt (λ t i. i)))
                    (λ a. Hoare-pure a (λ t i. i)))
                  (λ _. wait-IsCalm sgid)))))))

  ensure-Calm :
      (gid : String) (desired : ℤ) (o : Option ScalingRule) → Calm (ensure_rule api gid desired o)
  unfolding ensure_rule Calm
  ensure-Calm gid desired none =
      Hoare-bind {R = λ _. IsCalm api} _ _
        (Hoare-wrap _ _ (Hoare-ask _ _ (λ t i. i) (λ t a i e. i))) (λ _. Hoare-pure tt (λ t i. i))
  ensure-Calm gid desired (some r) = rule-Calm r.rule_id desired

  node-Calm : (gid : String) (desired : ℤ) → Calm (scale_node_group api gid desired)
  unfolding scale_node_group Calm
  node-Calm gid desired =
      Hoare-bind {R = λ _. IsCalm api} _ _
        (Hoare-wrap _ _ (Hoare-ask _ _ (λ t i. i) (λ t a i e. i)))
        (λ rules. Hoare-bind _ _ (ensure-Calm gid desired (find (is_node_scale gid) rules)) (λ _.
          Hoare-bind _ _ (enabled-Hoare gid) (λ _.
            Hoare-bind {R = λ _. Idle gid} _ _ (Hoare-deref (first rules) (λ t i. i.0) (λ t a i. i))
              (λ rule.
                Hoare-bind _ _ (Hoare-wrap _ _ (execute-Hoare gid rule.rule_ari))
                  (λ _. wait-IsCalm gid)))))

  remove-Calm : (ecs : String) → Calm (remove_scaling_group_ecs api ecs)
  unfolding remove_scaling_group_ecs Calm
  remove-Calm ecs = Hoare-bind _ _ (value-Calm "k8s_master_sg") (λ sgid.
      Hoare-bind _ _ (enabled-Hoare sgid) (λ _.
        Hoare-bind _ _
          (Hoare-wrap _ _
            (issue-Hoare api (remove_instances sgid ecs) (λ t i. (i.1, i.0)) (λ t i. (i.1, i.0))))
          (λ _. wait-IsCalm sgid)))

  -- ScaleMasterGroup, ScaleNodeGroup and RemoveScalingGroupECS, whatever the cloud answers and however
  -- they end, execute a scaling rule only right after a group was seen with no activity in progress,
  -- and remove a machine from a group only right after that group was.
  pub scaling-IsCalm :
      (gid ecs : String) (desired : ℤ) (t : Trace)
      → IsCalm api t
      → IsCalm api (scale_master_group api desired t).1
        × IsCalm api (scale_node_group api gid desired t).1
        × IsCalm api (remove_scaling_group_ecs api ecs t).1
  unfolding Calm
  scaling-IsCalm gid ecs desired t h = (
    Hoare-ends (IsCalm api) _ (master-Calm desired) t h,
    Hoare-ends (IsCalm api) _ (node-Calm gid desired) t h,
    Hoare-ends (IsCalm api) _ (remove-Calm ecs) t h,
  )
