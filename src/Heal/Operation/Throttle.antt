-- ===== src/Heal/Operation/Throttle.antt =====
-- When Reset (operation.go) leaves an instance alone.
use ooc.Base.{
  String, ◌≡◌, true, false, none, some, ◌∷◌, arith, Bool-cases, inl, inr, ◌⊎◌, Option-cases,
}
use ooc.Cloud.{Instance, retry}
use ooc.Cloud.Exec.{
  Trace, Outcome, err, Env, pure, fail, deref, maybe, ask, perform, pause, ◌>>=◌, sleep, tag_ecs,
}
use ooc.Help.{lookup, after}
use ooc.Heal.Triple.{NodeInfo, Triple}
use ooc.Heal.Operation.{admit_ecs, reset_grown, reset, wdrip_last_update}

-- The entry is left alone for a minute; at most the instance gets the tag from which its next
-- re-initialisation is timed.
abbrev pub IsRefused : Instance → Trace → Outcome (Unit {0}) × Trace → Type 0
IsRefused i t r =
    (r.0 ≡ err (retry 60))
    × ((r.1 ≡ t) ⊎ (r.1 ≡ sleep 60 ∷ t) ⊎ (r.1 ≡ tag_ecs i.id wdrip_last_update ∷ t))

-- The instance is too young, was re-initialised too recently, or has no tag yet.
abbrev pub IsThrottled : Env → Trace → Instance → Type 0
IsThrottled env t i =
    (after env t i.created_at 300 ≡ false)
    ⊎ (lookup wdrip_last_update i.tags ≡ none)
    ⊎ ((stamp : String) × (lookup wdrip_last_update i.tags ≡ some stamp)
        × (after env t stamp 180 ≡ false))

module _ (env : Env) (trip : Triple) (i : Instance) (t : Trace) where
  reset_young :
      (info : NodeInfo)
      → info.instance_of ≡ some i
      → after env t i.created_at 300 ≡ false
      → IsRefused i t (reset env trip info t)
  unfolding reset deref pause pure fail ask ◌>>=◌
  reset_young info here young = ground arith

  reset_untagged :
      (info : NodeInfo)
      → info.instance_of ≡ some i
      → after env t i.created_at 300 ≡ true
      → lookup wdrip_last_update i.tags ≡ none
      → IsRefused i t (reset env trip info t)
  unfolding reset reset_grown admit_ecs maybe deref pause perform pure fail ask ◌>>=◌
  reset_untagged info here old no_tag =
      elim (Option-cases (env.refusal t (tag_ecs i.id wdrip_last_update))) [
        | inl e ↦ ground arith
        | inr (a, e) ↦ ground arith
      ]

  reset_stamped :
      (info : NodeInfo) (stamp : String)
      → info.instance_of ≡ some i
      → after env t i.created_at 300 ≡ true
      → lookup wdrip_last_update i.tags ≡ some stamp
      → after env t stamp 180 ≡ false
      → IsRefused i t (reset env trip info t)
  unfolding reset reset_grown admit_ecs maybe deref pause pure fail ask ◌>>=◌
  reset_stamped info stamp here old tagged recent = ground arith

-- Reset does not touch an instance that was created at most five minutes ago, that was re-initialised
-- at most three minutes ago, or that has no tag of a re-initialisation; a time stamp that cannot be
-- read counts as recent. It returns RetryInNext(60), and has made no call but a sleep, or the one
-- that sets the tag.
pub reset-IsThrottled :
    (env : Env) (trip : Triple) (info : NodeInfo) (i : Instance) (t : Trace)
    → info.instance_of ≡ some i
    → IsThrottled env t i
    → IsRefused i t (reset env trip info t)
reset-IsThrottled env trip info i t here (inl young) = reset_young env trip i t info here young
reset-IsThrottled env trip info i t here (inr throttle) =
    elim (Bool-cases (after env t i.created_at 300)) [
      | inl old ↦ elim throttle [
        | inl no_tag ↦ reset_untagged env trip i t info here old no_tag
        | inr (stamp, tagged, recent) ↦ reset_stamped env trip i t info stamp here old tagged recent
      ]
      | inr young ↦ reset_young env trip i t info here young
    ]
