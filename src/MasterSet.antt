-- ===== src/MasterSet.antt =====
-- MasterSetReconciler (pkg/operator/controllers/master/masterset.go): the number of control plane
-- machines follows Spec.Replicas of the master set.
pub mod Quorum
use ooc.Base.{
  ℕ, ◌-◌, ◌/◌, ℤ, pos, minus, ltb_int, eq_int, ltb, String, Bool, true, false, not, List, [], ◌∷◌,
  length, str_eq, if◌then◌else◌,
}
use ooc.Cloud.{Instance, text}
use ooc.Cloud.Exec.{
  Env, Exec, pure, fail, ask, perform, pause, catch, ◌>>=◌, ◌>>◌, wrap, get_master_set,
  master_nodes, control_plane_ecs, user_data, modify_scaling_config, remove_scaling_group_ecs,
  scale_master_group,
}
use ooc.Etcd.{advertise}
use ooc.Heal.Triple.{join_master_userdata}
use ooc.Heal.Healet.{healthy, fix_master_node, remove_follower}

-- help.Max
unfoldable pub max_of : ℤ → ℤ → ℤ
max_of x y = if ltb_int x y then y else x

-- help.Max(current-max, expect), with max = help.Max((current-1)/2, 1). Go divides -1 by 2 to 0, as
-- the truncated subtraction does.
unfoldable pub batch_target : ℕ → ℤ → ℤ
unfolding max_of
batch_target current expect =
    let half = (current - 1) / 2 in
    let most = if ltb half 1 then 1 else half in max_of (minus current most) expect

-- QuorumScale
unfoldable pub quorum_scale : (ℤ → Exec (Unit {0})) → ℕ → ℤ → Exec (Unit {0})
unfolding batch_target
quorum_scale mfunc current expect =
    if eq_int expect (pos current)
    then pure tt
    else if ltb_int (pos current) expect
    then mfunc expect
    else mfunc (batch_target current expect) >> fail (text "RetryNextBatch")

-- findId: `ip` is the endpoint that RemoveFollower returns
unfoldable pub find_id : List Instance → String → String
unfolding advertise
find_id [] ip = ""
find_id (i ∷ rest) ip = if str_eq ip (advertise i.ip "2379") then i.id else find_id rest ip

-- The branch of `scale` that removes the second machine.
unfoldable pub remove_one : Env → List Instance → Exec (Unit {0})
unfolding remove_follower find_id
remove_one env detail = do
  ip ← wrap "quorum remove etcd member" (remove_follower env)
  id ← λ t. pure (find_id (env.range_order t 0 detail) ip) t
  if str_eq id ""
      then fail (text "ecs not found by ip")
      else wrap "remove ecs from scaling group" (perform env (remove_scaling_group_ecs id))

-- The function that Reconcile passes to QuorumScale. The error that it wraps if the control plane
-- is not healthy is that of the outer function, nil by then: it returns nil.
unfoldable pub scale : Env → List Instance → ℤ → Exec (Unit {0})
unfolding healthy remove_one
scale env detail expect = do
  well ← healthy env
  if not well
      then pure tt
      else if eq_int expect (pos 1)
      then remove_one env detail
      else catch (perform env (scale_master_group expect))
          (λ e. pause 30 >> wrap "scale master group" (fail e)) pure

-- ctrl.Result; an error comes with the empty one
pub record Requeue : Type 0 where
  pub requeue : Bool
  pub after_seconds : ℕ

abbrev pub done : Requeue
done = record { requeue = false; after_seconds = 0 }

abbrev pub again : ℕ → Requeue
again n = record { requeue = true; after_seconds = n }

-- Reconcile from step 3 on
unfoldable pub scale_group : Env → List Instance → ℤ → Exec Requeue
unfolding quorum_scale scale
scale_group env detail replicas = do
  ud ←
      wrap "join master userdata"
        (ask (user_data join_master_userdata) (λ t. env.master_userdata t join_master_userdata))
  catch (perform env (modify_scaling_config ud)) (λ _. pure (again 30))
      λ _. do quorum_scale (scale env detail) (length detail) replicas; pure done

unfoldable pub check_replicas : Env → ℤ → Exec Requeue
unfolding scale_group
check_replicas env replicas = do
  mnode ← wrap "get nodes" (ask master_nodes env.labelled_masters)
  if eq_int (pos (length mnode)) replicas
      then pure done
      else catch (ask control_plane_ecs env.master_instances) (λ _. pure (again 15))
          λ detail.
            if eq_int (pos (length detail)) replicas
            then pure done
            else scale_group env detail replicas

-- Reconcile
unfoldable pub reconcile : Env → Exec Requeue
unfolding healthy fix_master_node check_replicas
reconcile env = do
  well ← healthy env
  if not well
      then catch (fix_master_node env) (λ _. pure (again 60)) (λ _. pure (again 60))
      else catch (ask get_master_set env.replicas) (λ _. pure (again 60)) (check_replicas env)
