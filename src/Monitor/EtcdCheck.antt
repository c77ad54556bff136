-- ===== src/Monitor/EtcdCheck.antt =====
-- CheckEtcd (pkg/operator/monit/check/etcd.go): the check of etcd's health that the monitor counts.
pub mod Verdict
use ooc.Base.{String, Bool, true, false, Option, none, some, List, [], ◌∷◌}
use ooc.Cloud.{Master, Cluster, Member, Error}
use ooc.Cloud.Exec.{
  Env, Exec, pure, ask, perform, catch, ◌>>=◌, maybe, wrapped, get_cluster, list_masters,
  etcd_endpoint_health,
}
use ooc.Etcd.{advertise, new_etcd_from_crd, member_list}

-- the cluster and the masters that the check has seen last
pub record CheckEtcd : Type 0 where
  pub cluster : Option Cluster
  pub master : List Master

-- A check answers whether etcd is healthy, together with an error.
pub record Checked : Type 0 where
  pub state : CheckEtcd
  pub healthy : Bool
  pub error : Option Error

-- the masters of the API server, or the cached ones if it gives none
unfoldable pub some_masters : List Master → List Master → List Master
some_masters old [] = old
some_masters old (m ∷ ms) = m ∷ ms

-- together with the error of the API server
unfoldable pub refresh_masters : Env → List Master → Exec (List Master × Option Error)
unfolding some_masters
refresh_masters env old =
    catch (ask list_masters env.masters) (λ e. pure (old, some e))
      (λ masters. pure (some_masters old masters, none))

-- the loop over the members: one that is healthy is enough
unfoldable pub any_healthy : Env → List Member → Exec Bool
unfolding advertise
any_healthy env [] = pure false
any_healthy env (mem ∷ mems) =
    catch (perform env (etcd_endpoint_health (advertise mem.ip "2379"))) (λ _. any_healthy env mems)
      (λ _. pure true)

-- the part of Check after the cluster and the masters are known
unfoldable pub probe_members : Env → CheckEtcd → Cluster → Exec Checked
unfolding new_etcd_from_crd member_list any_healthy
probe_members env s cluster =
    catch (new_etcd_from_crd env s.master cluster "/tmp")
      (λ e. pure (record { state = s; healthy = true; error = some (wrapped "new etcd" e) }))
      (λ metcd.
        catch (member_list env metcd)
          (λ _. pure (record { state = s; healthy = false; error = none }))
          (λ mems.
            any_healthy env mems >>= λ up. pure (record { state = s; healthy = up; error = none })))

-- errors.Wrapf of nil is nil
unfoldable pub maybe_wrapped : String → Option Error → Option Error
maybe_wrapped note none = none
maybe_wrapped note (some e) = some (wrapped note e)

-- with the cluster and the masters: with no master the error is that of the API server, or nil
unfoldable pub check_known : Env → Cluster → List Master × Option Error → Exec Checked
unfolding probe_members maybe_wrapped
check_known env cluster ([], failed) = pure (record {
  state = record { cluster = some cluster; master = [] };
  healthy = true;
  error = maybe_wrapped "no master crd found" failed;
})
check_known env cluster (m ∷ ms, failed) =
    probe_members env (record { cluster = some cluster; master = m ∷ ms }) cluster

unfoldable pub check_masters : Env → CheckEtcd → Cluster → Exec Checked
unfolding refresh_masters check_known
check_masters env s cluster = refresh_masters env s.master >>= check_known env cluster

-- Check: with the API server away it uses what it has seen last; the error for no cluster wraps the
-- error of the API server
unfoldable pub check : Env → CheckEtcd → Exec Checked
unfolding check_masters probe_members
check env s =
    catch (ask get_cluster env.cluster)
      (λ e.
        maybe s.cluster
          (pure
            (record { state = s; healthy = true; error = some (wrapped "empty cluster spec" e) }))
          (probe_members env s))
      (check_masters env s)
