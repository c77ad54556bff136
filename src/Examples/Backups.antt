-- ===== src/Examples/Backups.antt =====
-- The theorems on the check of etcd and on the backup runner at concrete inputs.
use ooc.Base.{refl, false, none, some, [], ◌∷◌, concat, split, pieces, has_prefix}
use ooc.Cloud.{text}
use ooc.Cloud.Exec.{Env, pure, ask, perform, catch, ◌>>=◌, wrap, maybe, etcd_endpoint_health}
use ooc.Etcd.{
  advertise, new_etcd_from_crd, load_or_sign, last_ip, cert_home, member_list, try_each_peer,
  with_ips, member_ip, addr_of,
}
use ooc.Monitor.EtcdCheck.{
  CheckEtcd, Checked, some_masters, refresh_masters, any_healthy, probe_members, check_known,
  check_masters, check,
}
use ooc.Monitor.EtcdCheck.Verdict.{Verdict, check-Verdict}
use ooc.Backup.{new_snapshot_index}
use ooc.Backup.Runner.{Runner, do_backup}
use ooc.Backup.Runner.Freshness.{IsFresh, do_backup-IsFresh}
use ooc.Examples.Worlds.{calm, cluster1, master1}
use ooc.Examples.Desks.{desk}

-- etcdctl finds no member healthy.
abbrev unhealthy : Env
unhealthy = record calm {
  refusal = λ t c. elim c [
    | etcd_endpoint_health endpoint ↦ some (text "context deadline exceeded")
    | _ ↦ none
  ];
}

abbrev fresh_check : CheckEtcd
fresh_check = record { cluster = none; master = [] }

abbrev down : Checked
down = record {
  state = record { cluster = some cluster1; master = master1 ∷ [] };
  healthy = false;
  error = none;
}

check-Verdict_example : Verdict unhealthy down
unfolding check check_masters refresh_masters some_masters check_known probe_members any_healthy
    new_etcd_from_crd load_or_sign last_ip cert_home member_list try_each_peer with_ips member_ip
    addr_of advertise split pieces has_prefix concat catch wrap ask pure perform maybe ◌>>=◌
check-Verdict_example = check-Verdict unhealthy fresh_check [] down refl refl

abbrev runner : Runner
runner = record { spec = none; index = new_snapshot_index "kubernetes-wdrip-64" }

do_backup-IsFresh_example : IsFresh calm (do_backup calm desk runner []).1
do_backup-IsFresh_example = do_backup-IsFresh calm desk runner [] tt
