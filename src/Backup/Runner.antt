-- ===== src/Backup/Runner.antt =====
-- The backup runner (pkg/operator/controllers/backup/backup_runner.go): every ten minutes a backup of
-- etcd, and every ten minutes a collection of old ones, one after the other under one lock.
pub mod Freshness
use ooc.Base.{Option, some, List, [], ◌∷◌}
use ooc.Cloud.{Master, Cluster, Error, text}
use ooc.Cloud.Exec.{Env, Exec, pure, ask, catch, ◌>>=◌, wrapped, get_cluster, list_masters}
use ooc.Etcd.{new_etcd_from_crd, etcd_tmp}
use ooc.Etcd.Boot.{snapshot}
use ooc.Clusters.{Desk, get_cluster_id, save_cluster}
use ooc.Clusters.Operations.{new_context}
use ooc.Backup.{SnapshotIndex, snapshot_tmp, new_snapshot_index, backup, backup_gc}

-- backup.Snapshot: the cluster and the index that the last `initialize` has stored
pub record Runner : Type 0 where
  pub spec : Option Cluster
  pub index : SnapshotIndex

-- a runner and its error; a step that fails may have changed the runner
abbrev pub Run : Type 0
Run = Exec (Runner × Option Error)

unfoldable pub failed : Runner → Error → Run
failed r e = pure (r, some e)

-- `a, err := m; if err != nil { return wrap(err) }`
unfoldable pub attempt : {A : Type 0} → Runner → (Error → Error) → Exec A → (A → Run) → Run
unfolding failed
attempt r note m next = catch m (λ e. failed r (note e)) next

-- initialize; the rest runs only if it succeeds, and sees the runner that it leaves
unfoldable pub initialize : Env → Desk → Runner → (Error → Error) → (Runner → Run) → Run
unfolding attempt new_context new_snapshot_index
initialize env desk r note next =
    attempt r (λ e. note (wrapped "member: spec not found," e)) (ask get_cluster env.cluster)
      λ spec.
        let r' = record r { spec = some spec } in
        attempt r' (λ e. note (wrapped "new provider context" e)) (new_context desk)
          λ context. next (record r' { index = new_snapshot_index spec.cluster_id })

-- Backup, after `initialize`
unfoldable pub back_up : Env → Desk → Cluster → List Master → Runner → Run
unfolding attempt snapshot new_etcd_from_crd get_cluster_id save_cluster backup
back_up env desk spec masters r =
    attempt r (wrapped "new etcd") (new_etcd_from_crd env masters spec etcd_tmp) λ metcd.
      attempt r (wrapped "snapshot etcd") (snapshot env metcd snapshot_tmp "/tmp") λ _.
        attempt r (wrapped "load cluster id") (get_cluster_id env desk r.index.snapshot.name) λ mid.
          attempt r (wrapped "save cluster spec")
            (save_cluster env desk (record mid { spec = desk.cluster_spec spec }))
            λ _. backup env spec r.index >>= λ done. pure (record r { index = done.0 }, done.1)

-- Backup
unfoldable pub run_backup : Env → Desk → Cluster → List Master → Runner → Run
unfolding initialize back_up
run_backup env desk spec masters r =
    initialize env desk r (wrapped "initialize snapshot backup failed")
      (back_up env desk spec masters)

-- doBackup
unfoldable pub first_master : Runner → List Master → Run → Run
unfolding failed
first_master r [] next = failed r (text "master crd not found 0, abort backup")
first_master r (m ∷ masters) next = next

unfoldable pub do_backup : Env → Desk → Runner → Run
unfolding attempt first_master run_backup
do_backup env desk r = attempt r (wrapped "member master") (ask list_masters env.masters) λ masters.
    first_master r masters (
      attempt r (wrapped "member: spec not found,") (ask get_cluster env.cluster)
        λ spec. run_backup env desk spec masters r)

-- CleanUp: its error is only logged
unfoldable pub clean_up : Env → Runner → Exec Runner
unfolding backup_gc
clean_up env r = backup_gc env r.index >>= λ done. pure (record r { index = done.0 })
