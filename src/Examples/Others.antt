-- ===== src/Examples/Others.antt =====
-- The theorems on etcd's peers, the master set, the backups and the monitor at concrete inputs.
use ooc.Base.{
  ℕ, ◌<◌, ◌*◌, ◌-◌, ◌+◌, ℤ, pos, pos_part, ◌≤ℤ◌, ◌<ℤ◌, String, ◌≡◌, ◌↔◌, refl, true, false, List,
  [], ◌∷◌, arith, str_eq, if◌then◌else◌,
}
use ooc.Cloud.{text}
use ooc.Cloud.Exec.{Exec, ok, pure, fail, ◌>>◌}
use ooc.Etcd.{try_each_peer}
use ooc.Etcd.Peers.{try_each_peer-reaches}
use ooc.MasterSet.{quorum_scale, batch_target}
use ooc.MasterSet.Quorum.{quorum_scale-keeps_majority, after_batches, after_batches-expect}
use ooc.Backup.{SnapshotIndex, new_snapshot_index}
use ooc.Monitor.{Probe, throttled, answered, new_threshed_check, thresh_meet}
use ooc.Monitor.Thresholds.{streak, after_rounds, thresh_meet_iff}

-- Only the second peer is up.
abbrev second_up : String → Exec ℕ
second_up ip = if str_eq ip "10.0.0.2" then pure 7 else fail (text "connection refused")

try_each_peer-reaches_example :
    (try_each_peer 0 ("10.0.0.1" ∷ "10.0.0.2" ∷ []) 2 second_up []).0 ≡ ok 7
unfolding pure fail
try_each_peer-reaches_example =
    try_each_peer-reaches 0 second_up 2 ("10.0.0.1" ∷ []) "10.0.0.2" [] 7 []
      ((λ t. (text "connection refused", refl)), tt) (λ t. refl)

abbrev no_scaling : ℤ → Exec (Unit {0})
no_scaling n = pure tt

quorum_scale-keeps_majority_example :
    (quorum_scale no_scaling 5 (pos 1)
      ≡ (no_scaling (batch_target 5 (pos 1)) >> fail (text "RetryNextBatch")))
    × (pos 1 ≤ℤ batch_target 5 (pos 1))
    × (batch_target 5 (pos 1) <ℤ pos 5)
    × (5 < 2 * pos_part (batch_target 5 (pos 1)))
quorum_scale-keeps_majority_example =
    quorum_scale-keeps_majority no_scaling 5 (pos 1) (omega arith) (omega arith)

after_batches-expect_example : after_batches (5 - 1 + 0) 5 1 ≡ 1
after_batches-expect_example = after_batches-expect 5 1 0 (omega arith)

abbrev index5 : SnapshotIndex
index5 =
    let fresh = new_snapshot_index "kubernetes-wdrip-64" in
    record fresh {
      snapshot = record fresh.snapshot { copies = "b" ∷ "aaaaa" ∷ "cc" ∷ "dddd" ∷ "eee" ∷ [] };
    }

abbrev history : List Probe
history = answered false ∷ throttled ∷ answered false ∷ answered true ∷ answered false ∷ []

thresh_meet_iff_example :
    (thresh_meet (after_rounds history (new_threshed_check "apiserver" 1)) ≡ true)
    ↔ (1 < streak history)
thresh_meet_iff_example = thresh_meet_iff "apiserver" 1 history
