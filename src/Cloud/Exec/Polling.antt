-- ===== src/Cloud/Exec/Polling.antt =====
-- The loops of k8s.io/apimachinery's wait package, as often as they try.
use ooc.Base.{ℕ, zero, suc, Option}
use ooc.Cloud.{text}
use ooc.Cloud.Exec.{Exec, pure, fail, ◌>>=◌, ◌>>◌, maybe, pause}

-- wait.PollImmediate and wait.Poll, which sleeps before each round: `tries` rounds. An error of a
-- round ends the loop.
module _ {A : Type 0} (round : Exec (Option A)) (interval : ℕ) where
  unfoldable pub poll_immediate : ℕ → Exec A
  unfolding pause maybe
  poll_immediate zero = fail (text "timed out waiting for the condition")
  poll_immediate (suc tries) =
      let again = poll_immediate tries in
      round >>= λ seen. maybe seen (pause interval >> again) pure

  unfoldable pub poll_after : ℕ → Exec A
  unfolding pause maybe
  poll_after zero = fail (text "timed out waiting for the condition")
  poll_after (suc tries) =
      let again = poll_after tries in pause interval >> round >>= λ seen. maybe seen again pure
