-- ===== src/MasterSet/Quorum.antt =====
-- QuorumScale (masterset.go): a scale-in takes away less than half of the machines at a time, and the
-- batches end at the number that is asked for.
use ooc.Base.{
  ℕ, zero, suc, ◌+◌, ◌-◌, ◌*◌, ◌≤◌, ◌<◌, ℤ, pos, pos_part, ◌≤ℤ◌, ◌<ℤ◌, ◌≡◌, arith, if◌then◌else◌,
  ◌==◌, Bool-cases, inl, inr,
}
use ooc.Cloud.{text}
use ooc.Cloud.Exec.{Exec, fail, ◌>>◌}
use ooc.MasterSet.{max_of, batch_target, quorum_scale}

-- With three machines or more, and asked for fewer than there are, QuorumScale scales once, and returns
-- RetryNextBatch if that has succeeded. The target is below the number of machines, not below what is
-- asked for, and more than half of the machines.
pub quorum_scale-keeps_majority :
    (mfunc : ℤ → Exec (Unit {0})) (current : ℕ) (expect : ℤ)
    → 3 ≤ current
    → expect <ℤ pos current
    → (quorum_scale mfunc current expect
        ≡ (mfunc (batch_target current expect) >> fail (text "RetryNextBatch")))
      × (expect ≤ℤ batch_target current expect)
      × (batch_target current expect <ℤ pos current)
      × (current < 2 * pos_part (batch_target current expect))
unfolding quorum_scale batch_target max_of
quorum_scale-keeps_majority mfunc current expect three fewer =
    (ground arith, ground arith, ground arith, ground arith)

-- The number of machines after some batches, each of which reaches its target.
unfoldable pub after_batches : ℕ → ℕ → ℕ → ℕ
unfolding batch_target
after_batches zero current expect = current
after_batches (suc k) current expect =
    let next = after_batches k (pos_part (batch_target current (pos expect))) expect in
    if current == expect then current else next

target_between :
    (current expect : ℕ)
    → expect < current
    → (expect ≤ pos_part (batch_target current (pos expect)))
      × (pos_part (batch_target current (pos expect)) < current)
unfolding batch_target max_of
target_between current expect fewer = (ground arith, ground arith)

batches_end :
    (k current expect : ℕ)
    → expect ≤ current
    → current ≤ expect + k
    → after_batches k current expect ≡ expect
unfolding after_batches
batches_end zero current expect low high = omega arith
batches_end (suc k) current expect low high = elim (Bool-cases (current == expect)) [
  | inl same ↦ ground arith
  | inr other ↦
      let fewer : expect < current = ground arith in
      let (above, below) = target_between current expect fewer in
      let ih =
        batches_end k (pos_part (batch_target current (pos expect))) expect above (omega arith) in
      rw other ih
]

-- If every batch brings the number of machines to its target, then a scale-in ends: after as many batches
-- as there are machines too many the number of machines is the one that is asked for, and stays so.
pub after_batches-expect :
    (current expect more : ℕ)
    → expect ≤ current
    → after_batches (current - expect + more) current expect ≡ expect
after_batches-expect current expect more low =
    batches_end (current - expect + more) current expect low (omega arith)
