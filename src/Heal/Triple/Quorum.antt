-- ===== src/Heal/Triple/Quorum.antt =====
-- EtcdMemDiff (triple.go): which etcd members the repair removes.
use ooc.Base.{
  ◌≡◌, ◌≢◌, ◌+◌, ◌≤◌, ◌*◌, true, false, not, List, [], ◌∷◌, arith, select, length, All, All-select,
  All-imp, any-eq_false, length-select-not, str_eq, eq_iff, Bool, if◌then◌else◌, String,
}
use ooc.Cloud.{Instance, Member}
use ooc.Heal.Triple.{Triple, is_orphan, etcd_mem_diff}

-- No instance has the address.
abbrev pub IsAbsent : List Instance → String → Type 0
IsAbsent instances ip = All (λ (e : Instance). ip ≢ e.ip) instances

is_orphan-IsAbsent :
    (instances : List Instance) (m : Member)
    → is_orphan instances m ≡ true
    → IsAbsent instances m.ip
unfolding is_orphan
is_orphan-IsAbsent instances m h =
    All-imp (λ (e : Instance). str_eq m.ip e.ip ≡ false) (λ e. m.ip ≢ e.ip) instances
      (λ e no_match same. cc (no_match, (eq_iff m.ip e.ip).1 same))
      (any-eq_false (λ (e : Instance). str_eq m.ip e.ip) instances (ground arith))

guarded-All :
    (b : Bool) (P : Member → Type 0) (ms : List Member) → All P ms → All P (if b then [] else ms)
guarded-All true P ms h = tt
guarded-All false P ms h = h

All-trivial : (ms : List Member) → All (λ _. Unit {0}) ms
All-trivial [] = tt
All-trivial (m ∷ ms) = (tt, All-trivial ms)

-- EtcdMemDiff never names more than half of the etcd members, and every member that it names for
-- removal has an address that no instance has.
pub etcd_mem_diff-IsSafe :
    (t : Triple) (mems : List Member)
    → (2 * length (etcd_mem_diff t mems) ≤ length mems)
      × All (λ m. IsAbsent t.instances m.ip) (etcd_mem_diff t mems)
unfolding etcd_mem_diff
etcd_mem_diff-IsSafe t mems = (
  ground arith,
  guarded-All _ _ _ (
      All-select (λ _. Unit {0}) (λ m. IsAbsent t.instances m.ip) (is_orphan t.instances) mems
        (λ m _ h. is_orphan-IsAbsent t.instances m h) (All-trivial mems)),
)

-- Where at most half of the members have no instance, all of them are removed: what is removed and
-- the members that have an instance make up the whole list.
pub etcd_mem_diff_complete :
    (t : Triple) (mems : List Member)
    → length mems ≤ 2 * length (select (λ m. not (is_orphan t.instances m)) mems)
    → length (etcd_mem_diff t mems) + length (select (λ m. not (is_orphan t.instances m)) mems)
      ≡ length mems
unfolding etcd_mem_diff
etcd_mem_diff_complete t mems h = ground (arith, length-select-not (is_orphan t.instances) mems)
