-- ===== src/Backup/Retention.antt =====
-- Which copies BackupGC (snapshot.go) deletes, and which it keeps.
use ooc.Base.{
  ◌≤◌, String, ◌≡◌, refl, false, Option, none, some, List, [], ◌∷◌, All, length, str_ltb,
}
use ooc.Cloud.{Snapshot, Error}
use ooc.Cloud.Exec.{
  Call, Trace, Env, Exec, pure, catch, perform, ask, ◌>>=◌, ◌>>◌, ok, delete_object,
}
use ooc.Cloud.Exec.Emits.{Emits}
use ooc.Backup.{SnapshotIndex, path_of, sort_backups, take, collect}

-- None of the copies that are kept has an earlier name, by the order of strings.
abbrev pub IsOldest : List String → String → Type 0
IsOldest kept c = All (λ k. str_ltb k c ≡ false) kept

-- A call that deletes an object deletes a copy, and none of those that are kept has an earlier name.
abbrev pub IsGcCall : Snapshot → List String → Call → Type 0
IsGcCall s kept (delete_object path) = (c : String) × (path ≡ path_of s c) × IsOldest kept c
IsGcCall s kept _ = Unit

module _ (env : Env) where
  performed :
      (c : Call) (t : Trace) (o : Option Error)
      → env.refusal t c ≡ o
      → catch (perform env c) (λ _. pure tt) pure t ≡ (ok tt, c ∷ t)
  unfolding catch perform pure ask
  performed c t none e = rw e refl
  performed c t (some x) e = rw e refl

  logged :
      (c : Call) (t : Trace) (k : SnapshotIndex × Option Error)
      → ((catch (perform env c) (λ _. pure tt) pure >> pure k) t).0 ≡ ok k
  unfolding ◌>>=◌ pure catch
  logged c t k = rw (performed c t _ refl) refl

  unfoldable kept_index : SnapshotIndex → SnapshotIndex
  kept_index i =
      let sorted = sort_backups i in
      record sorted { snapshot = record sorted.snapshot { copies = take 4 sorted.snapshot.copies } }

  abbrev pub IsCollected : SnapshotIndex → Type 0
  IsCollected i =
      (j : SnapshotIndex) × ((collect env i []).0 ≡ ok (j, none))
      × (length j.snapshot.copies ≤ 4)
      × All (IsGcCall i.snapshot j.snapshot.copies) (collect env i []).1
