-- ===== src/Backup.antt =====
-- SnapshotIndex (pkg/index/snapshot.go): the backups of etcd in the object storage. An operation
-- returns the index that it leaves and its error, since a failed operation may have changed the index.
pub mod Retention
pub mod Runner
use ooc.Base.{
  ℕ, zero, suc, String, Bool, true, false, Option, none, some, List, [], ◌∷◌, ◌++◌, length, leb,
  str_eq, str_ltb, sort_slice, if◌then◌else◌, concat, contains,
}
use ooc.Cloud.{Cluster, Snapshot, Error, text}
use ooc.Cloud.Exec.{
  Env, Exec, pure, ask, perform, catch, ◌>>=◌, ◌>>◌, maybe, message, wrapped, get_object,
  delete_object, put_file, put_object, get_file,
}

pub record SnapshotIndex : Type 0 where
  pub load : Bool
  pub snapshot : Snapshot

abbrev keep_copies_cnt : ℕ
keep_copies_cnt = 4

abbrev pub snapshot_tmp : String
snapshot_tmp = "/tmp/snapshot.db"

abbrev pub Step : Type 0
Step = Exec (SnapshotIndex × Option Error)

-- NewSnapshotIndex, with newSnapshot
unfoldable pub new_snapshot_index : String → SnapshotIndex
new_snapshot_index id = record {
  load = false;
  snapshot = record { prefix = "wdrip/backup"; name = id; copies = []; spec = none };
}

unfoldable pub base : Snapshot → String
base s = concat (s.prefix ∷ "/" ∷ s.name ∷ [])

unfoldable pub index_location : Snapshot → String
unfolding base
index_location s = concat (base s ∷ "/index.json" ∷ [])

-- Path
unfoldable pub path_of : Snapshot → String → String
unfolding base
path_of s identity = concat (base s ∷ "/" ∷ identity ∷ "/snapshot.db" ∷ [])

unfoldable pub uri : Snapshot → String → String → String
unfolding path_of
uri s identity bucket = concat ("oss://" ∷ bucket ∷ "/" ∷ path_of s identity ∷ [])

-- Snapshot.Load
unfoldable pub load_bytes : Env → SnapshotIndex → String → SnapshotIndex × Option Error
load_bytes env i bytes =
    if str_eq bytes ""
    then (i, none)
    else let (s, e) = env.unmarshal bytes i.snapshot in (record i { snapshot = s }, e)

-- LazyLoad: `load` is never set. The snapshot of an index is never nil.
unfoldable pub lazy_load : Env → SnapshotIndex → Step
unfolding index_location load_bytes
lazy_load env i =
    let location = index_location i.snapshot in
    if i.load
    then pure (i, none)
    else catch (ask (get_object location) (λ t. env.object t location))
        (λ e.
          if contains (message e) "NoSuchKey"
          then pure (i, none)
          else pure (i, some (wrapped (concat ("get snapshot: " ∷ location ∷ [])) e)))
        (λ bytes. pure (load_bytes env i bytes))

-- `if err := i.LazyLoad(); err != nil { return errors.Wrapf(err, "load latest backup") }`
unfoldable pub loaded : Env → SnapshotIndex → (SnapshotIndex → Step) → Step
unfolding lazy_load
loaded env i next = lazy_load env i >>= λ r.
    maybe r.1 (next r.0) (λ e. pure (r.0, some (wrapped "load latest backup" e)))

-- SortBackups, with its comparison
unfoldable pub comes_first : String → String → Bool
unfolding str_ltb
comes_first m n = str_ltb n m

unfoldable pub sort_backups : SnapshotIndex → SnapshotIndex
unfolding sort_slice comes_first
sort_backups i = record i {
  snapshot = record i.snapshot { copies = sort_slice comes_first i.snapshot.copies };
}

-- Snapshot.LatestBackup, of sorted copies
unfoldable pub first_copy : List String → Option String
first_copy [] = none
first_copy (c ∷ _) = some c

-- SnapshotIndex.LatestBackup; the spec that it also returns is that of the index it leaves.
unfoldable pub fetch_latest : Env → String → SnapshotIndex → Step
unfolding sort_backups first_copy path_of
fetch_latest env dir i =
    let target = if str_eq dir "" then snapshot_tmp else dir in
    let sorted = sort_backups i in
    maybe (first_copy sorted.snapshot.copies) (pure (sorted, some (text "BackupNotFound"))) (λ c.
      catch (perform env (get_file (path_of sorted.snapshot c) target))
        (λ e. pure (sorted, some (wrapped "download latest backup" e))) (λ _. pure (sorted, none)))

unfoldable pub latest_backup : Env → String → SnapshotIndex → Step
unfolding loaded fetch_latest
latest_backup env dir i = loaded env i (fetch_latest env dir)

-- Backup once the index is loaded. The copy stays in the index if the last step fails.
unfoldable pub add_copy : Cluster → String → SnapshotIndex → SnapshotIndex
add_copy id identity i = record i {
  snapshot = record i.snapshot { copies = i.snapshot.copies ++ identity ∷ []; spec = some id };
}

unfoldable pub store_copy : Env → Cluster → SnapshotIndex → Step
unfolding path_of index_location add_copy
store_copy env id i = do
  identity ← λ t. pure (env.hour_now t) t
  let path = path_of i.snapshot identity
  let i' = add_copy id identity i
  let location = index_location i'.snapshot
  catch (perform env (put_file snapshot_tmp path))
      (λ e. pure (i, some (wrapped (concat ("put file " ∷ snapshot_tmp ∷ ": " ∷ path ∷ [])) e)))
      (λ _.
        catch (perform env (put_object (env.marshal i'.snapshot) location))
          (λ e. pure (i', some (wrapped (concat ("put snapshot object: " ∷ location ∷ [])) e)))
          (λ _. pure (i', none)))

unfoldable pub backup : Env → Cluster → SnapshotIndex → Step
unfolding loaded store_copy
backup env id i = loaded env i (store_copy env id)

-- BackupGC once the index is loaded: the copies after the fourth are deleted, errors are only logged.
unfoldable pub take : ℕ → List String → List String
take zero cs = []
take (suc n) [] = []
take (suc n) (c ∷ cs) = c ∷ take n cs

unfoldable pub drop : ℕ → List String → List String
drop zero cs = cs
drop (suc n) [] = []
drop (suc n) (c ∷ cs) = drop n cs

unfoldable pub delete_copies : Env → Snapshot → List String → Exec (Unit {0})
unfolding path_of
delete_copies env s [] = pure tt
delete_copies env s (c ∷ cs) =
    catch (perform env (delete_object (path_of s c))) (λ _. pure tt) pure >> delete_copies env s cs

unfoldable pub collect : Env → SnapshotIndex → Step
unfolding sort_backups take drop delete_copies index_location
collect env i =
    let sorted = sort_backups i in
    let kept = record sorted {
      snapshot = record sorted.snapshot { copies = take keep_copies_cnt sorted.snapshot.copies };
    } in
    if leb (length i.snapshot.copies) keep_copies_cnt then pure (i, none) else do
      delete_copies env sorted.snapshot (drop keep_copies_cnt sorted.snapshot.copies)
      catch (perform env (put_object (env.marshal kept.snapshot) (index_location kept.snapshot)))
          (λ _. pure tt) pure
      pure (kept, none)

unfoldable pub backup_gc : Env → SnapshotIndex → Step
unfolding loaded collect
backup_gc env i = loaded env i (collect env)
