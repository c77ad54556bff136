-- ===== src/Backup/Runner/Freshness.antt =====
-- The uploads of the backup runner, and the snapshots that etcdctl makes before them.
use ooc.Base.{
  concat, Option, some, String, ◌≡◌, Bool, true, false, none, List, [], ◌∷◌, ◌⊎◌, inl, str_eq,
  contains,
}
use ooc.Cloud.{Master, Cluster, ClusterId, Error}
use ooc.Cloud.Exec.{
  Env, Trace, Reply, answer, failure, Exec, pure, perform, message, wrapped, get_cluster,
  list_masters, deref, snapshot_save, put_file, make_dir, write_file, put_object, ensure_bucket,
  Call, sign_etcd,
}
use ooc.Cloud.Exec.Hoare.{
  Hoare, Hoare-ends, Hoare-bind, Hoare-if, Hoare-fail, Hoare-crash, Hoare-pure, Hoare-ask,
  Hoare-wrap, Hoare-catch, Hoare-maybe, refused-answer, Hoare-weaken,
}
use ooc.Etcd.{
  Etcd, etcd_tmp, new_etcd_from_crd, load_or_sign, sign_missing, write_certs, cert_files, cert_home,
}
use ooc.Etcd.Boot.{snapshot, save_first}
use ooc.Clusters.{Desk, get_cluster_id, save_cluster, given}
use ooc.Clusters.Operations.{new_context}
use ooc.Backup.{SnapshotIndex, snapshot_tmp, backup, loaded, lazy_load, store_copy}
use ooc.Backup.Runner.{
  Runner, Run, attempt, failed, initialize, back_up, run_backup, first_master, do_backup,
}

-- Since the last upload etcdctl has made a snapshot.
abbrev pub IsSaved : Env → Trace → Type 0
IsSaved env [] = ⊥
IsSaved env (put_file src dst ∷ t) = ⊥
IsSaved env (snapshot_save endpoint dir ∷ t) =
    (env.refusal t (snapshot_save endpoint dir) ≡ none) ⊎ IsSaved env t
IsSaved env (c ∷ t) = IsSaved env t

-- Each upload of a file has a snapshot of its own.
abbrev pub IsFresh : Env → Trace → Type 0
IsFresh env [] = Unit
IsFresh env (put_file src dst ∷ t) = IsSaved env t × IsFresh env t
IsFresh env (c ∷ t) = IsFresh env t

module _ (env : Env) (desk : Desk) where
  abbrev Fresh : Trace → Type 0
  Fresh = IsFresh env

  abbrev Ready : Trace → Type 0
  Ready t = IsFresh env t × IsSaved env t

  Hoare-attempt :
      {A : Type 0} {P : Trace → Type 0} {R : A → Trace → Type 0} (r : Runner) (note : Error → Error)
      (m : Exec A) (next : A → Run)
      → Hoare Fresh P m R
      → ((a : A) → Hoare Fresh (R a) (next a) (λ _. Fresh))
      → Hoare Fresh P (attempt r note m next) (λ _. Fresh)
  unfolding attempt failed
  Hoare-attempt r note m next km kn = Hoare-catch m _ next km (λ e. Hoare-pure _ (λ t i. i)) kn

  module _ (P : Trace → Type 0) (weaken : (t : Trace) → P t → Fresh t) where
    read-Hoare : {A : Type 0} (r : Reply A) → Hoare Fresh P (given r) (λ _. P)
    unfolding given
    read-Hoare (answer a) = record { at = λ t i. i }
    read-Hoare (failure e) = record { at = λ t i. weaken t i }

  context-Hoare : Hoare Fresh Fresh (new_context desk) (λ _. Fresh)
  unfolding new_context given
  context-Hoare =
      Hoare-wrap _ _
        (record { at = λ t i. (read-Hoare Fresh (λ t' i'. i') (desk.new_context t)).at t i })

  initialize-Hoare :
      (r : Runner) (note : Error → Error) (next : Runner → Run)
      → ((r' : Runner) → Hoare Fresh Fresh (next r') (λ _. Fresh))
      → Hoare Fresh Fresh (initialize env desk r note next) (λ _. Fresh)
  unfolding initialize
  initialize-Hoare r note next kn =
      Hoare-attempt {R = λ _. Fresh} _ _ _ _
        (Hoare-ask get_cluster env.cluster (λ t i. i) (λ t a i e. i))
        (λ spec. Hoare-attempt _ _ _ _ context-Hoare (λ context. kn _))

  authority-Hoare : (o : Option String) → Hoare Fresh Fresh (deref o) (λ _. Fresh)
  unfolding deref
  authority-Hoare none = Hoare-crash (λ t i. i)
  authority-Hoare (some a) = Hoare-pure a (λ t i. i)

  certs-Hoare :
      (home : String) (names : List String)
      → Hoare Fresh Fresh (write_certs env home names) (λ _. Fresh)
  unfolding write_certs perform
  certs-Hoare home [] = Hoare-pure tt (λ t i. i)
  certs-Hoare home (name ∷ rest) =
      Hoare-bind {R = λ _. Fresh} _ _
        (record {
          at = λ t i.
              Hoare.at
                (Hoare-wrap (concat ("write file " ∷ name ∷ [])) _ (
                  Hoare-ask (write_file (cert_home home name) (env.certificate t name)) _
                    (λ t' i'. i') (λ t' a i' e. i')))
                t i;
        })
        (λ _. certs-Hoare home rest)

  sign-Hoare :
      (nodes : List Master) (spec : Cluster) (home : String) (exist : Bool)
      → Hoare Fresh Fresh (sign_missing env nodes spec home exist) (λ _. Fresh)
  unfolding sign_missing load_or_sign perform
  sign-Hoare nodes spec home true = Hoare-pure tt (λ t i. i)
  sign-Hoare [] spec home false = Hoare-crash (λ t i. i)
  sign-Hoare (n ∷ nodes) spec home false =
      let sign = Hoare-ask (sign_etcd n) _ (λ t i. i) (λ t a i e. i) in
      Hoare-wrap _ _ (
        Hoare-bind {R = λ _. Fresh} _ _ (authority-Hoare spec.peer_ca) (λ _.
          Hoare-bind {R = λ _. Fresh} _ _ (Hoare-wrap _ _ sign) (λ _.
            Hoare-bind {R = λ _. Fresh} _ _ (authority-Hoare spec.server_ca) (λ _.
              Hoare-bind {R = λ _. Fresh} _ _ (Hoare-wrap _ _ sign) (λ _.
                Hoare-bind {R = λ _. Fresh} _ _ (Hoare-wrap _ _ sign) (λ _.
                  Hoare-bind {R = λ _. Fresh} _ _
                    (Hoare-wrap _ _ (Hoare-ask (make_dir _) _ (λ t i. i) (λ t a i e. i)))
                    (λ _. record {
                      at = λ t i. Hoare.at (certs-Hoare home (env.file_order t cert_files)) t i;
                    })))))))

  etcd-Hoare :
      (nodes : List Master) (spec : Cluster) (home : String)
      → Hoare Fresh Fresh (new_etcd_from_crd env nodes spec home) (λ _. Fresh)
  unfolding new_etcd_from_crd
  etcd-Hoare nodes spec home =
      Hoare-bind {R = λ _. Fresh} _ _ (Hoare-ask _ _ (λ t i. i) (λ t a i e. i))
        (λ exist. Hoare-bind _ _ (sign-Hoare nodes spec home exist) (λ _. Hoare-pure _ (λ t i. i)))

  save-Hoare :
      (dir parent : String) (peers : List String)
      → Hoare Fresh Fresh (save_first env dir parent peers) (λ _. Ready)
  unfolding save_first perform
  save-Hoare dir parent [] = Hoare-fail _ (λ t i. i)
  save-Hoare dir parent (first ∷ others) =
      Hoare-bind {R = λ _. Fresh} _ _
        (Hoare-wrap _ _ (Hoare-ask (make_dir parent) _ (λ t i. i) (λ t a i e. i)))
        (λ _.
          Hoare-ask (snapshot_save _ dir) _ (λ t i. i) (λ t a i e. (i, inl (refused-answer _ a e))))

  snapshot-Hoare :
      (m : Etcd) (dir parent : String) → Hoare Fresh Fresh (snapshot env m dir parent) (λ _. Ready)
  unfolding snapshot
  snapshot-Hoare m dir parent =
      Hoare-if (str_eq dir "") _ _ (λ _. Hoare-fail _ (λ t i. i))
        (λ _. save-Hoare dir parent m.peer)

  cluster-Hoare : (own : String) → Hoare Fresh Ready (get_cluster_id env desk own) (λ _. Ready)
  unfolding get_cluster_id
  cluster-Hoare own =
      Hoare-if (str_eq env.bucket_name "") _ _ (λ _. Hoare-fail _ (λ t i. i.0))
        (λ _.
          Hoare-bind {R = λ _. Ready} _ _
            (Hoare-wrap _ _ (Hoare-ask _ _ (λ t i. i.0) (λ t a i e. i)))
            (λ bytes. Hoare-wrap _ _ (read-Hoare Ready (λ t i. i.0) (desk.parse_cluster bytes))))

  put-Hoare :
      (c : Call)
      → ((t : Trace) → Ready t → Ready (c ∷ t))
      → Hoare Ready Ready (perform env c) (λ _. Ready)
  unfolding perform
  put-Hoare c keep = Hoare-ask c _ keep (λ t a i e. keep t i)

  store-Hoare : (id : ClusterId) → Hoare Fresh Ready (save_cluster env desk id) (λ _. Ready)
  unfolding save_cluster
  store-Hoare id =
      Hoare-weaken {I = Ready} _ (λ t i. i.0)
        (Hoare-if (str_eq env.bucket_name "") _ _ (λ _. Hoare-fail _ (λ t i. i))
          (λ _.
            Hoare-catch {R = λ _. Ready} _ _ pure (put-Hoare (put_object _ _) (λ t i. i))
              (λ e.
                Hoare-if (contains (message e) "NoSuchBucket") _ _
                  (λ _.
                    Hoare-bind {R = λ _. Ready} _ _
                      (Hoare-wrap _ _ (put-Hoare (ensure_bucket env.bucket_name) (λ t i. i)))
                      (λ _. put-Hoare (put_object _ _) (λ t i. i)))
                  (λ _. Hoare-fail _ (λ t i. i)))
              (λ a. Hoare-pure a (λ t i. i))))

  load-Hoare : (i : SnapshotIndex) → Hoare Fresh Ready (lazy_load env i) (λ _. Ready)
  unfolding lazy_load
  load-Hoare i =
      Hoare-weaken {I = Ready} _ (λ t h. h.0)
        (Hoare-if i.load _ _ (λ _. Hoare-pure _ (λ t h. h))
          (λ _.
            Hoare-catch {R = λ _. Ready} _ _ _ (Hoare-ask _ _ (λ t h. h) (λ t a h e. h))
              (λ e.
                Hoare-if (contains (message e) "NoSuchKey") _ _ (λ _. Hoare-pure _ (λ t h. h))
                  (λ _. Hoare-pure _ (λ t h. h)))
              (λ bytes. Hoare-pure _ (λ t h. h))))

  copy-Hoare :
      (id : Cluster) (i : SnapshotIndex) → Hoare Fresh Ready (store_copy env id i) (λ _. Fresh)
  unfolding store_copy perform pure
  copy-Hoare id i =
      Hoare-bind {R = λ _. Ready} _ _ (record { at = λ t h. h })
        (λ identity.
          Hoare-catch {R = λ _. Fresh} _ _ _
            (Hoare-ask (put_file _ _) _ (λ t h. (h.1, h.0)) (λ t a h e. (h.1, h.0)))
            (λ e. Hoare-pure _ (λ t h. h))
            (λ _.
              Hoare-catch {R = λ _. Fresh} _ _ _
                (Hoare-ask (put_object _ _) _ (λ t h. h) (λ t a h e. h))
                (λ e. Hoare-pure _ (λ t h. h)) (λ _. Hoare-pure _ (λ t h. h))))

  backup-Hoare :
      (id : Cluster) (i : SnapshotIndex) → Hoare Fresh Ready (backup env id i) (λ _. Fresh)
  unfolding backup loaded
  backup-Hoare id i =
      Hoare-bind {R = λ _. Ready} _ _ (load-Hoare i)
        (λ r. Hoare-maybe r.1 _ _ (copy-Hoare id r.0) (λ e failed. Hoare-pure _ (λ t h. h.0)))

  up-Hoare :
      (spec : Cluster) (masters : List Master) (r : Runner)
      → Hoare Fresh Fresh (back_up env desk spec masters r) (λ _. Fresh)
  unfolding back_up
  up-Hoare spec masters r =
      Hoare-attempt {R = λ _. Fresh} r (wrapped "new etcd") _ _ (etcd-Hoare masters spec etcd_tmp)
        (λ metcd.
          Hoare-attempt {R = λ _. Ready} r (wrapped "snapshot etcd") _ _
            (snapshot-Hoare metcd snapshot_tmp "/tmp")
            (λ _.
              Hoare-attempt {R = λ _. Ready} r (wrapped "load cluster id") _ _
                (cluster-Hoare r.index.snapshot.name)
                (λ mid.
                  Hoare-attempt {R = λ _. Ready} r (wrapped "save cluster spec") _ _ (store-Hoare _)
                    (λ _.
                      Hoare-bind {R = λ _. Fresh} _ _ (backup-Hoare spec r.index)
                        (λ done. Hoare-pure _ (λ t h. h))))))

  run-Hoare :
      (spec : Cluster) (masters : List Master) (r : Runner)
      → Hoare Fresh Fresh (run_backup env desk spec masters r) (λ _. Fresh)
  unfolding run_backup
  run-Hoare spec masters r =
      initialize-Hoare r (wrapped "initialize snapshot backup failed")
        (back_up env desk spec masters) (up-Hoare spec masters)

  first-Hoare :
      (r : Runner) (masters : List Master) (next : Run)
      → Hoare Fresh Fresh next (λ _. Fresh)
      → Hoare Fresh Fresh (first_master r masters next) (λ _. Fresh)
  unfolding first_master failed
  first-Hoare r [] next k = Hoare-pure _ (λ t h. h)
  first-Hoare r (m ∷ masters) next k = k

  do-Hoare : (r : Runner) → Hoare Fresh Fresh (do_backup env desk r) (λ _. Fresh)
  unfolding do_backup
  do-Hoare r =
      Hoare-attempt {R = λ _. Fresh} _ _ _ _
        (Hoare-ask list_masters env.masters (λ t i. i) (λ t a i e. i))
        (λ masters. first-Hoare r masters _ (
          Hoare-attempt {R = λ _. Fresh} _ _ _ _
            (Hoare-ask get_cluster env.cluster (λ t i. i) (λ t a i e. i))
            (λ spec. run-Hoare spec masters r)))

  -- doBackup, whatever fails and however it ends, uploads a file only if etcdctl has made a snapshot
  -- without an error since the last upload: a failed snapshot is never stored as a backup.
  pub do_backup-IsFresh :
      (r : Runner) (t : Trace) → IsFresh env t → IsFresh env (do_backup env desk r t).1
  do_backup-IsFresh r t i = Hoare-ends Fresh _ (do-Hoare r) t i
