-- ===== src/Cloud/Exec.antt =====
-- Code that calls the outside world. Kubernetes, the cloud API, `etcdctl`, files and the clock are
-- not part of the repository: an `Env` answers each call, as a function of all calls before it, so
-- that a theorem over every `Env` covers every behaviour of theirs, failures and changes between
-- two calls included. The trace has the newest call first.
pub mod Confines
pub mod Costs
pub mod Emits
pub mod Hoare
pub mod NoPanic
pub mod Polling
pub mod Success
pub mod Triple
use ooc.Base.{
  ℕ, ℤ, String, ◌≡◌, refl, Bool, true, false, Option, none, some, List, [], ◌∷◌, contains, concat,
  if◌then◌else◌,
}
use ooc.Cloud.{
  Instance, Node, Master, Cluster, BindId, NodePool, Member, Snapshot, Error, text, not_found,
  retry, conflict, invalid,
}
use ooc.Cloud.Sdk.{SdkCall}

-- what `err.Error()` prints
unfoldable pub message : Error → String
message (text s) = s
message (not_found s) = s
message (retry n) = "RetryInNext Seconds"
message (conflict s) = s
message (invalid s) = s

-- `errors.Wrap`, and a `fmt.Errorf` whose last verb prints the error; the mark between the two texts
-- is always a colon here
unfoldable pub wrapped : String → Error → Error
unfolding message
wrapped s e = text (concat (s ∷ ": " ∷ message e ∷ []))

pub data Call : Type 0 where
  get_cluster get_deployment get_master_set list_masters all_nodes master_nodes control_plane_ecs :
      Call
  node_pool_nodes node_pool_ecs : NodePool → Call
  get_node get_node_pool : String → Call
  patch_node_pool delete_node_group create_node_group modify_node_group : NodePool → Call
  ensure_bucket : String → Call
  delete_node patch_node : Node → Call
  delete_master create_master : Master → Call
  run_command : String → String → Call
  restart_ecs : String → Call
  user_data : String → Call
  replace_system_disk : String → String → Call
  tag_ecs : String → String → Call
  scale_master_group : ℤ → Call
  remove_scaling_group_ecs : String → Call
  modify_scaling_config : String → Call
  cordon evict : Node → Call
  file_exist : String → Call
  sign_etcd : Master → Call
  etcd_member_list : String → Call
  etcd_endpoint_status : List String → Call
  etcd_endpoint_health : String → Call
  etcd_member_add : String → String → String → Call
  etcd_member_remove : String → ℕ → Call
  get_object delete_object list_object : String → Call
  put_file put_object get_file : String → String → Call
  snapshot_save rename : String → String → Call
  snapshot_restore : String → String → String → String → Call
  remove_all make_dir add_user : String → Call
  write_unit : List (String × String) → Call
  node_meta read_file boot_cluster boot_credential : String → Call
  register : Master → Call
  get_resource delete_resource create_resource : String → String → Call
  patch_resource : String → String → String → Call
  write_file move_file unpack : String → String → Call
  remove_file read_dir register_crds : String → Call
  command : List String → Call
  systemctl : List String → Call
  sleep : ℕ → Call
  sdk : SdkCall → Call

abbrev pub Trace : Type 0
Trace = List Call

-- `panic` is a nil dereference or an index out of range.
pub data Outcome {ℓ} (A : Type ℓ) : Type ℓ where
  ok : A → Outcome A
  err : Error → Outcome A
  panic : Outcome A

-- What a call outside the repository returns: a value or an error.
pub data Reply {ℓ} (A : Type ℓ) : Type ℓ where
  answer : A → Reply A
  failure : Error → Reply A

-- `etcdctl endpoint status`; the two ids are pointers
pub record Endpoint : Type 0 where
  pub endpoint : String
  pub leader : Option ℕ
  pub member_id : Option ℕ

-- What each outside call returns after the given trace.
pub record Env : Type 0 where
  pub refusal : Trace → Call → Option Error
  pub cluster : Trace → Reply Cluster
  -- Status.ReadyReplicas of the operator's own deployment
  pub ready_replicas : Trace → Reply ℕ
  -- Spec.Replicas of the master set
  pub replicas : Trace → Reply ℤ
  pub masters : Trace → Reply (List Master)
  pub nodes : Trace → Reply (List Node)
  pub labelled_masters : Trace → Reply (List Node)
  pub labelled_workers : Trace → NodePool → Reply (List Node)
  pub node : Trace → String → Reply Node
  pub node_pool : Trace → String → Reply NodePool
  pub new_group : Trace → NodePool → Reply BindId
  pub master_instances : Trace → Reply (List Instance)
  pub pool_instances : Trace → NodePool → Reply (List Instance)
  pub master_userdata : Trace → String → Reply String
  pub has_file : Trace → String → Reply Bool
  pub members : Trace → String → Reply (List Member)
  pub endpoints : Trace → List String → Reply (List Endpoint)
  pub object : Trace → String → Reply String
  -- json.Unmarshal into a snapshot, and its printed form
  pub unmarshal : String → Snapshot → Snapshot × Option Error
  pub marshal : Snapshot → String
  -- time.Now() to the minute
  pub hour_now : Trace → String
  -- time.Now(), and a time stamp read in the zone of the machine
  pub now : Trace → ℕ
  pub parse_time : String → Option ℕ
  -- rand.Intn
  pub intn : Trace → ℕ → ℕ
  -- the certificates and keys of etcd by the names of their files, and the order in which a `range`
  -- over them visits the names
  pub certificate : Trace → String → String
  pub file_order : Trace → List String → List String
  -- the order in which the n-th `range` over a map visits it
  pub range_order : Trace → ℕ → List Instance → List Instance
  -- strategicpatch.CreateTwoWayMergePatch gives "{}"
  pub same_object : Node → Node → Bool
  pub same_pool : NodePool → NodePool → Bool
  -- the hash of a spec, its printed form, and the bucket of the object storage
  pub hash_object : NodePool → Reply String
  pub pool_bytes : NodePool → String
  pub bucket_name : String
  -- how often k8s.io/apimachinery's wait.PollImmediate tries, from its interval and timeout
  pub attempts : ℕ → ℕ → ℕ

abbrev pub Exec {ℓ} : Type ℓ → Type ℓ
Exec A = Trace → Outcome A × Trace

module _ {ℓ} {A : Type ℓ} where
  unfoldable pub pure : A → Exec A
  pure a t = (ok a, t)

  unfoldable pub fail : Error → Exec A
  fail e t = (err e, t)

  unfoldable pub crash : Exec A
  crash t = (panic, t)

  -- a call, recorded, with its answer
  abbrev pub outcome : Reply A → Outcome A
  outcome (answer a) = ok a
  outcome (failure e) = err e

  unfoldable pub ask : Call → (Trace → Reply A) → Exec A
  ask c replies t = (outcome (replies t), c ∷ t)

  -- a pointer that the code dereferences
  unfoldable pub deref : Option A → Exec A
  unfolding pure crash
  deref none = crash
  deref (some a) = pure a

module _ {ℓ} {A B : Type ℓ} where
  abbrev settle : Outcome A → (Error → Exec B) → (A → Exec B) → Exec B
  settle (ok a) f g = g a
  settle (err e) f g = f e
  settle panic f g = λ t. (panic, t)

  -- `a, err := m; if err != nil { f } ; g`
  unfoldable pub catch : Exec A → (Error → Exec B) → (A → Exec B) → Exec B
  catch m f g t = let (r, t') = m t in settle r f g t'

  infixl 5 ◌>>=◌
  unfoldable pub ◌>>=◌ : Exec A → (A → Exec B) → Exec B
  unfolding catch fail
  m >>= g = catch m fail g

-- `if p == nil { m } else { f(*p) }`
unfoldable pub maybe {ℓ κ} : {A : Type ℓ} {B : Type κ} → Option A → Exec B → (A → Exec B) → Exec B
maybe none m f = m
maybe (some a) m f = f a

infixl 5 ◌>>◌
abbrev pub ◌>>◌ : {B : Type 0} → Exec (Unit {0}) → Exec B → Exec B
m >> n = m >>= λ _. n

-- `return errors.Wrap(err, s)`
unfoldable pub wrap : {A : Type 0} → String → Exec A → Exec A
unfolding catch fail pure wrapped
wrap s m = catch m (λ e. fail (wrapped s e)) pure

abbrev pub refused : Option Error → Reply (Unit {0})
refused none = answer tt
refused (some e) = failure e

-- a call that returns only an error
unfoldable pub perform : Env → Call → Exec (Unit {0})
unfolding ask
perform env c = ask c (λ t. refused (env.refusal t c))

-- time.Sleep, which cannot fail
unfoldable pub pause : ℕ → Exec (Unit {0})
unfolding ask
pause n = ask (sleep n) (λ _. answer tt)
