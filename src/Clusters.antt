-- ===== src/Clusters.antt =====
-- ClusterIndex (pkg/index/cluster.go): the clusters in the object storage, and the node pools there as
-- pkg/index/nodepool.go lists them. The texts of objects go through JSON, which is not part of the
-- repository.
pub mod Operations
pub mod Deletion
use ooc.Base.{String, Option, List, [], ◌∷◌, str_eq, if◌then◌else◌, concat, contains}
use ooc.Cloud.{Cluster, ClusterId, ClusterSpec, NodePool, Error}
use ooc.Cloud.Exec.{
  Env, Trace, Reply, outcome, Exec, pure, fail, ask, perform, catch, ◌>>=◌, ◌>>◌, wrap, message,
  get_object, put_object, delete_object, list_object, ensure_bucket,
}
use ooc.Pools.{no_bucket}

-- What the command line adds to the outside world: JSON, the listing of a bucket, the context of a
-- command (its boot configuration, which may be nil), a new certificate, the editor, and the time as a text.
pub record Desk : Type 0 where
  pub parse_cluster : String → Reply ClusterId
  pub print_cluster : ClusterId → String
  -- the Spec of a cluster resource, of which `Cluster` keeps two fields only
  pub cluster_spec : Cluster → ClusterSpec
  pub parse_pool : String → Reply NodePool
  pub listing : Trace → String → Reply (List String)
  pub new_context : Trace → Reply (Option ClusterSpec)
  -- context.NewKeyCert, whose failure makes the code panic
  pub fresh_ca : Trace → Option String
  pub edited : Trace → ClusterSpec → Reply ClusterSpec
  pub stamp : Trace → String

-- path
unfoldable pub cluster_path : String → String → String
cluster_path bucket name = concat ("oss://" ∷ bucket ∷ "/wdrip/clusters/" ∷ name ∷ ".json" ∷ [])

-- a value that another package makes of a text
unfoldable pub given {ℓ} : {A : Type ℓ} → Reply A → Exec A
given r t = (outcome r, t)

-- SaveCluster
unfoldable pub save_cluster : Env → Desk → ClusterId → Exec (Unit {0})
unfolding cluster_path
save_cluster env desk id =
    let bucket = env.bucket_name in
    let put = perform env (put_object (desk.print_cluster id) (cluster_path bucket id.name)) in
    if str_eq bucket ""
    then fail no_bucket
    else catch put
        (λ e.
          if contains (message e) "NoSuchBucket"
          then wrap (concat ("create bucket fail: " ∷ bucket ∷ []))
              (perform env (ensure_bucket bucket))
            >> put
          else fail e)
        pure

-- GetCluster and RemoveCluster take an id and read that of the index instead, here `own`
unfoldable pub get_cluster_id : Env → Desk → String → Exec ClusterId
unfolding cluster_path given ask
get_cluster_id env desk own =
    let path = cluster_path env.bucket_name own in
    if str_eq env.bucket_name "" then fail no_bucket else do
      bytes ←
          wrap (concat ("get ClusterIndex: " ∷ own ∷ []))
            (ask (get_object path) (λ t. env.object t path))
      wrap (concat ("unmarshal ClusterIndex: " ∷ own ∷ [])) (given (desk.parse_cluster bytes))

unfoldable pub remove_cluster : Env → String → Exec (Unit {0})
unfolding cluster_path
remove_cluster env own =
    if str_eq env.bucket_name ""
    then fail no_bucket
    else perform env (delete_object (cluster_path env.bucket_name own))

-- the loops of ListCluster and ListNodePools
module _ {A : Type 0} (parse : String → Reply A) where
  unfoldable pub parse_all : String → List String → Exec (List A)
  unfolding given
  parse_all note [] = pure []
  parse_all note (s ∷ rest) = do
    a ← wrap note (given (parse s))
    others ← parse_all note rest
    pure (a ∷ others)

unfoldable pub list_cluster : Env → Desk → Exec (List ClusterId)
unfolding parse_all ask
list_cluster env desk = if str_eq env.bucket_name "" then fail no_bucket else do
  objects ←
      wrap (concat ("list clusters: " ∷ env.bucket_name ∷ []))
        (ask (list_object "wdrip/clusters") (λ t. desk.listing t "wdrip/clusters"))
  parse_all desk.parse_cluster "unmarshal ClusterIndex" objects

unfoldable pub list_node_pools : Env → Desk → String → Exec (List NodePool)
unfolding parse_all ask
list_node_pools env desk cid =
    let prefix = concat ("wdrip/nodepools/" ∷ cid ∷ []) in
    if str_eq env.bucket_name "" then fail no_bucket else do
      objects ←
          wrap (concat ("list clusters: " ∷ env.bucket_name ∷ []))
            (ask (list_object prefix) (λ t. desk.listing t prefix))
      parse_all desk.parse_pool "unmarshal NodePoolIndex" objects
