-- ===== src/Cloud.antt =====
-- The objects that the operator reads and writes: instances of the cloud provider
-- (pkg/iaas/provider/provider.go), Kubernetes nodes, and the custom resources of
-- pkg/apis/alibabacloud.com/v1/types.go. Fields that no modelled code reads are left out.
-- A Go pointer and a nil map are an `Option`; a time is in seconds.
pub mod Exec
pub mod Sdk
use ooc.Base.{ℕ, Bool, String, Option, List}

pub record Instance : Type 0 where
  pub region : String
  pub id : String
  pub ip : String
  pub tags : List (String × String)
  pub created_at : String
  pub status : String

pub record NodeCondition : Type 0 where
  pub kind : String
  pub status : String
  pub reason : String
  pub last_heartbeat : ℕ

pub record Node : Type 0 where
  pub name : String
  pub provider_id : String
  pub labels : Option (List (String × String))
  pub conditions : List NodeCondition
  pub addresses : List String

pub record Master : Type 0 where
  pub name : String
  pub id : String
  pub ip : String
  pub role : String

-- v1.Cluster, with the certificate authorities of etcd, which may be nil
pub record Cluster : Type 0 where
  pub name : String
  pub cluster_id : String
  pub peer_ca : Option String
  pub server_ca : Option String

-- v1.ClusterSpec, with the name of the provider in its BindInfra, the certificates as texts, and the
-- addresses of etcd's members, separated by commas
pub record ClusterSpec : Type 0 where
  pub cluster_id : String
  pub provider : String
  pub region : String
  pub resource_id : String
  pub intranet : String
  pub internet : String
  pub version : String
  pub root_ca : Option String
  pub front_proxy_ca : Option String
  pub svc_account_ca : Option String
  pub control_root : Option String
  pub peer_ca : Option String
  pub server_ca : Option String
  pub kubeadm_token : String
  pub init_token : String
  pub endpoints : String
  pub sans : List String
  pub namespace : String
  pub cloud_type : String
  pub svc_cidr : String
  pub pod_cidr : String
  pub registry : String
  pub runtime : String
  pub runtime_version : String
  pub etcd_version : String

-- v1.ClusterId
pub record ClusterId : Type 0 where
  pub name : String
  pub resource_id : String
  pub created_at : String
  pub updated_at : String
  pub spec : ClusterSpec

pub record BindId : Type 0 where
  pub scaling_group_id : String
  pub configuration_id : String

pub record NodePool : Type 0 where
  pub name : String
  pub node_pool_id : String
  pub desired_capacity : ℕ
  pub bind : Option BindId
  pub deleted : Bool
  pub finalizers : List String
  pub labels : Option (List (String × String))

-- `etcd.Member`; an id that is nil or 0 names no member.
pub record Member : Type 0 where
  pub id : ℕ
  pub ip : String
  pub peer_urls : List String
  pub client_urls : List String

-- The index of the backups of a cluster (pkg/index/snapshot.go); a `Backup` is its `Identity`.
pub record Snapshot : Type 0 where
  pub prefix : String
  pub name : String
  pub copies : List String
  pub spec : Option Cluster

pub data Error : Type 0 where
  text : String → Error
  not_found : String → Error
  retry : ℕ → Error
  -- StatusReasonConflict and StatusReasonInvalid of the API server
  conflict invalid : String → Error
