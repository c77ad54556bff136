-- ===== src/Bootstrap.antt =====
-- The bootstrap of a machine: the description of a node that the machine and the bootstrap service
-- exchange (pkg/apis/alibabacloud.com/v1/types.go), and what the boot code uses of the machine.
pub mod Service
pub mod Initialize
pub mod Coordinator
pub mod Nodes
use ooc.Base.{ℕ, String, Bool, Option, List}
use ooc.Cloud.{Master, ClusterSpec}
use ooc.Cloud.Exec.{Trace, Reply}

-- v1.Host: the address and the id
abbrev pub Host : Type 0
Host = String × String

-- v1.Cluster with its Spec and the peers of its Status
pub record BootCluster : Type 0 where
  pub spec : ClusterSpec
  pub peers : List Host

-- v1.Master with its CreationTimestamp, which may be zero, and its Status
pub record NodeObject : Type 0 where
  pub resource : Master
  pub created : Option ℕ
  pub peers : List Host
  pub boot : Option BootCluster

-- v1.WdripOptions
pub record WdripOptions : Type 0 where
  pub endpoint : String
  pub role : String
  pub config : String
  pub boot_type : String
  pub recover_from : String
  pub cluster_name : String
  pub expected_master_cnt : ℕ
  pub bucket : String
  pub addons : String

-- The machine that boots: its flags, the metadata service of the cloud by its keys, the bootstrap
-- service, files, YAML, certificates and tokens by what they are for, and the provider's context.
-- The certificates are made by pkg/utils/sign; a failure there makes the code panic.
pub record Site : Type 0 where
  pub flags : WdripOptions
  pub has_meta : Bool
  pub metadata : Trace → String → Reply String
  pub cluster : Trace → String → Reply BootCluster
  pub credential : Trace → String → Reply NodeObject
  pub file : Trace → String → Reply String
  pub parse_spec : String → Reply ClusterSpec
  pub fresh : Trace → String → Option String
  pub init_token : Trace → String
  pub provider : Trace → String → Reply (Unit {0})
