-- ===== src/Examples/Builds.antt =====
-- Runs of the command `wdrip build`.
use ooc.Base.{◌≡◌, refl, false, [], ◌∷◌, contains, concat}
use ooc.Cloud.Exec.{ok, answer, pure, catch, ◌>>=◌, wrap, perform, command, file_exist}
use ooc.Build.{BuildFlags, Toolbox, build}
use ooc.Examples.Worlds.{calm}
use ooc.Examples.Roles.{host}

abbrev flags : BuildFlags
flags = record {
  bucket = "host-wdrip";
  regions = "cn-hangzhou" ∷ [];
  download = false;
  dry_run = false;
  os = "centos";
  source_os = "centos";
  arch = "amd64";
  project = "wdrip";
  namespace_from = "default";
  namespace_to = "default";
  cloud_type = "public";
  docker_version = "";
  etcd_version = "v3.4.3";
  kubernetes_version = "";
  cni_version = "";
  run_version = "";
  wdrip_version = "";
}

abbrev tools : Toolbox
tools = record { deep_copy = λ p. answer p; home = "/root"; listing = λ t region. answer "" }

-- The bucket that is made is not the bucket that the package is copied to.
etcd_build : build calm host tools flags [] ≡ (
  ok tt,
  command (
        "ossutil" ∷ "--endpoint" ∷ "cn-hangzhou.oss.aliyuncs.com" ∷ "cp" ∷ "-u"
        ∷ "/root/.wdrip/cache/etcd-v3.4.3.tar.gz"
        ∷ "oss://host-wdrip-cn-hangzhou/wdrip/default/public/etcd/v3.4.3/amd64/centos/" ∷ [])
      ∷ command (
          "tar" ∷ "zcvf" ∷ "/root/.wdrip/cache/etcd-v3.4.3.tar.gz" ∷ "-C"
          ∷ "/root/.wdrip/cache/wdrip/default/public/etcd/v3.4.3/amd64/centos" ∷ "." ∷ [])
      ∷ file_exist "/root/.wdrip/cache/wdrip/default/public/etcd/v3.4.3/amd64/centos"
      ∷ command (
          "ossutil" ∷ "--endpoint" ∷ "cn-hangzhou.oss.aliyuncs.com" ∷ "mb" ∷ "oss://host-wdrip"
          ∷ [])
      ∷ command ("ossutil" ∷ "--endpoint" ∷ "cn-hangzhou.oss.aliyuncs.com" ∷ "ls" ∷ [])
      ∷ [],
)
unfolding build ◌>>=◌ wrap perform catch pure contains concat
etcd_build = refl
