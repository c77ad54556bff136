-- ===== src/Build.antt =====
-- The command `wdrip build` (cmd/wdrip/build/build.go): the packages of a release are packed and copied to
-- the object storage of each region. os.Exit ends the code as a panic does.
pub mod Dry
use ooc.Base.{
  String, Bool, List, [], ◌∷◌, concat, contains, ◌&&◌, ◌==◌, length, str_eq, if◌then◌else◌,
  get_elem?,
}
use ooc.Cloud.{text}
use ooc.Cloud.Exec.{
  Env, Trace, Reply, Exec, pure, fail, crash, ask, deref, perform, catch, ◌>>=◌, ◌>>◌, wrap,
  make_dir, command, file_exist,
}
use ooc.Clusters.{given}
use ooc.Actions.{Machine, join_path, run_cmd}
use ooc.Actions.Files.{Package, archive_name, path_url, path_uri}

-- flagpole, as far as Build reads it
pub record BuildFlags : Type 0 where
  pub bucket : String
  pub regions : List String
  pub download : Bool
  pub dry_run : Bool
  pub os : String
  pub source_os : String
  pub arch : String
  pub project : String
  pub namespace_from : String
  pub namespace_to : String
  pub cloud_type : String
  pub docker_version : String
  pub etcd_version : String
  pub kubernetes_version : String
  pub cni_version : String
  pub run_version : String
  pub wdrip_version : String

-- What is not the repository's: a deep copy, the directory of $HOME, and what `ossutil ls` prints in a region.
pub record Toolbox : Type 0 where
  pub deep_copy : Package → Reply Package
  pub home : String
  pub listing : Trace → String → Reply String

-- the function that builds a package
pub data Recipe : Type 0 where
  tarball run_scripts made : Recipe

module _ (flags : BuildFlags) where
  -- NewDocker, NewEtcd, NewKubernetes, NewCNI, NewRun and NewWdrip
  unfoldable pub package_of : String → String → Package
  package_of pkg version = record {
    project = flags.project;
    namespace = flags.namespace_from;
    ctype = flags.cloud_type;
    pkg = pkg;
    version = version;
    arch = flags.arch;
    os = flags.source_os;
    ftype = "bin";
    destination = "";
  }

  unfoldable pub recipes : List (Package × Recipe)
  unfolding package_of
  recipes =
      (package_of "docker" flags.docker_version, tarball)
      ∷ (package_of "etcd" flags.etcd_version, tarball)
      ∷ (package_of "kubernetes" flags.kubernetes_version, tarball)
      ∷ (package_of "kubernetes-cni" flags.cni_version, tarball)
      ∷ (package_of "run" flags.run_version, run_scripts)
      ∷ (package_of "wdrip" flags.wdrip_version, made)
      ∷ []

unfoldable pub endpoint_of : String → String
endpoint_of region = concat (region ∷ ".oss.aliyuncs.com" ∷ [])

module _ (env : Env) (m : Machine) (tools : Toolbox) (flags : BuildFlags) where
  unfoldable pub temp_dir : String
  temp_dir = concat (tools.home ∷ "/.wdrip/cache" ∷ [])

  -- Upload2OSS
  unfoldable pub upload_to_oss : List String → String → String → Exec (Unit {0})
  unfolding endpoint_of run_cmd
  upload_to_oss [] from to = pure tt
  upload_to_oss (region ∷ regions) from to =
      wrap "upload pkg" (
        run_cmd env (
          "ossutil"
          ∷ "--endpoint"
          ∷ endpoint_of region
          ∷ "cp"
          ∷ "-u"
          ∷ from
          ∷ concat ("oss://" ∷ flags.bucket ∷ "-" ∷ region ∷ "/" ∷ to ∷ "/" ∷ [])
          ∷ []))
      >> upload_to_oss regions from to

  unfoldable pub ensure_bucket : String → Exec (Unit {0})
  unfolding endpoint_of run_cmd
  ensure_bucket region = do
    listed ←
        ask (command ("ossutil" ∷ "--endpoint" ∷ endpoint_of region ∷ "ls" ∷ []))
          (λ t. tools.listing t region)
    if contains listed flags.bucket
        then pure tt
        else run_cmd env (
            "ossutil"
            ∷ "--endpoint"
            ∷ endpoint_of region
            ∷ "mb"
            ∷ concat ("oss://" ∷ flags.bucket ∷ [])
            ∷ [])

  -- Tar
  unfoldable pub pack : String → String → Exec (Unit {0})
  unfolding run_cmd
  pack from name = do
    exist ←
        wrap "file not exist or read file error" (ask (file_exist from) (λ t. env.has_file t from))
    if exist
        then run_cmd env ("tar" ∷ "zcvf" ∷ name ∷ "-C" ∷ from ∷ "." ∷ [])
        else fail (text "file not exist or read file error: <nil>")

  -- the path that a package is uploaded to
  unfoldable pub target_of : Package → Exec Package
  unfolding given
  target_of from = given (tools.deep_copy from) >>= λ to.
      pure (record to { os = flags.os; namespace = flags.namespace_to })

  -- doBuild
  unfoldable pub build_tarball : Package → Exec (Unit {0})
  unfolding target_of pack upload_to_oss temp_dir join_path path_url archive_name
  build_tarball from = do
    to ← target_of from
    let name = join_path m (temp_dir ∷ archive_name from ∷ [])
    pack (join_path m (temp_dir ∷ path_url m from ∷ [])) name
    upload_to_oss flags.regions name (path_url m to)

  -- copyRunScript
  unfoldable pub copy_run_script : Package → String → Exec (Unit {0})
  unfolding target_of upload_to_oss path_url
  copy_run_script from provider = target_of from >>= λ to.
      upload_to_oss flags.regions (concat ("run/run." ∷ provider ∷ ".sh" ∷ [])) (path_url m to)

  -- BuildRunScript
  unfoldable pub build_run_scripts : Package → List String → Exec (Unit {0})
  unfolding copy_run_script
  build_run_scripts from [] = pure tt
  build_run_scripts from (provider ∷ rest) =
      wrap "build run script fail" (copy_run_script from provider) >> build_run_scripts from rest

  -- doBuildWdrip: the target of make and the file that it leaves
  unfoldable pub make_target : String × String
  make_target =
      if str_eq flags.arch "arm64"
      then ("wdriparm64", "build/bin/wdrip.arm64")
      else if str_eq flags.arch "amd64"
      then ("wdriplinux", "build/bin/wdrip.amd64")
      else ("wdripmac", "build/bin/wdrip")

  unfoldable pub build_wdrip : Package → Exec (Unit {0})
  unfolding make_target run_cmd target_of upload_to_oss join_path path_url
  build_wdrip from = do
    wrap "build wdrip error" (run_cmd env ("make" ∷ make_target.0 ∷ []))
    to ← target_of from
    upload_to_oss flags.regions (join_path m (make_target.1 ∷ []))
        (join_path m (path_url m to ∷ []))

  unfoldable pub run_recipe : Recipe → Package → Exec (Unit {0})
  unfolding build_tarball build_run_scripts build_wdrip
  run_recipe tarball from = build_tarball from
  run_recipe run_scripts from = build_run_scripts from ("alibaba" ∷ "boot" ∷ "replace" ∷ [])
  run_recipe made from = build_wdrip from

  -- build.download
  unfoldable pub download_package : Package → Exec (Unit {0})
  unfolding path_url path_uri run_cmd
  download_package p = do
    region ← deref (get_elem? flags.regions 0)
    wrap "enusre dire" (perform env (make_dir (path_url m p)))
    run_cmd env (
        "wget"
        ∷ concat
            ("http://" ∷ flags.bucket ∷ "-" ∷ region ∷ ".oss.aliyuncs.com/" ∷ path_uri m p ∷ [])
        ∷ "-O"
        ∷ path_uri m p
        ∷ [])

  -- the body of the second loop of Build
  unfoldable pub build_package : Package → Recipe → Exec (Unit {0})
  unfolding join_path path_url temp_dir download_package run_recipe
  build_package p recipe =
      if flags.dry_run
      then catch
          (perform env
            (make_dir (join_path m (temp_dir ∷ join_path m (path_url m p ∷ p.ftype ∷ []) ∷ []))))
          (λ _. fail (text "mkdir example dir failed")) pure
      else if str_eq p.version ""
      then pure tt
      else (if flags.download then wrap "download" (download_package p) else pure tt)
        >> wrap "build package with error" (run_recipe recipe p)

  unfoldable pub build_packages : List (Package × Recipe) → Exec (Unit {0})
  unfolding build_package
  build_packages [] = pure tt
  build_packages ((p, recipe) ∷ rest) = build_package p recipe >> build_packages rest

  unfoldable pub ensure_buckets : List String → Exec (Unit {0})
  unfolding ensure_bucket
  ensure_buckets [] = pure tt
  ensure_buckets (region ∷ rest) = ensure_bucket region >> ensure_buckets rest

  -- BuildContext.Build
  unfoldable pub build : Exec (Unit {0})
  unfolding recipes build_packages ensure_buckets
  build =
      (if flags.dry_run && (length flags.regions == 0) then crash else pure tt)
      >> ensure_buckets flags.regions
      >> build_packages (recipes flags)
