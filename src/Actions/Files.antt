-- ===== src/Actions/Files.antt =====
-- Packages that a machine downloads, unpacks and installs (pkg/actions/file), and the action that
-- starts the container runtime (pkg/actions/runtime/docker.go).
use ooc.Base.{
  ℕ, suc, String, Bool, true, false, List, [], ◌∷◌, map, concat, str_eq, if◌then◌else◌, get_elem?,
}
use ooc.Cloud.{text}
use ooc.Cloud.Exec.{
  Env, Exec, pure, fail, ask, perform, ◌>>=◌, ◌>>◌, wrap, maybe, make_dir, move_file, unpack,
  read_dir, systemctl, node_meta,
}
use ooc.Etcd.Boot.{ignored}
use ooc.Bootstrap.{Site}
use ooc.Bootstrap.Initialize.{with_meta}
use ooc.Actions.{Machine, run_blocks, has_error, join_path, run_cmd, write_all}

pub record Package : Type 0 where
  pub project : String
  pub namespace : String
  pub ctype : String
  pub pkg : String
  pub version : String
  pub arch : String
  pub os : String
  pub ftype : String
  pub destination : String

pub record File : Type 0 where
  pub bucket : String
  pub region : String
  pub base_server : String
  pub cache : String
  pub versioned_path : Package

-- Name, URL and URI of a path
unfoldable pub archive_name : Package → String
archive_name p = concat (p.pkg ∷ "-" ∷ p.version ∷ ".tar.gz" ∷ [])

unfoldable pub path_url : Machine → Package → String
unfolding join_path
path_url m p =
    join_path m (p.project ∷ p.namespace ∷ p.ctype ∷ p.pkg ∷ p.version ∷ p.arch ∷ p.os ∷ [])

unfoldable pub path_uri : Machine → Package → String
unfolding join_path path_url archive_name
path_uri m p = join_path m (path_url m p ∷ archive_name p ∷ [])

-- wget
unfoldable pub source_url : Machine → File → String
unfolding path_uri
source_url m f =
    let server =
      if str_eq f.base_server ""
      then concat (
          "http://" ∷ f.bucket ∷ "-" ∷ f.region ∷ ".oss-" ∷ f.region ∷ "-internal.aliyuncs.com/"
          ∷ [])
      else f.base_server in
    concat (server ∷ "/" ∷ path_uri m f.versioned_path ∷ [])

unfoldable pub cache_dir : Machine → File → String
unfolding join_path
cache_dir m f = join_path m (f.cache ∷ "cache" ∷ f.versioned_path.pkg ∷ [])

unfoldable pub extract_dir : Machine → File → String
unfolding join_path
extract_dir m f = join_path m (f.cache ∷ "extract" ∷ f.versioned_path.pkg ∷ [])

unfoldable pub cached_archive : Machine → File → String
unfolding join_path cache_dir archive_name
cached_archive m f = join_path m (cache_dir m f ∷ archive_name f.versioned_path ∷ [])

-- Download
unfoldable pub download : Env → Machine → File → Exec (Unit {0})
unfolding cache_dir source_url cached_archive run_cmd
download env m f =
    wrap "enusre dire" (perform env (make_dir (cache_dir m f)))
    >> (if str_eq f.versioned_path.os "centos"
        then run_cmd env (
            "wget"
            ∷ "--tries"
            ∷ "10"
            ∷ "--no-check-certificate"
            ∷ "-q"
            ∷ source_url m f
            ∷ "-O"
            ∷ cached_archive m f
            ∷ [])
        else pure tt)

-- doRPM: the files of the directory
unfoldable pub rpm_paths : Machine → String → List (String × Bool) → List String
unfolding join_path
rpm_paths m dir [] = []
rpm_paths m dir ((name, true) ∷ rest) = rpm_paths m dir rest
rpm_paths m dir ((name, false) ∷ rest) = join_path m (dir ∷ name ∷ []) ∷ rpm_paths m dir rest

unfoldable pub do_rpm : Env → Machine → File → Exec (Unit {0})
unfolding rpm_paths extract_dir join_path run_cmd
do_rpm env m f =
    let dir = join_path m (extract_dir m f ∷ "rpm" ∷ []) in
    ask (read_dir dir) (λ t. m.list_dir t dir) >>= λ entries.
    run_cmd env ("yum" ∷ "localinstall" ∷ "-y" ∷ rpm_paths m dir entries)

-- the loop of doBin
unfoldable pub move_binaries :
    Env → Machine → File → String → List (String × Bool) → Exec (Unit {0})
unfolding join_path run_cmd
move_binaries env m f dir [] = pure tt
move_binaries env m f dir ((name, true) ∷ rest) = move_binaries env m f dir rest
move_binaries env m f dir ((name, false) ∷ rest) =
    let path = join_path m (dir ∷ name ∷ []) in
    let dest =
      if str_eq f.versioned_path.destination "" then "/usr/bin" else f.versioned_path.destination in
    run_cmd env ("chmod" ∷ "+x" ∷ path ∷ [])
    >> wrap "enusre dire" (perform env (make_dir dest))
    >> wrap "mv file error" (perform env (move_file path (join_path m (dest ∷ name ∷ []))))
    >> move_binaries env m f dir rest

unfoldable pub do_bin : Env → Machine → File → Exec (Unit {0})
unfolding move_binaries extract_dir join_path
do_bin env m f =
    let dir = join_path m (extract_dir m f ∷ "bin" ∷ []) in
    wrap "list file error" (ask (read_dir dir) (λ t. m.list_dir t dir))
    >>= move_binaries env m f dir

-- Install; its list of errors holds one error at most
unfoldable pub install_package : Env → Machine → File → Exec (Unit {0})
unfolding do_bin do_rpm has_error
install_package env m f =
    if str_eq f.versioned_path.ftype "bin"
    then (run_blocks (do_bin env m f ∷ []) >>= has_error)
    else if str_eq f.versioned_path.ftype "rpm"
    then (run_blocks (do_rpm env m f ∷ []) >>= has_error)
    else pure tt

-- the goroutine of the action
unfoldable pub install_file : Env → Machine → File → Exec (Unit {0})
unfolding download install_package extract_dir cached_archive
install_file env m f =
    download env m f
    >> perform env (unpack (extract_dir m f) (cached_archive m f))
    >> install_package env m f

-- The goroutine that the n-th round starts has a pointer to the loop's variable, and works on the file
-- that the variable holds when it runs.
unfoldable pub started : Env → Machine → List File → ℕ → List File → List (Exec (Unit {0}))
unfolding install_file
started env m files n [] = []
started env m files n (f ∷ rest) =
    maybe (get_elem? files (m.seen n)) (install_file env m f) (install_file env m)
    ∷ started env m files (suc n) rest

unfoldable pub make_caches : Env → Machine → List File → Exec (Unit {0})
unfolding cache_dir
make_caches env m [] = pure tt
make_caches env m (f ∷ rest) = perform env (make_dir (cache_dir m f)) >> make_caches env m rest

unfoldable pub in_region : String → File → File
in_region region f = record f { region = region }

-- Execute of the file action; the goroutines run when all directories are made
unfoldable pub install_files : Env → Machine → Site → List File → Exec (Unit {0})
unfolding with_meta make_caches started run_blocks has_error in_region
install_files env m site files = with_meta site do
  region ← wrap "empty region" (ask (node_meta "region") (λ t. site.metadata t "region"))
  if str_eq region "" then fail (text "empty region") else do
    make_caches env m files
    errs ←
        run_blocks (started env m (map (in_region region) files) 0 (map (in_region region) files))
    has_error errs

abbrev pub docker_files : Machine → List (String × String)
docker_files m =
    ("/lib/systemd/system/docker.service", m.fixed_text "docker.service")
    ∷ ("/lib/systemd/system/docker.socket", m.fixed_text "docker.socket")
    ∷ ("/etc/containerd/config.toml", m.fixed_text "config.toml")
    ∷ ("/lib/systemd/system/containerd.service", m.fixed_text "containerd.service")
    ∷ ("/etc/docker/daemon.json", m.fixed_text "daemon.json")
    ∷ []

-- Execute of the docker action
unfoldable pub start_docker : Env → Machine → Exec (Unit {0})
unfolding write_all run_cmd ignored
start_docker env m =
    wrap "make /etc/docker dir" (perform env (make_dir "/etc/docker"))
    >> wrap "make /etc/docker dir" (perform env (make_dir "/etc/containerd"))
    >> (λ t.
        write_all env (λ path. "write docker config") (λ path. path)
          (m.map_order t (docker_files m)) t)
    >> ignored (run_cmd env ("groupadd" ∷ "-r" ∷ "docker" ∷ []))
    >> wrap "systecmctl enable docker error," (perform env (systemctl ("enable" ∷ "docker" ∷ [])))
    >> perform env (systemctl ("start" ∷ "docker" ∷ []))
