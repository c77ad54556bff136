-- ===== src/Bootstrap/Nodes/Worker.antt =====
-- What the boot of a worker writes and runs.
use ooc.Base.{String, ◌≡◌, Bool, true, false, List, [], ◌∷◌, concat, any, str_eq}
use ooc.Cloud.{ClusterSpec}
use ooc.Cloud.Exec.{Call, Env, write_file, command, move_file, unpack}
use ooc.Bootstrap.{Site}
use ooc.Actions.{Machine, join_path}
use ooc.Actions.Post.{Shelf}
use ooc.Actions.Calls.{is_kubeadm_init, is_program_dir, is_cache}

-- the units and settings of the container runtime, and the unit of the kubelet
abbrev pub is_worker_path : String → Bool
is_worker_path path = any (str_eq path) (
    "/lib/systemd/system/docker.service" ∷ "/lib/systemd/system/docker.socket"
    ∷ "/etc/containerd/config.toml" ∷ "/lib/systemd/system/containerd.service"
    ∷ "/etc/docker/daemon.json" ∷ "/etc/systemd/system/kubelet.service" ∷ [])

-- a call that writes no other file, moves files only into the directories of programs, unpacks a package
-- only below a cache, and does not make a control plane
abbrev pub IsWorkerCall : Machine → Call → Type 0
IsWorkerCall m (write_file path body) = is_worker_path path ≡ true
IsWorkerCall m (move_file source target) =
    (dest : String) × (name : String) × (is_program_dir dest ≡ true)
    × (target ≡ join_path m (dest ∷ name ∷ []))
IsWorkerCall m (unpack target source) =
    (cache : String) × (pkg : String) × (is_cache cache ≡ true)
    × (target ≡ join_path m (cache ∷ "extract" ∷ pkg ∷ []))
IsWorkerCall m (command args) = is_kubeadm_init args ≡ false
IsWorkerCall m c = Unit {0}

module _ (env : Env) (m : Machine) (shelf : Shelf) (site : Site) where
  abbrev join_args : String → ClusterSpec → List String
  join_args name spec =
      "kubeadm"
      ∷ "join"
      ∷ "--v=6"
      ∷ "--ignore-preflight-errors=all"
      ∷ "--node-name"
      ∷ name
      ∷ "--token"
      ∷ spec.kubeadm_token
      ∷ "--discovery-token-unsafe-skip-ca-verification"
      ∷ concat (spec.intranet ∷ ":6443" ∷ [])
      ∷ []
