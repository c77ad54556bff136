-- ===== src/Bootstrap/Nodes/Calls.antt =====
-- Which calls the steps that all roles share make.
use ooc.Base.{
  refl, String, ◌≡◌, Bool, true, false, not, List, [], ◌∷◌, any, str_eq, split, if◌then◌else◌,
}
use ooc.Cloud.{ClusterSpec, Master}
use ooc.Cloud.Exec.{Call, Env, Exec, node_meta}
use ooc.Cloud.Exec.Confines.{
  Confined, Confined-pure, Confined-fail, Confined-crash, Confined-ask, Confined-deref, Confined-if,
  Confined-bind, Confined-wrap,
}
use ooc.Bootstrap.{NodeObject, Site}
use ooc.Bootstrap.Nodes.{platform, package_file, init_container_runtime, download_packages}
use ooc.Actions.{Machine, concurrent}
use ooc.Actions.Files.{docker_files}
use ooc.Actions.Kubeadm.{named, node_name}
use ooc.Actions.Kubelet.{configure_kubelet}
use ooc.Actions.Post.{Shelf}
use ooc.Actions.Calls.{
  Permits, VisitsMap, run_actions-Confined, block-Confined, dns-Confined, no_blocks, checked_blocks,
  write-Confined, services-Confined,
}
use ooc.Actions.Fetches.{install_files-Confined, docker-Confined}

module _ {Q : Call → Type 0} where
  named-Confined : (ip : String) (parts : List String) → Confined Q (named ip parts)
  unfolding named
  named-Confined ip [] = Confined-crash
  named-Confined ip (a ∷ []) = Confined-crash
  named-Confined ip (a ∷ b ∷ []) = Confined-pure _
  named-Confined ip (a ∷ b ∷ c ∷ rest) = Confined-crash

  pub node_name-Confined : (master : Master) → Confined Q (node_name master)
  unfolding node_name
  node_name-Confined master = named-Confined master.ip (split "." 0 master.id)

  pair-Confined :
      (a b : Exec (Unit {0})) → Confined Q a → Confined Q b → Confined Q (concurrent (a ∷ b ∷ []))
  unfolding concurrent
  pair-Confined a b ka kb =
      checked_blocks (a ∷ b ∷ []) (block-Confined a (b ∷ []) ka (block-Confined b [] kb no_blocks))

  both-Confined :
      (swapped : Bool) (a b : Exec (Unit {0}))
      → Confined Q a
      → Confined Q b
      → Confined Q (concurrent (if swapped then b ∷ a ∷ [] else a ∷ b ∷ []))
  both-Confined true a b ka kb = pair-Confined b a kb ka
  both-Confined false a b ka kb = pair-Confined a b ka kb

module _ {m : Machine} {Q : Call → Type 0} {may_write : String → Bool}
    (permits : Permits m Q may_write) (env : Env) (shelf : Shelf) (site : Site) where
  pub platform-Confined : Confined Q (platform site)
  unfolding platform
  platform-Confined = Confined-if (not site.has_meta) _ _ Confined-crash (
      Confined-bind _ _ (Confined-wrap _ _ (Confined-ask (node_meta "os") _ (permits.on_meta "os")))
        (λ os.
          Confined-bind _ _
            (Confined-wrap _ _ (Confined-ask (node_meta "arch") _ (permits.on_meta "arch")))
            (λ arch. Confined-pure _)))

  pub packages-Confined :
      (spec : ClusterSpec) (os arch : String)
      → Confined Q (download_packages env m shelf site spec os arch)
  unfolding download_packages package_file any
  packages-Confined spec os arch = record {
    at = λ I k t.
        Confined.at
          (both-Confined (m.swapped t) _ _
            (install_files-Confined permits env site
              (package_file site spec os arch "kubernetes" spec.version "pkg/kubernetes/" "" ∷ [])
              (refl, tt))
            (install_files-Confined permits env site
              (package_file site spec os arch "kubernetes-cni" "0.8.6" "" "/opt/cni/bin/" ∷ [])
              (refl, tt)))
          I k t;
  }

  pub runtime-Confined :
      (node : NodeObject)
      → VisitsMap m
      → any (λ (e : String × String). not (may_write e.0)) (docker_files m) ≡ false
      → Confined Q (init_container_runtime env m shelf site node)
  unfolding init_container_runtime package_file any
  runtime-Confined node order allowed = Confined-bind _ _ platform-Confined (λ p.
      Confined-bind _ _ (Confined-deref node.boot) (λ boot.
        Confined-if (str_eq boot.spec.runtime "containerd") _ _ (Confined-fail _) (
          run_actions-Confined _ _
            (install_files-Confined permits env site
              (package_file site boot.spec p.0 p.1 "docker" boot.spec.runtime_version "" "" ∷ [])
              (refl, tt))
            (docker-Confined permits env order allowed))))

  pub configure-Confined :
      (node : NodeObject)
      → may_write "/etc/systemd/system/kubelet.service" ≡ true
      → Confined Q (configure_kubelet env m node)
  unfolding configure_kubelet
  configure-Confined node allowed = Confined-bind _ _ (Confined-deref node.boot) (λ boot.
      Confined-bind _ _ (Confined-wrap _ _ (dns-Confined m _)) (λ ip.
        Confined-bind _ _ (node_name-Confined node.resource) (λ name.
          Confined-bind _ _
            (record {
              at = λ I k t.
                  Confined.at
                    (Confined-wrap "write file /etc/systemd/system/kubelet.service" _
                      (write-Confined permits env _ _ allowed))
                    I k t;
            })
            (λ _. services-Confined permits env (
              ("systecmctl enable kubelet error,", "enable" ∷ "kubelet" ∷ [])
              ∷ ("systecmctl enable kubelet error,", "daemon-reload" ∷ [])
              ∷ ("systecmctl start kubelet error,", "restart" ∷ "kubelet" ∷ [])
              ∷ [])))))
