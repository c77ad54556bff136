-- ===== src/Actions/Kubelet.antt =====
-- The certificates and the unit of the kubelet (pkg/actions/kubeadm/kubelet.go).
use ooc.Base.{
  String, List, [], ◌∷◌, ◌++◌, map, Option, none, some, concat, join, contains, str_eq,
  if◌then◌else◌,
}
use ooc.Cloud.{Master, ClusterSpec}
use ooc.Cloud.Exec.{
  Env, Exec, pure, fail, perform, catch, ◌>>=◌, ◌>>◌, wrap, deref, message, make_dir, remove_file,
}
use ooc.Bootstrap.{NodeObject, Site}
use ooc.Actions.{Machine, join_path, get_dns_ip, run_cmd, write, write_all, start_service}
use ooc.Actions.Kubeadm.{node_name}

-- certHome
unfoldable pub cert_path : Machine → String → String
unfolding join_path
cert_path m name = join_path m ("/etc/kubernetes/pki/" ∷ name ∷ [])

abbrev pub former_certs : List String
former_certs =
    "apiserver.crt" ∷ "apiserver.key" ∷ "front-proxy-client.crt" ∷ "front-proxy-client.key"
    ∷ "apiserver-kubelet-client.crt" ∷ "apiserver-kubelet-client.key" ∷ "../admin.conf"
    ∷ "../controller-manager.conf" ∷ "../kubelet.conf" ∷ "../scheduler.conf"
    ∷ "/var/lib/kubelet/pki/" ∷ []

unfoldable pub remove_certs : Env → Machine → List String → Exec (Unit {0})
unfolding cert_path
remove_certs env m [] = pure tt
remove_certs env m (name ∷ rest) =
    catch (perform env (remove_file (cert_path m name)))
      (λ e.
        if contains (message e) "no such file or directory"
        then pure tt
        else wrap "clean up existing cert fail" (fail e))
      pure
    >> remove_certs env m rest

unfoldable pub control_cert : Machine → Option String → String
control_cert m none = ""
control_cert m (some ca) = m.cert ca

-- the map of LoadCert
unfoldable pub pki_files :
    Machine → Option String → String → String → String → List (String × String)
unfolding control_cert
pki_files m control root front sa =
    ("front-proxy-ca.crt", m.cert front)
    ∷ ("front-proxy-ca.key", m.key front)
    ∷ ("ca.crt", m.cert root)
    ∷ ("ca.key", m.key root)
    ∷ ("sa.key", m.key sa)
    ∷ ("sa.pub", m.cert sa)
    ∷ ("apiserver-ca.crt", concat (m.cert root ∷ control_cert m control ∷ []))
    ∷ ("apiserver-ca.key", m.key root)
    ∷ []

unfoldable pub write_note : String → String
write_note name = concat ("write file " ∷ name ∷ [])

-- LoadCert
unfoldable pub load_cert : Env → Machine → NodeObject → Exec (Unit {0})
unfolding pki_files write_all write_note cert_path remove_certs run_cmd
load_cert env m node = do
  wrap "mkdir error" (perform env (make_dir "/etc/kubernetes/pki"))
  boot ← deref node.boot
  root ← deref boot.spec.root_ca
  front ← deref boot.spec.front_proxy_ca
  sa ← deref boot.spec.svc_account_ca
  λ t.
      write_all env write_note (cert_path m)
        (m.map_order t (pki_files m boot.spec.control_root root front sa)) t
  remove_certs env m former_certs
  run_cmd env ("rm" ∷ "-rf" ∷ "/var/lib/kubelet/pki/" ∷ [])

-- the environment of KubeletUnitFile
unfoldable pub kubelet_env : ClusterSpec → Master → String → String → List (String × String)
kubelet_env spec master name ip =
    ("KUBELET_CLUSTER_DNS", concat ("--cluster-dns=" ∷ ip ∷ []))
    ∷ ("KUBELET_DOMAIN", "--cluster-domain=cluster.local")
    ∷ ("KUBELET_CGROUP_DRIVER", "--cgroup-driver=systemd")
    ∷ ("KUBELET_BOOTSTRAP_ARGS", "--bootstrap-kubeconfig=/etc/kubernetes/bootstrap-kubelet.conf")
    ∷ ("KUBELET_KUBECONFIG_ARGS", "--kubeconfig=/etc/kubernetes/kubelet.conf")
    ∷ ("KUBELET_SYSTEM_PODS_ARGS", "--pod-manifest-path=/etc/kubernetes/manifests")
    ∷ (
      "KUBELET_NETWORK_ARGS",
      "--network-plugin=cni --cni-conf-dir=/etc/cni/net.d --cni-bin-dir=/opt/cni/bin",
    )
    ∷ (
      "KUBELET_POD_INFRA_CONTAINER",
      concat ("--pod-infra-container-image=" ∷ spec.registry ∷ "/pause-amd64:3.1" ∷ []),
    )
    ∷ (
      "KUBELET_HOSTNAME_OVERRIDE",
      concat ("--hostname-override=" ∷ name ∷ " --provider-id=" ∷ master.id ∷ []),
    )
    ∷ (
      "KUBELET_CERTIFICATE_ARGS",
      "--anonymous-auth=false --rotate-certificates=true --cert-dir=/var/lib/kubelet/pki",
    )
    ∷ (
      "KUBELET_AUTHZ_ARGS",
      "--authorization-mode=Webhook --client-ca-file=/etc/kubernetes/pki/ca.crt",
    )
    ∷ (
      "KUBELET_SYSTEM_RESERVED",
      concat (
          "--system-reserved=memory=300Mi --kube-reserved=memory=400Mi "
          ∷ "--eviction-hard=imagefs.available<15%,memory.available<300Mi,"
          ∷ "nodefs.available<10%,nodefs.inodesFree<5%" ∷ []),
    )
    ∷ []

-- KubeletUnitFile, of the environment in the order of the range over it
unfoldable pub exec_start : List (String × String) → String
exec_start vars = concat (
    "ExecStart=/usr/bin/kubelet "
    ∷ join " " (map (λ (v : String × String). concat ("$" ∷ v.0 ∷ [])) vars)
    ∷ [])

unfoldable pub env_line : String × String → String
env_line v = concat ("Environment=\"" ∷ v.0 ∷ "=" ∷ v.1 ∷ "\"" ∷ [])

unfoldable pub kubelet_unit : List (String × String) → String
unfolding exec_start env_line
kubelet_unit vars = join "\n" (
    "[Unit]"
    ∷ "Description=kubelet: The Kubernetes NodeObject Agent"
    ∷ "Documentation=http://kubernetes.io/docs/"
    ∷ ""
    ∷ "[Service]"
    ∷ (map env_line vars
        ++ (exec_start vars
            ∷ "StartLimitInterval=0"
            ∷ "Restart=always"
            ∷ "RestartSec=15s"
            ∷ "[Install]"
            ∷ "WantedBy=multi-user.target"
            ∷ [])))

-- the step of ActionKubelet that depends on the role
unfoldable pub load_cert_of : Env → Machine → NodeObject → String → Exec (Unit {0})
unfolding load_cert
load_cert_of env m node role =
    if str_eq role "Worker"
    then pure tt
    else if str_eq role "Master"
    then wrap "sign" (load_cert env m node)
    else if str_eq role "Hybrid"
    then wrap "sign" (load_cert env m node)
    else pure tt

-- ActionKubelet, and what it does after that step
unfoldable pub configure_kubelet : Env → Machine → NodeObject → Exec (Unit {0})
unfolding get_dns_ip node_name kubelet_unit kubelet_env write start_service
configure_kubelet env m node = do
  boot ← deref node.boot
  ip ← wrap "get cluster dns ip fail" (get_dns_ip m boot.spec.svc_cidr 10)
  name ← node_name node.resource
  λ t.
      wrap "write file /etc/systemd/system/kubelet.service"
        (write env "/etc/systemd/system/kubelet.service"
          (kubelet_unit (m.map_order t (kubelet_env boot.spec node.resource name ip))))
        t
  start_service env (
      ("systecmctl enable kubelet error,", "enable" ∷ "kubelet" ∷ [])
      ∷ ("systecmctl enable kubelet error,", "daemon-reload" ∷ [])
      ∷ ("systecmctl start kubelet error,", "restart" ∷ "kubelet" ∷ [])
      ∷ [])

unfoldable pub start_kubelet : Env → Machine → Site → NodeObject → Exec (Unit {0})
unfolding load_cert_of configure_kubelet
start_kubelet env m site node =
    load_cert_of env m node site.flags.role >> configure_kubelet env m node
