-- ===== src/Etcd/Boot.antt =====
-- The etcd action of a machine's bootstrap, with Snapshot and Restore (pkg/actions/etcd/etcd.go).
use ooc.Base.{
  ℕ, zero, suc, String, not, Option, List, [], ◌∷◌, str_eq, concat, if◌then◌else◌,
  join as join_text,
}
use ooc.Cloud.{Master, Member, text}
use ooc.Cloud.Exec.{
  Env, Exec, pure, fail, ask, perform, pause, catch, ◌>>=◌, ◌>>◌, wrap, maybe, file_exist,
  sign_etcd, snapshot_save, rename, snapshot_restore, remove_all, make_dir, add_user, write_unit,
  systemctl,
}
use ooc.Etcd.{Etcd, advertise, cert_home, member_list}
use ooc.Etcd.Join.{join, wait_endpoints, member_name}

-- Home
unfoldable pub home_of : Etcd → String
home_of m = if str_eq m.home "" then "/var/lib/etcd" else m.home

-- Snapshot, of the first peer; `filepath.Dir` of the target is given
unfoldable pub save_first : Env → String → String → List String → Exec (Unit {0})
unfolding advertise
save_first env dir parent [] = fail (text "empty peer endpoint, can not snapshot")
save_first env dir parent (first ∷ others) =
    wrap (concat ("make dir: " ∷ parent ∷ [])) (perform env (make_dir parent))
    >> perform env (snapshot_save (advertise first "2379") dir)

unfoldable pub snapshot : Env → Etcd → String → String → Exec (Unit {0})
unfolding save_first
snapshot env m dir parent =
    if str_eq dir ""
    then fail (text "empty snapshot target path")
    else save_first env dir parent m.peer

-- the loop of InitialEtcdCluster, which skips a member with no address
unfoldable pub member_addresses : List Member → List String
member_addresses [] = []
member_addresses (m ∷ mems) = elim m.peer_urls [
  | [] ↦ member_addresses mems
  | url ∷ urls ↦ concat ("etcd-" ∷ m.ip ∷ ".member=" ∷ url ∷ []) ∷ member_addresses mems
]

-- InitialEtcdCluster
unfoldable pub initial_etcd_cluster : String → List Member → String
unfolding member_addresses advertise
initial_etcd_cluster ip [] = concat ("etcd-" ∷ ip ∷ ".member=" ∷ advertise ip "2380" ∷ [])
initial_etcd_cluster ip (m ∷ mems) = join_text "," (member_addresses (m ∷ mems))

-- Env, the environment of the unit
unfoldable pub unit_env : Etcd → String → String → List Member → String → List (String × String)
unfolding cert_home home_of member_name advertise initial_etcd_cluster
unit_env m ip token mems state =
    let cert = cert_home (home_of m) in
    ("ETCD_INITIAL_CLUSTER_TOKEN", token)
    ∷ ("ETCD_PEER_TRUSTED_CA_FILE", cert "peer-ca.crt")
    ∷ ("ETCD_PEER_CERT_FILE", cert "peer.crt")
    ∷ ("ETCD_PEER_KEY_FILE", cert "peer.key")
    ∷ ("ETCD_NAME", member_name ip)
    ∷ ("ETCD_DATA_DIR", "data.etcd")
    ∷ ("ETCD_ELECTION_TIMEOUT", "3000")
    ∷ ("ETCD_HEARTBEAT_INTERVAL", "500")
    ∷ ("ETCD_SNAPSHOT_COUNT", "50000")
    ∷ ("ETCD_CLIENT_CERT_AUTH", "true")
    ∷ ("ETCD_TRUSTED_CA_FILE", cert "server-ca.crt")
    ∷ ("ETCD_CERT_FILE", cert "server.crt")
    ∷ ("ETCD_KEY_FILE", cert "server.key")
    ∷ ("ETCD_PEER_CLIENT_CERT_AUTH", "true")
    ∷ ("ETCD_INITIAL_ADVERTISE_PEER_URLS", advertise ip "2380")
    ∷ ("ETCD_LISTEN_PEER_URLS", advertise ip "2380")
    ∷ ("ETCD_ADVERTISE_CLIENT_URLS", advertise ip "2379")
    ∷ ("ETCD_LISTEN_CLIENT_URLS", advertise ip "2379")
    ∷ ("ETCD_INITIAL_CLUSTER", initial_etcd_cluster ip mems)
    ∷ ("ETCD_INITIAL_CLUSTER_STATE", state)
    ∷ []

-- the parts of the master of this machine that the action reads
pub record BootNode : Type 0 where
  pub master : Master
  pub token : String
  pub peers : List String

-- NewEtcd
unfoldable pub new_etcd : BootNode → Etcd
new_etcd node = record { me = node.master.ip; peer = node.peers; home = "" }

-- FlushEtcdContent writes the unit; the members are read only for a cluster that exists. The fixed lines
-- of the unit are left out.
unfoldable pub flush_etcd_content : Env → Etcd → BootNode → String → Exec (Unit {0})
unfolding unit_env member_list
flush_etcd_content env m node state = do
  mems ←
      if not (str_eq state "new")
      then wrap "member list: on etcd content" (member_list env m)
      else pure []
  perform env (write_unit (unit_env m node.master.ip node.token mems state))

-- BackOffJoinMember: wait.Poll sleeps before each try, `tries` times
unfoldable pub join_rounds : Env → Etcd → ℕ → Exec (Unit {0})
unfolding join
join_rounds env m zero = fail (text "timed out waiting for the condition")
join_rounds env m (suc tries) =
    let again = join_rounds env m tries in pause 5 >> catch (join env m) (λ _. again) (λ _. pure tt)

unfoldable pub back_off_join_member : Env → Etcd → Exec (Unit {0})
unfolding join_rounds
back_off_join_member env m = join_rounds env m (env.attempts 5 300)

-- an error that is only logged
unfoldable pub ignored : Exec (Unit {0}) → Exec (Unit {0})
ignored m = catch m (λ _. pure tt) pure

-- Restore: the data is moved to /root/db.bak unless a backup is there, then removed, and restored
unfoldable pub restore : Env → Etcd → BootNode → String → Exec (Unit {0})
unfolding home_of ignored member_name initial_etcd_cluster
restore env m node dir =
    let data_dir = concat (home_of m ∷ "/" ∷ "data.etcd" ∷ []) in
    if str_eq dir "" then fail (text "empty snapshot path") else do
      exist ←
          wrap "etcd backup file check"
            (ask (file_exist "/root/db.bak") (λ t. env.has_file t "/root/db.bak"))
      if not exist then ignored (perform env (rename data_dir "/root/db.bak")) else pure tt
      ignored (perform env (remove_all data_dir))
      perform env (
          snapshot_restore dir data_dir (member_name node.master.ip)
            (initial_etcd_cluster node.master.ip []))

-- the step of Execute that depends on the boot type, with the state of the cluster from then on
unfoldable pub enter_cluster : Env → Etcd → BootNode → String → Exec String
unfolding back_off_join_member restore
enter_cluster env m node boot_type =
    if str_eq boot_type "operator"
    then wrap (concat ("join etcd peer on bootType=" ∷ boot_type ∷ [])) (back_off_join_member env m)
      >> pure "existing"
    else if str_eq boot_type "recover"
    then wrap "restore snapshot" (restore env m node "/tmp/snapshot.db") >> pure "new"
    else pure "new"

unfoldable pub start_unit : Env → List (List String) → Exec (Unit {0})
start_unit env [] = pure tt
start_unit env (args ∷ rest) =
    wrap "systecmctl enable etcd error," (perform env (systemctl args)) >> start_unit env rest

-- Execute, the action's whole run
unfoldable pub execute : Env → Option BootNode → String → Exec (Unit {0})
unfolding new_etcd flush_etcd_content enter_cluster ignored start_unit wait_endpoints advertise
execute env o boot_type = maybe o (fail (text "can not get node info from ActionContex")) λ node. do
  let m = new_etcd node
  wrap "sign" (perform env (sign_etcd node.master))
  wrap "flush etcd content file /lib/systemd/system/etcd.service"
      (flush_etcd_content env m node "new")
  state ← enter_cluster env m node boot_type
  wrap "write file /lib/systemd/system/etcd.service" (flush_etcd_content env m node state)
  ignored (perform env (add_user (home_of m)))
  start_unit env
      (("enable" ∷ "etcd" ∷ []) ∷ ("daemon-reload" ∷ []) ∷ ("restart" ∷ "etcd" ∷ []) ∷ [])
  wait_endpoints env (advertise node.master.ip "2379")
