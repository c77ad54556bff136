-- ===== src/Etcd.antt =====
-- pkg/actions/etcd/etcd.go: the etcd members, reached through `etcdctl` on one peer after the other.
pub mod Calls
pub mod Join
pub mod Peers
pub mod Signing
pub mod Boot
use ooc.Base.{
  ℕ, zero, suc, String, Bool, true, false, Option, none, some, List, [], ◌∷◌, map, str_eq, ltb,
  ◌==◌, if◌then◌else◌, concat, split,
}
use ooc.Cloud.{Master, Cluster, Member, Error, text}
use ooc.Cloud.Exec.{
  Env, Exec, Endpoint, pure, fail, crash, ask, deref, perform, pause, catch, ◌>>=◌, ◌>>◌, wrap,
  wrapped, maybe, file_exist, make_dir, write_file, sign_etcd, etcd_member_list,
  etcd_endpoint_status, etcd_member_remove,
}

pub record Etcd : Type 0 where
  pub me : String
  pub peer : List String
  pub home : String

unfoldable pub advertise : String → String → String
advertise ip port = concat ("https://" ∷ ip ∷ ":" ∷ port ∷ [])

unfoldable pub cert_home : String → String → String
cert_home home name =
    concat ((if str_eq home "" then "/var/lib/etcd" else home) ∷ "/cert/" ∷ name ∷ [])

abbrev pub etcd_tmp : String
etcd_tmp = "/var/tmp/etcd"

module _ {A : Type 0} where
  unfoldable pub rest_before : ℕ → Exec A → Exec A
  rest_before interval next = if interval == 0 then next else pause interval >> next

  -- The inner loop of TryEachPeer: `left` more calls for the peer, then the other peers.
  unfoldable pub try_peer :
      (String → Exec A) → ℕ → String → ℕ → Option Error → (Option Error → Exec A) → Exec A
  unfolding rest_before
  try_peer mfunc interval p zero last_error others = others last_error
  try_peer mfunc interval p (suc left) last_error others =
      catch (mfunc p) (λ e. rest_before interval (try_peer mfunc interval p left (some e) others))
        pure

  -- errors.Wrapf of a nil error is nil: with no peer the call succeeds, with what the variables of the
  -- caller held before it.
  unfoldable pub give_up : A → Option Error → Exec A
  give_up initial last_error =
      maybe last_error (pure initial) (λ e. fail (wrapped "NoMoreEndpointsToTry" e))

  unfoldable pub try_peers : A → (String → Exec A) → ℕ → List String → Option Error → Exec A
  unfolding try_peer give_up
  try_peers initial mfunc interval [] last_error = give_up initial last_error
  try_peers initial mfunc interval (p ∷ rest) last_error =
      try_peer mfunc interval p 2 last_error (try_peers initial mfunc interval rest)

  unfoldable pub try_each_peer : A → List String → ℕ → (String → Exec A) → Exec A
  unfolding try_peers
  try_each_peer initial peer interval mfunc = try_peers initial mfunc interval peer none

-- The IP in the first peer URL of a member, or none where MemberList fails; its three error texts are
-- one here.
unfoldable pub addr_of : List String → Option String
addr_of (_ ∷ rest ∷ _) = elim (split ":" 0 rest) [
  | [] ↦ none
  | ip ∷ tail ↦ elim tail [ [] ↦ none | _ ∷ _ ↦ some ip ]
]
addr_of _ = none

unfoldable pub member_ip : Member → Option String
unfolding addr_of
member_ip m = elim m.peer_urls [ [] ↦ none | url ∷ _ ↦ addr_of (split "//" 1 url) ]

unfoldable pub with_ips : List Member → Exec (List Member)
unfolding member_ip
with_ips [] = pure []
with_ips (m ∷ rest) =
    let others = with_ips rest in
    maybe (member_ip m) (fail (text "member list: unknown Advertise addr format"))
      (λ ip. others >>= λ ms. pure (record m { ip = ip } ∷ ms))

-- MemberList
unfoldable pub member_list : Env → Etcd → Exec (List Member)
unfolding try_each_peer with_ips advertise
member_list env m = try_each_peer [] m.peer 2 λ ip. do
  mems ←
      wrap "peer list error"
        (ask (etcd_member_list (advertise ip "2379")) (λ t. env.members t (advertise ip "2379")))
  with_ips mems

-- FindMemberByIP: the zero member if nothing is found
abbrev pub no_member : Member
no_member = record { id = 0; ip = ""; peer_urls = []; client_urls = [] }

unfoldable pub find_member_by_ip : List Member → String → Member
unfolding advertise
find_member_by_ip [] ip = no_member
find_member_by_ip (m ∷ rest) ip = elim m.peer_urls [
  | [] ↦ find_member_by_ip rest ip
  | url ∷ _ ↦ if str_eq url (advertise ip "2380") then m else find_member_by_ip rest ip
]

-- RemoveMember: a member with no id is skipped.
unfoldable pub remove_member : Env → Etcd → Member → Exec (Unit {0})
unfolding try_each_peer advertise
remove_member env m mem =
    if mem.id == 0
    then pure tt
    else try_each_peer tt m.peer 2
        λ ip. perform env (etcd_member_remove (advertise ip "2379") mem.id)

-- Endpoints
unfoldable pub endpoints : Env → Etcd → Exec (List Endpoint)
endpoints env m =
    let hosts = map (λ ip. advertise ip "2379") m.peer in
    wrap "endpoint status error" (ask (etcd_endpoint_status hosts) (λ t. env.endpoints t hosts))

-- NewEtcdFromCRD: `me` is the last address. `nodes[0]` is read only if there is no certificate yet.
unfoldable pub last_ip : String → List Master → String
last_ip ip [] = ip
last_ip ip (n ∷ rest) = last_ip n.ip rest

-- the files of LoadOrSign, and the loop that writes them
abbrev pub cert_files : List String
cert_files =
    "server.crt" ∷ "server.key" ∷ "server-ca.crt" ∷ "server-ca.key" ∷ "client.crt" ∷ "client.key"
    ∷ "peer.crt" ∷ "peer.key" ∷ "peer-ca.crt" ∷ "peer-ca.key" ∷ []

unfoldable pub write_certs : Env → String → List String → Exec (Unit {0})
unfolding cert_home
write_certs env home [] = pure tt
write_certs env home (name ∷ rest) =
    (λ t.
      wrap (concat ("write file " ∷ name ∷ []))
        (perform env (write_file (cert_home home name) (env.certificate t name))) t)
    >> write_certs env home rest

-- LoadOrSign; the authorities of the peers and of the servers may be nil
unfoldable pub load_or_sign : Env → Cluster → Master → String → Exec (Unit {0})
unfolding write_certs
load_or_sign env spec n home = do
  peer ← deref spec.peer_ca
  wrap "sign etcd peer cert fail," (perform env (sign_etcd n))
  server ← deref spec.server_ca
  wrap "sign etcd server cert fail," (perform env (sign_etcd n))
  wrap "sign etcd client cert fail," (perform env (sign_etcd n))
  wrap "mkdir etcd home dir" (perform env (make_dir (concat (home ∷ "/cert" ∷ []))))
  λ t. write_certs env home (env.file_order t cert_files) t

unfoldable pub sign_missing : Env → List Master → Cluster → String → Bool → Exec (Unit {0})
unfolding load_or_sign
sign_missing env nodes spec home true = pure tt
sign_missing env [] spec home false = crash
sign_missing env (n ∷ _) spec home false = wrap "try sign etcd" (load_or_sign env spec n home)

unfoldable pub new_etcd_from_crd : Env → List Master → Cluster → String → Exec Etcd
unfolding last_ip sign_missing cert_home
new_etcd_from_crd env nodes spec home = do
  exist ←
      ask (file_exist (cert_home home "client.key"))
        (λ t. env.has_file t (cert_home home "client.key"))
  sign_missing env nodes spec home exist
  pure (record { me = last_ip "" nodes; peer = map (λ (n : Master). n.ip) nodes; home = home })
