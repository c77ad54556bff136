-- ===== src/Etcd/Join.antt =====
-- Join (pkg/actions/etcd/etcd.go): a new machine joins the etcd cluster of its peers.
pub mod Outcomes
use ooc.Base.{
  ℕ, zero, suc, ◌+◌, String, Bool, true, false, not, ◌&&◌, List, [], ◌∷◌, str_eq, ltb, ◌==◌,
  if◌then◌else◌, any, length, concat, join as join_text,
}
use ooc.Cloud.{Member, text}
use ooc.Cloud.Exec.{
  Env, Exec, pure, fail, crash, perform, pause, catch, ◌>>=◌, ◌>>◌, wrap, etcd_member_add,
  etcd_endpoint_health,
}
use ooc.Etcd.{Etcd, advertise, try_each_peer, member_list, remove_member, find_member_by_ip}

unfoldable pub member_name : String → String
member_name ip = concat ("etcd-" ∷ ip ∷ ".member" ∷ [])

-- memAdvertise reads the first client URL of every member.
unfoldable pub first_urls : List Member → Exec (List String)
first_urls [] = pure []
first_urls (m ∷ rest) =
    let others = first_urls rest in
    elim m.client_urls [ [] ↦ crash | url ∷ _ ↦ others >>= λ urls. pure (url ∷ urls) ]

unfoldable pub mem_advertise : List Member → Exec String
unfolding first_urls
mem_advertise mems = first_urls mems >>= λ urls. pure (join_text "," urls)

-- WaitEndpoints: `tries` rounds fit into its three minutes. The third success ends it; the successes
-- need not be in a row.
unfoldable pub wait_rounds : Env → String → ℕ → ℕ → Exec (Unit {0})
wait_rounds env endpoints zero cnt = fail (text "wait for etcd ready timeout")
wait_rounds env endpoints (suc tries) cnt =
    let failed = wait_rounds env endpoints tries cnt in
    let succeeded = wait_rounds env endpoints tries (cnt + 1) in
    pause 2
    >> catch (perform env (etcd_endpoint_health endpoints)) (λ _. failed)
        (λ _. if cnt + 1 == 3 then pure tt else succeeded)

unfoldable pub wait_endpoints : Env → String → Exec (Unit {0})
unfolding wait_rounds
wait_endpoints env endpoints = wait_rounds env endpoints (env.attempts 2 180) 0

-- JoinMe
unfoldable pub is_me : Etcd → Member → Bool
is_me m v = not (str_eq v.ip "") && str_eq v.ip m.me

unfoldable pub join_me : Env → Etcd → Exec (Unit {0})
unfolding is_me member_name
join_me env m =
    if length m.peer == 0
    then fail (text "major master does not exists")
    else try_each_peer tt m.peer 3 λ ip. do
      mems ← wrap "join me" (member_list env m)
      if any (is_me m) mems
          then pure tt
          else perform env
              (etcd_member_add (advertise ip "2379") (member_name m.me) (advertise m.me "2380"))

-- Join from the second list of members on
unfoldable pub check_joined : Env → Etcd → List Member → List Member → Exec (Unit {0})
check_joined env m omems nmems =
    if ltb (length omems + 1) (length nmems)
    then wrap "remove myself error" (remove_member env m (find_member_by_ip nmems m.me))
      >> fail (text "concurrent etcd peer join")
    else pure tt

unfoldable pub join : Env → Etcd → Exec (Unit {0})
unfolding mem_advertise wait_endpoints join_me check_joined
join env m = do
  omems ← wrap "peer" (member_list env m)
  urls ← mem_advertise omems
  wrap "wait etcd ready" (wait_endpoints env urls)
  wrap "join peer fail" (join_me env m)
  nmems ← wrap "try list peer" (member_list env m)
  check_joined env m omems nmems
