-- ===== src/Heal/Healet/Follower.antt =====
-- RemoveFollower (healet.go): the member that leaves the cluster of two is not the leader.
use ooc.Base.{
  ℕ, String, ◌≡◌, ◌≢◌, refl, Bool, false, Option, none, some, List, [], ◌∷◌, Any, All, inl, inr,
  arith, length, ◌==◌, map, if◌then◌else◌,
}
use ooc.Cloud.{Master, Cluster, text}
use ooc.Cloud.Exec.{
  Call, Env, Trace, Exec, Reply, failure, ok, answer, deref, pure, fail, wrap, ask, catch, ◌>>=◌,
  etcd_member_remove, Endpoint, etcd_endpoint_status,
}
use ooc.Cloud.Exec.Emits.{
  Emits, emits_rules, Emits-if, Emits-known, Emits-deref_bind, Emits-bind, Emits-wrap, Emits-fail,
}
use ooc.Etcd.{Etcd, remove_member, endpoints, etcd_tmp, sign_missing, new_etcd_from_crd, advertise}
use ooc.Etcd.Signing.{sign-Emits}
use ooc.Etcd.Calls.{try_each_peer-Emits}
use ooc.Heal.Healet.{same_id, member_of, remove_first_follower, remove_follower}

-- The endpoint reports the member's id, and another member as the leader.
abbrev pub Follows : ℕ → Endpoint → Type 0
Follows id e = (e.member_id ≡ some id) × ((l : ℕ) × (e.leader ≡ some l) × (l ≢ id))

-- etcdctl has listed the status of two endpoints, of which one is that of the member and names another
-- member as the leader.
abbrev pub IsFollowerCall : Env → Call → Type 0
IsFollowerCall env (etcd_member_remove _ id) =
    (t : Trace) × (hosts : List String) × (endps : List Endpoint) × (env.endpoints t hosts
      ≡ answer endps)
    × (length endps ≡ 2)
    × Any (Follows id) endps
IsFollowerCall env _ = Unit

module _ (env : Env) where
  module _ (metcd : Etcd) where
    leaves :
        (id : ℕ)
        → ((ip : String) → IsFollowerCall env (etcd_member_remove ip id))
        → Emits (IsFollowerCall env) (remove_member env metcd (member_of (some id)))
    unfolding remove_member member_of
    leaves id follower =
        let waits = λ (n : ℕ). tt {0} in search (emits_rules, try_each_peer-Emits) depth 10

    -- one endpoint, before the others
    compared :
        (e : Endpoint) (leader id : Option ℕ) (others : Exec String)
        → e.leader ≡ leader
        → e.member_id ≡ id
        → Emits (IsFollowerCall env) others
        → ((n : ℕ) → Follows n e → (ip : String) → IsFollowerCall env (etcd_member_remove ip n))
        → Emits (IsFollowerCall env) (
            deref (same_id leader id) >>= λ same.
            if same
            then others
            else wrap "remove member" (remove_member env metcd (member_of id)) >>= λ _.
                pure e.endpoint)
    unfolding same_id
    compared e none none others hl hi ih among =
        Emits-deref_bind _ _ (λ same h. Emits-if same _ _ (λ _. ih) (λ differ. absurd (cc)))
    compared e none (some b) others hl hi ih among = Emits-deref_bind _ _ (λ same h. absurd (cc))
    compared e (some a) none others hl hi ih among = Emits-deref_bind _ _ (λ same h. absurd (cc))
    compared e (some a) (some b) others hl hi ih among = Emits-deref_bind _ _ (λ same h.
        Emits-if same _ _ (λ _. ih)
          (λ differ.
            let apart : (a == b) ≡ false = cc in
            let left = leaves b (among b (hi, (a, hl, λ equal. ground arith))) in
            search emits_rules))

    first_follower-Emits :
        (rest : List Endpoint)
        → ((id : ℕ)
            → Any (Follows id) rest
            → (ip : String) → IsFollowerCall env (etcd_member_remove ip id))
        → Emits (IsFollowerCall env) (remove_first_follower env metcd rest)
    unfolding remove_first_follower
    first_follower-Emits [] among = search emits_rules
    first_follower-Emits (e ∷ rest) among =
        compared e e.leader e.member_id (remove_first_follower env metcd rest) refl refl
          (first_follower-Emits rest (λ id here. among id (inr here)))
          (λ id follows. among id (inl follows))

  etcd-Emits :
      (ms : List Master) (spec : Cluster)
      → Emits (IsFollowerCall env) (new_etcd_from_crd env ms spec etcd_tmp)
  unfolding new_etcd_from_crd
  etcd-Emits ms spec =
      let signed : (b : Bool) → Emits (IsFollowerCall env) (sign_missing env ms spec etcd_tmp b) =
        sign-Emits env (λ n. tt) (λ path. tt) (λ path body. tt) ms spec etcd_tmp in
      search emits_rules

  status-Emits :
      (metcd : Etcd)
      → Emits (IsFollowerCall env) (wrap "endpoint status fail" (endpoints env metcd))
  unfolding endpoints
  status-Emits metcd = search emits_rules

  replied :
      (c : Call) (f : Trace → Reply (List Endpoint)) (r : Reply (List Endpoint)) (t : Trace)
      (endps : List Endpoint)
      → f t ≡ r
      → (wrap "endpoint status fail" (wrap "endpoint status error" (ask c f)) t).0 ≡ ok endps
      → f t ≡ answer endps
  unfolding wrap catch ask pure fail
  replied c f (answer a) t endps e h = cc (rw e at h)
  replied c f (failure x) t endps e h = absurd (cc (rw e at h))

  -- what the status has been read from
  status_of :
      (metcd : Etcd) (t : Trace) (endps : List Endpoint)
      → (wrap "endpoint status fail" (endpoints env metcd) t).0 ≡ ok endps
      → (hosts : List String) × (env.endpoints t hosts ≡ answer endps)
  unfolding endpoints
  status_of metcd t endps h =
      let hosts = map (λ ip. advertise ip "2379") metcd.peer in
      (hosts, replied (etcd_endpoint_status hosts) (λ t'. env.endpoints t' hosts) _ t endps refl h)

  two-Emits :
      (metcd : Etcd) (t : Trace) (endps : List Endpoint)
      → (wrap "endpoint status fail" (endpoints env metcd) t).0 ≡ ok endps
      → Emits (IsFollowerCall env) (
          if length endps == 2
          then remove_first_follower env metcd endps
          else fail (text "remove follower can only work with 2 etcd member"))
  two-Emits metcd t endps h =
      Emits-if (length endps == 2) _ _
        (λ two.
          let (hosts, listed) = status_of metcd t endps h in
          first_follower-Emits metcd endps
            (λ id here ip. (t, hosts, endps, listed, ground arith, here)))
        (λ _. Emits-fail _)

  follower-Emits : Emits (IsFollowerCall env) (remove_follower env)
  unfolding remove_follower
  follower-Emits = Emits-bind _ _ (search emits_rules) (λ masters.
      Emits-bind _ _ (search emits_rules) (λ spec.
        Emits-bind _ _ (Emits-wrap _ _ (etcd-Emits masters spec))
          (λ metcd. Emits-known _ _ (status-Emits metcd) (two-Emits metcd))))

-- RemoveFollower asks to remove a member only if the status of etcd has listed two endpoints, one of
-- which reports the member's id and another member as its leader, whatever the outside world answers.
pub remove_follower-IsFollower : (env : Env) → All (IsFollowerCall env) (remove_follower env []).1
remove_follower-IsFollower env = (follower-Emits env).at [] tt
