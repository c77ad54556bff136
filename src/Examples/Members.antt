-- ===== src/Examples/Members.antt =====
-- The theorems on etcd's join, on node pools and on the cached masters at concrete inputs.
use ooc.Base.{
  none, ◌+◌, ◌≤◌, ◌≡◌, refl, List, [], ◌∷◌, length, concat, pieces, split, has_prefix, any,
}
use ooc.Cloud.{Member}
use ooc.Cloud.Exec.{Env, Trace, ok, pure, ask, perform, pause, catch, ◌>>=◌, wrap, maybe}
use ooc.Etcd.{Etcd, member_list, try_each_peer, with_ips, member_ip, addr_of, advertise}
use ooc.Etcd.Join.{
  join, wait_endpoints, wait_rounds, join_me, check_joined, mem_advertise, first_urls,
}
use ooc.Etcd.Join.Outcomes.{join-alone, wait_endpoints-ok}
use ooc.Masters.{Cache, registered, cached, load_key, add_masters}
use ooc.Masters.Refresh.{newest, registration, or_else, load-add_masters}
use ooc.Examples.Worlds.{master1, calm}

abbrev newcomer : Etcd
newcomer = record { me = "192.168.0.104"; peer = "192.168.0.103" ∷ []; home = "" }

-- Three rounds fit into three minutes.
abbrev patient : Env
patient = record calm { attempts = λ interval timeout. 3 }

wait_endpoints-ok_example : (wait_endpoints patient "https://192.168.0.103:2379" []).0 ≡ ok tt
wait_endpoints-ok_example =
    wait_endpoints-ok patient "https://192.168.0.103:2379" 0 [] (λ t. refl) refl

join-alone_example :
    (omems : List Member) × (nmems : List Member) × (before : Trace) × (after : Trace)
    × (joining : Trace) × (member_list patient newcomer [] ≡ (ok omems, before))
    × (join_me patient newcomer joining ≡ (ok tt, after))
    × (member_list patient newcomer after ≡ (ok nmems, (join patient newcomer []).1))
    × (length nmems ≤ length omems + 1)
unfolding join mem_advertise first_urls wait_endpoints wait_rounds join_me check_joined member_list
    try_each_peer with_ips member_ip addr_of advertise split pieces has_prefix concat catch wrap ask
    pure perform pause maybe ◌>>=◌ any
join-alone_example = join-alone patient newcomer [] refl

-- The cache knows a master that the cluster no longer has, and a node that has registered.
abbrev old_cache : Cache
old_cache =
    ("gone", cached (record master1 { name = "gone" }))
    ∷ ("i-1", registered (record { resource = master1; created = none; peers = []; boot = none }))
    ∷ (master1.name, cached master1)
    ∷ []

load-add_masters_example :
    load_key "gone" (add_masters old_cache (master1 ∷ []))
    ≡ or_else (newest "gone" (master1 ∷ [])) (registration (load_key "gone" old_cache))
unfolding load_key
load-add_masters_example =
    load-add_masters "gone" (master1 ∷ []) old_cache (refl, refl, (refl, (refl, refl, tt)))
