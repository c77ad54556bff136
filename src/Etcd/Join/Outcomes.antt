-- ===== src/Etcd/Join/Outcomes.antt =====
-- What Join (etcd.go) has seen when it succeeds, when its wait ends, and when it panics.
use ooc.Base.{
  ℕ, suc, ◌+◌, ◌≤◌, String, ◌≡◌, refl, Bool, true, false, none, List, [], ◌∷◌, Any, arith, inl, inr,
  length, if◌then◌else◌, ◌==◌, ◌⊎◌, ◌∙◌, ap, sym, ltb,
}
use ooc.Cloud.{Member, text}
use ooc.Cloud.Exec.{
  Env, Exec, Trace, ok, panic, pure, fail, crash, perform, ask, pause, catch, ◌>>=◌, ◌>>◌, wrap,
  etcd_endpoint_health, sleep,
}
use ooc.Cloud.Exec.Success.{bind-Then, wrap-ok}
use ooc.Etcd.{Etcd, member_list}
use ooc.Etcd.Join.{
  first_urls, mem_advertise, wait_rounds, wait_endpoints, join_me, check_joined, join,
}

failed_anyway :
    (m : Exec (Unit {0})) (t : Trace)
    → ((m >> fail {A = Unit {0}} (text "concurrent etcd peer join")) t).0 ≡ ok tt
    → ⊥
unfolding fail
failed_anyway m t h =
    let (a, t', e, f) = bind-Then m (λ _. fail (text "concurrent etcd peer join")) t tt h in cc

not_taken :
    (b : Bool) (m : Exec (Unit {0})) (t : Trace)
    → ((if b then m >> fail (text "concurrent etcd peer join") else pure tt) t).0 ≡ ok tt
    → b ≡ false
not_taken true m t h = absurd (failed_anyway m t h)
not_taken false m t h = refl

check_joined-ok :
    (env : Env) (m : Etcd) (omems nmems : List Member) (t : Trace)
    → (check_joined env m omems nmems t).0 ≡ ok tt
    → length nmems ≤ length omems + 1
unfolding check_joined
check_joined-ok env m omems nmems t h = let alone = not_taken _ _ t h in ground arith

-- a check that succeeds makes no call
checked_last :
    (env : Env) (m : Etcd) (omems nmems : List Member) (t : Trace)
    → (check_joined env m omems nmems t).0 ≡ ok tt
    → (check_joined env m omems nmems t).1 ≡ t
unfolding check_joined pure
checked_last env m omems nmems t h =
    let alone = not_taken (ltb (length omems + 1) (length nmems)) _ t h in rw alone refl

-- the trace of the code whose first step has returned
ended :
    {A B : Type 0} (m : Exec A) (g : A → Exec B) (t t' : Trace) (a : A)
    → m t ≡ (ok a, t')
    → ((m >>= g) t).1 ≡ (g a t').1
unfolding ◌>>=◌ catch
ended m g t t' a h = rw h refl

-- If Join succeeds, it has listed the members, then it has joined without an error, and the list that
-- it has read next, with which it ends, has at most one member more than the first.
pub join-alone :
    (env : Env) (m : Etcd) (t : Trace)
    → (join env m t).0 ≡ ok tt
    → (omems : List Member) × (nmems : List Member) × (before : Trace) × (after : Trace)
      × (joining : Trace) × (member_list env m t ≡ (ok omems, before))
      × (join_me env m joining ≡ (ok tt, after))
      × (member_list env m after ≡ (ok nmems, (join env m t).1))
      × (length nmems ≤ length omems + 1)
unfolding join
join-alone env m t h =
    let (omems, t1, listed, h1) = bind-Then _ _ t tt h in
    let (urls, t2, advertised, h2) = bind-Then _ _ t1 tt h1 in
    let (_, t3, waited, h3) = bind-Then _ _ t2 tt h2 in
    let (_, t4, joined, h4) = bind-Then _ _ t3 tt h3 in
    let (nmems, t5, relisted, h5) = bind-Then _ _ t4 tt h4 in
    let ends : (join env m t).1 ≡ t5 =
      ended _ _ t t1 omems listed
      ∙ ended _ _ t1 t2 urls advertised
      ∙ ended _ _ t2 t3 tt waited
      ∙ ended _ _ t3 t4 tt joined
      ∙ ended _ _ t4 t5 nmems relisted
      ∙ checked_last env m omems nmems t5 h5 in
    (
      omems,
      nmems,
      t1,
      t4,
      t3,
      wrap-ok "peer" _ t t1 omems listed,
      wrap-ok "join peer fail" _ t3 t4 tt joined,
      wrap-ok "try list peer" _ t4 t5 nmems relisted ∙ ap (λ u. (ok nmems, u)) (sym ends),
      check_joined-ok env m omems nmems t5 h5,
    )

-- The endpoints answer the health check.
abbrev pub IsHealthy : Env → String → Type 0
IsHealthy env endpoints = (t : Trace) → env.refusal t (etcd_endpoint_health endpoints) ≡ none

module _ (env : Env) (endpoints : String) (up : IsHealthy env endpoints) where
  round :
      (tries cnt : ℕ) (t : Trace)
      → wait_rounds env endpoints (suc tries) cnt t
        ≡ (if cnt + 1 == 3 then pure tt else wait_rounds env endpoints tries (cnt + 1))
            (etcd_endpoint_health endpoints ∷ sleep 2 ∷ t)
  unfolding wait_rounds ◌>>=◌ catch perform pause ask
  round tries cnt t = rw (up (sleep 2 ∷ t)) refl

  three_rounds :
      (tries n : ℕ) (t : Trace)
      → n ≡ suc (suc (suc tries))
      → (wait_rounds env endpoints n 0 t).0 ≡ ok tt
  unfolding pure
  three_rounds tries n t e =
      rw (e, round (suc (suc tries)) 0 t, round (suc tries) 1 _, round tries 2 _) refl

-- WaitEndpoints returns without an error if the endpoints are healthy and its three minutes allow
-- for three rounds.
pub wait_endpoints-ok :
    (env : Env) (endpoints : String) (tries : ℕ) (t : Trace)
    → IsHealthy env endpoints
    → env.attempts 2 180 ≡ tries + 3
    → (wait_endpoints env endpoints t).0 ≡ ok tt
unfolding wait_endpoints
wait_endpoints-ok env endpoints tries t up enough =
    three_rounds env endpoints up tries (env.attempts 2 180) t (omega (arith, enough))

crash_later :
    {A B : Type 0} (m : Exec A) (g : A → Exec B) (t : Trace)
    → m t ≡ (panic, t)
    → (m >>= g) t ≡ (panic, t)
unfolding ◌>>=◌ catch
crash_later m g t h = rw h refl

List-cases :
    (urls : List String) → (urls ≡ []) ⊎ ((u : String) × (us : List String) × (urls ≡ u ∷ us))
List-cases [] = inl refl
List-cases (u ∷ us) = inr (u, us, refl)

first_urls-panic :
    (mems : List Member) (t : Trace)
    → Any (λ (v : Member). v.client_urls ≡ []) mems
    → first_urls mems t ≡ (panic, t)
unfolding first_urls crash
first_urls-panic [] t h = absurd h
first_urls-panic (v ∷ mems) t (inl silent) = rw silent refl
first_urls-panic (v ∷ mems) t (inr later) = elim (List-cases v.client_urls) [
  | inl silent ↦ rw silent refl
  | inr (url, urls, talks) ↦
      rw talks (crash_later (first_urls mems) _ t (first_urls-panic mems t later))
]

-- Join panics if one of the members that it lists first has no client URL, as a member that was added
-- and has not started yet.
pub join-panics :
    (env : Env) (m : Etcd) (omems : List Member) (t t' : Trace)
    → member_list env m t ≡ (ok omems, t')
    → Any (λ (v : Member). v.client_urls ≡ []) omems
    → (join env m t).0 ≡ panic
unfolding join mem_advertise wrap catch ◌>>=◌
join-panics env m omems t t' listed silent = rw (listed, first_urls-panic omems t' silent) refl
