-- ===== src/Heal/Events/Stuck.antt =====
-- The worker that has handed over an event waits for ever.
use ooc.Base.{ℕ, ◌≡◌, refl, [], subst}
use ooc.Cloud.Exec.{Env}
use ooc.Heal.Events.{
  waiting, Pair, start, Contains, Step, ignore, notify, receive, resume, tick, fixed, Reach, here,
  later,
}

-- Nobody ever signals a channel, and a worker that waits keeps waiting.
Step-silent : {env : Env} {s u : Pair} → Step env s u → s.signalled ≡ [] → u.signalled ≡ []
Step-silent (ignore name t i e) h = h
Step-silent (notify name t i e) h = h
Step-silent (receive n w r) h = h
Step-silent (resume n w c) h = h
Step-silent (tick r) h = h
Step-silent (fixed r) h = h

Reach-silent : {env : Env} {s u : Pair} → Reach env s u → s.signalled ≡ [] → u.signalled ≡ []
Reach-silent here h = h
Reach-silent (later r st) h = Step-silent st (Reach-silent r h)

Step-waiting :
    {env : Env} {s u : Pair} (n : ℕ)
    → Step env s u
    → s.signalled ≡ []
    → s.worker ≡ waiting n
    → u.worker ≡ waiting n
Step-waiting n (ignore name t i e) h w = w
Step-waiting n (notify name t i e) h w = cc
Step-waiting n (receive m i r) h w = cc
Step-waiting n (resume m i c) h w = absurd (subst (Contains m) h c)
Step-waiting n (tick r) h w = w
Step-waiting n (fixed r) h w = w

Reach-waiting :
    {env : Env} {s u : Pair} (n : ℕ)
    → Reach env s u
    → s.signalled ≡ []
    → s.worker ≡ waiting n
    → u.worker ≡ waiting n
Reach-waiting n here h w = w
Reach-waiting n (later r st) h w = Step-waiting n st (Reach-silent r h) (Reach-waiting n r h w)

-- In every run from the start, once Healet.run has received the event of the reconciler's only worker,
-- the worker waits on the event's channel for ever: no later node is reconciled.
pub Reach-waiting_still :
    (env : Env) (u v : Pair) (n : ℕ)
    → Reach env start u
    → u.worker ≡ waiting n
    → Reach env u v
    → v.worker ≡ waiting n
Reach-waiting_still env u v n before w after = Reach-waiting n after (Reach-silent before refl) w
