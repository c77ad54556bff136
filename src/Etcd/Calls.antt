-- ===== src/Etcd/Calls.antt =====
-- Which calls TryEachPeer (etcd.go) makes: those of the function that it is given, and sleeps.
use ooc.Base.{ℕ, zero, suc, String, Option, none, some, List, [], ◌∷◌}
use ooc.Cloud.{Error}
use ooc.Cloud.Exec.{Call, Exec, sleep}
use ooc.Cloud.Exec.Emits.{Emits, emits_rules}
use ooc.Etcd.{rest_before, try_peer, give_up, try_peers, try_each_peer}

module _ {Q : Call → Type 0} {A : Type 0} (waits : (n : ℕ) → Q (sleep n)) where
  rest_before-Emits : (n : ℕ) (m : Exec A) → Emits Q m → Emits Q (rest_before n m)
  unfolding rest_before
  rest_before-Emits n m h = search emits_rules

  try_peer-Emits :
      (mfunc : String → Exec A) (interval : ℕ) (p : String) (left : ℕ) (e : Option Error)
      (others : Option Error → Exec A)
      → ((ip : String) → Emits Q (mfunc ip))
      → ((o : Option Error) → Emits Q (others o))
      → Emits Q (try_peer mfunc interval p left e others)
  unfolding try_peer
  try_peer-Emits mfunc interval p zero e others h k = k e
  try_peer-Emits mfunc interval p (suc left) e others h k =
      let ih = λ (x : Error). try_peer-Emits mfunc interval p left (some x) others h k in
      search (emits_rules, rest_before-Emits)

  try_peers-Emits :
      (initial : A) (mfunc : String → Exec A) (interval : ℕ) (peer : List String) (e : Option Error)
      → ((ip : String) → Emits Q (mfunc ip))
      → Emits Q (try_peers initial mfunc interval peer e)
  unfolding try_peers give_up
  try_peers-Emits initial mfunc interval [] e h = search emits_rules
  try_peers-Emits initial mfunc interval (p ∷ peer) e h =
      try_peer-Emits mfunc interval p 2 e _ h (λ o. try_peers-Emits initial mfunc interval peer o h)

  pub try_each_peer-Emits :
      (initial : A) (peer : List String) (interval : ℕ) (mfunc : String → Exec A)
      → ((ip : String) → Emits Q (mfunc ip))
      → Emits Q (try_each_peer initial peer interval mfunc)
  unfolding try_each_peer
  try_each_peer-Emits initial peer interval mfunc h =
      try_peers-Emits initial mfunc interval peer none h
