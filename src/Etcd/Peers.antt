-- ===== src/Etcd/Peers.antt =====
-- TryEachPeer (etcd.go): the peers are asked in their order, each of them at most twice.
use ooc.Base.{
  ℕ, String, ◌≡◌, refl, Option, none, some, List, [], ◌∷◌, ◌++◌, All, inl, inr, ◌==◌, ap, ◌∙◌, zero,
  suc, Bool-cases,
}
use ooc.Cloud.{Error}
use ooc.Cloud.Exec.{Exec, Trace, ok, err, pure, catch, ◌>>=◌, pause, ask, sleep}
use ooc.Etcd.{rest_before, try_peer, try_peers, try_each_peer}

-- The peer answers every call with an error, after whatever calls.
abbrev pub IsDown : {A : Type 0} → (String → Exec A) → String → Type 0
IsDown mfunc p = (t : Trace) → (e : Error) × ((mfunc p t).0 ≡ err e)

-- The peer answers every call with the value.
abbrev pub Answers : {A : Type 0} → (String → Exec A) → String → A → Type 0
Answers mfunc p a = (t : Trace) → (mfunc p t).0 ≡ ok a

module _ {A : Type 0} (mfunc : String → Exec A) (interval : ℕ) where
  -- what code does whose first step fails
  catch_err :
      (m : Exec A) (f : Error → Exec A) (e : Error) (t : Trace)
      → (m t).0 ≡ err e
      → catch m f pure t ≡ f e (m t).1
  unfolding catch
  catch_err m f e t h = rw h refl

  catch_ok :
      (m : Exec A) (f : Error → Exec A) (a : A) (t : Trace)
      → (m t).0 ≡ ok a
      → (catch m f pure t).0 ≡ ok a
  unfolding catch pure
  catch_ok m f a t h = rw h refl

  rested : (m : Exec A) (t : Trace) → (t' : Trace) × (rest_before interval m t ≡ m t')
  unfolding rest_before pause ask ◌>>=◌
  rested m t = elim (Bool-cases (interval == 0)) [
    | inl zero_wait ↦ (t, rw zero_wait refl)
    | inr waits ↦ (sleep interval ∷ t, rw waits refl)
  ]

  -- a peer that is down is tried until no call is left, then come the others
  down_peer :
      (p : String) (left : ℕ) (others : Option Error → Exec A) (last_error : Error) (t : Trace)
      → IsDown mfunc p
      → (e : Error) × (t' : Trace) × (try_peer mfunc interval p left (some last_error) others t
          ≡ others (some e) t')
  unfolding try_peer
  down_peer p zero others last_error t down = (last_error, t, refl)
  down_peer p (suc left) others last_error t down =
      let (e, failed) = down t in
      let again = try_peer mfunc interval p left (some e) others in
      let (t', waited) = rested again (mfunc p t).1 in
      let (e', t'', gone) = down_peer p left others e t' down in
      (
        e',
        t'',
        catch_err (mfunc p)
              (λ x. rest_before interval (try_peer mfunc interval p left (some x) others)) e t
              failed
            ∙ waited
            ∙ gone,
      )

  skip_peer :
      (p : String) (others : Option Error → Exec A) (last_error : Option Error) (t : Trace)
      → IsDown mfunc p
      → (e : Error) × (t' : Trace) × (try_peer mfunc interval p 2 last_error others t
          ≡ others (some e) t')
  unfolding try_peer
  skip_peer p others last_error t down =
      let (e, failed) = down t in
      let again = try_peer mfunc interval p 1 (some e) others in
      let (t', waited) = rested again (mfunc p t).1 in
      let (e', t'', gone) = down_peer p 1 others e t' down in
      (
        e',
        t'',
        catch_err (mfunc p)
              (λ x. rest_before interval (try_peer mfunc interval p 1 (some x) others)) e t failed
            ∙ waited
            ∙ gone,
      )

  module _ (initial : A) where
    reach :
        (down : List String) (p : String) (rest : List String) (a : A) (last_error : Option Error)
        (t : Trace)
        → All (IsDown mfunc) down
        → Answers mfunc p a
        → (try_peers initial mfunc interval (down ++ p ∷ rest) last_error t).0 ≡ ok a
    unfolding try_peers try_peer
    reach [] p rest a last_error t none_down up = catch_ok (mfunc p) _ a t (up t)
    reach (q ∷ down) p rest a last_error t none_up up =
        let (e, t', skipped) =
          skip_peer q (try_peers initial mfunc interval (down ++ p ∷ rest)) last_error t
            none_up.0 in
        ap (λ r. r.0) skipped ∙ reach down p rest a (some e) t' none_up.1 up

-- TryEachPeer returns the answer of the first peer that is up, however many peers before it are
-- down; the peers after it do not matter.
pub try_each_peer-reaches :
    {A : Type 0} (initial : A) (mfunc : String → Exec A) (interval : ℕ) (down : List String)
    (p : String) (rest : List String) (a : A) (t : Trace)
    → All (IsDown mfunc) down
    → Answers mfunc p a
    → (try_each_peer initial (down ++ p ∷ rest) interval mfunc t).0 ≡ ok a
unfolding try_each_peer
try_each_peer-reaches initial mfunc interval down p rest a t none_up up =
    reach mfunc interval initial down p rest a none t none_up up
