-- ===== src/Heal/Events.antt =====
-- The events of Healet (healet.go) and the reconciler of nodes that sends them
-- (pkg/operator/controllers/master/node_controller.go): a step relation over the goroutine of the one
-- worker of the reconciler and the goroutine of Healet.run, which meet on an unbuffered channel.
pub mod Stuck
use ooc.Base.{ℕ, suc, String, ◌≡◌, ◌≢◌, Bool, true, false, not, List, [], ◌∷◌, ◌⊎◌, if◌then◌else◌}
use ooc.Cloud.{Node, Error, text, not_found, retry, conflict, invalid}
use ooc.Cloud.Exec.{Env, Trace, Exec, ok, pure, fail, ask, catch, get_node}
use ooc.Help.{is_master, node_ready}

-- Reconcile until it knows whether to notify Healet: no, if the node is gone, is no master, or is ready
unfoldable pub lookup_error : Error → Exec Bool
lookup_error (not_found s) = pure false
lookup_error (text s) = fail (text s)
lookup_error (retry n) = fail (retry n)
lookup_error (conflict s) = fail (conflict s)
lookup_error (invalid s) = fail (invalid s)

unfoldable pub examine : Env → String → Exec Bool
unfolding lookup_error is_master node_ready ask
examine env name =
    catch (ask (get_node name) (λ t. env.node t name)) lookup_error
      (λ n. pure (if not (is_master n) then false else not (node_ready n)))

-- The worker has nothing to do, sends an event with the n-th channel `done`, or waits on that channel.
pub data Worker : Type 0 where
  idle : Worker
  sending waiting : ℕ → Worker

-- Healet.run waits in its `select`, or is in FixMasterNode after a tick. Its third case, an event of a
-- node pool, is left out: nothing sends to that channel, since NotifyNodePoolEvent sends to the channel
-- of nodes, as NotifyNodeEvent does.
pub data Healer : Type 0 where
  selecting fixing_masters : Healer

-- The channels `done` that have been made, and those that somebody has sent to or closed.
pub record Pair : Type 0 where
  pub worker : Worker
  pub healer : Healer
  pub made : ℕ
  pub signalled : List ℕ

abbrev pub start : Pair
start = record { worker = idle; healer = selecting; made = 0; signalled = [] }

abbrev pub Contains : ℕ → List ℕ → Type 0
Contains n [] = ⊥
Contains n (m ∷ ms) = (n ≡ m) ⊎ Contains n ms

-- One step of one of the two: the first four of Reconcile, which meets `run` in `receive`, the others of
-- `run`.
pub data Step (env : Env) (s : Pair) : Pair → Type 0 where
  ignore :
      (name : String) (t : Trace)
      → s.worker ≡ idle
      → (examine env name t).0 ≢ ok true
      → Step env s s
  notify :
      (name : String) (t : Trace)
      → s.worker ≡ idle
      → (examine env name t).0 ≡ ok true
      → Step env s (record s { worker = sending s.made; made = suc s.made })
  receive :
      (n : ℕ)
      → s.worker ≡ sending n
      → s.healer ≡ selecting
      → Step env s (record s { worker = waiting n })
  resume :
      (n : ℕ)
      → s.worker ≡ waiting n
      → Contains n s.signalled
      → Step env s (record s { worker = idle })
  tick : s.healer ≡ selecting → Step env s (record s { healer = fixing_masters })
  fixed : s.healer ≡ fixing_masters → Step env s (record s { healer = selecting })

pub data Reach (env : Env) (s : Pair) : Pair → Type 0 where
  here : Reach env s s
  later : {u v : Pair} → Reach env s u → Step env u v → Reach env s v
