-- ===== src/Help/Patch.antt =====
-- Patch (pkg/operator/controllers/help/patch.go) for nodes, and WaitHeartbeat (node.go).
use ooc.Base.{ℕ, zero, suc, String, Bool, true, false, if◌then◌else◌}
use ooc.Cloud.{Node, text}
use ooc.Cloud.Exec.{
  Env, Exec, pure, fail, ask, perform, catch, ◌>>=◌, ◌>>◌, wrap, get_node, patch_node, pause,
}
use ooc.Help.{node_heartbeat_ready}

-- Node
unfoldable pub fetch : Env → String → Exec Node
fetch env name = ask (get_node name) (λ t. env.node t name)

-- The setter is given a copy. Nothing is sent if the patch is empty.
unfoldable pub patch : Env → String → (Node → Node) → Exec (Unit {0})
unfolding fetch
patch env name setter = do
  target ← wrap "get origin object" (fetch env name)
  let ntarget = setter target
  if env.same_object target ntarget
      then pure tt
      else wrap "patch spec" (perform env (patch_node ntarget))

-- waitReady
unfoldable pub wait_ready : Env → String → Exec Bool
unfolding fetch
wait_ready env name =
    catch (fetch env name) (λ _. pure false)
      (λ node t. pure (node_heartbeat_ready (env.now t) node 0) t)

-- three rounds in a row, each followed by two seconds of sleep
unfoldable pub steady : Env → String → ℕ → Exec Bool
unfolding wait_ready
steady env name zero = pure true
steady env name (suc rounds) = do
  ready ← wait_ready env name
  if ready then pause 2 >> steady env name rounds else pure false

-- `tries` rounds of wait.PollImmediate
unfoldable pub poll : Env → ℕ → Exec Bool → Exec (Unit {0})
poll env zero condition = fail (text "timed out waiting for the condition")
poll env (suc tries) condition = do
  done ← condition
  if done then pure tt else pause 10 >> poll env tries condition

unfoldable pub wait_heartbeat : Env → String → ℕ → Exec (Unit {0})
unfolding poll steady
wait_heartbeat env name timeout = poll env (env.attempts 10 timeout) (steady env name 3)
