-- ===== src/Alibaba/Commands.antt =====
-- RunCommand (instance.go): a script on a machine, begun when no other runs there, and its output.
use ooc.Base.{
  ℕ, String, ◌==◌, Bool, true, false, not, List, [], ◌∷◌, length, select, str_eq, if◌then◌else◌,
}
use ooc.Cloud.Sdk.{describe_invocations, run_script, describe_results}
use ooc.Cloud.Exec.{Exec, pure, ask, catch, ◌>>=◌, ◌>>◌, wrap, sdk, outcome}
use ooc.Alibaba.{Sdk, CommandResult, poll_state}

-- provider.Result
pub record Result : Type 0 where
  pub status : String
  pub output : String

abbrev pub no_result : Result
no_result = record { status = ""; output = "" }

-- the condition of waitInvocation; an error of the request is only logged
unfoldable pub all_idle : ℕ → List String → Bool
all_idle total statuses =
    if total == 0 then true else length (select (λ s. str_eq s "Running") statuses) == 0

unfoldable pub invocation_idle : Sdk → String → Unit {0} → Exec (Bool × Unit {0})
unfolding all_idle ask
invocation_idle api id s =
    catch (ask (sdk (describe_invocations id)) (λ t. api.invocations t id)) (λ _. pure (false, tt))
      (λ inv. pure (all_idle inv.0 inv.1, tt))

-- ecs.Invocation: its status and its results
abbrev pub Invocation : Type 0
Invocation = String × List CommandResult

unfoldable pub is_finished : List CommandResult → Bool
is_finished [] = false
is_finished (r ∷ rest) = not (str_eq r.record_status "Running")

-- the condition of waitResult, which stores the invocation once its first result is not running
unfoldable pub invocation_finished : Sdk → String → String → Invocation → Exec (Bool × Invocation)
unfolding is_finished ask
invocation_finished api id invoke_id ivk =
    catch (ask (sdk (describe_results id invoke_id)) (λ t. api.results t id invoke_id))
      (λ _. pure (false, ivk))
      (λ inv. if is_finished inv.1 then pure (true, inv) else pure (false, ivk))

unfoldable pub decode_result : Sdk → String → List CommandResult → Exec Result
decode_result api status [] = pure no_result
decode_result api status (r ∷ rest) = do
  output ← λ t. (outcome (api.decode r.output), t)
  pure (record { status = status; output = output })

unfoldable pub run_command : Sdk → String → String → Exec Result
unfolding poll_state invocation_idle invocation_finished decode_result
run_command api id cmd = do
  wrap "wait invocation: " (poll_state (api.attempts 3 240) 3 (invocation_idle api id) tt)
  invoke_id ← wrap "run command" (ask (sdk (run_script id cmd)) (λ t. api.invoke t id cmd))
  ivk ←
      wrap "wait command result"
        (poll_state (api.attempts 4 240) 4 (invocation_finished api id invoke_id) ("", []))
  decode_result api ivk.0 ivk.1
