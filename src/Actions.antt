-- ===== src/Actions.antt =====
-- The actions of a machine's boot (pkg/actions/action.go, and GetDNSIP, Systemctl and ApplyYaml of
-- pkg/utils): lists of actions, one after the other and side by side.
pub mod Calls
pub mod Fetches
pub mod Files
pub mod Installs
pub mod Kubeadm
pub mod Kubelet
pub mod Post
use ooc.Base.{
  ℕ, suc, ◌+◌, ◌-◌, ◌*◌, ◌/◌, String, Bool, true, false, not, ◌&&◌, ltb, leb, ◌==◌, List, [], ◌∷◌,
  ◌++◌, Option, none, some, concat, join, str_eq, if◌then◌else◌, select,
}
use ooc.Cloud.{Error, text, ClusterSpec}
use ooc.Cloud.Exec.{
  Env, Trace, Reply, answer, failure, Exec, pure, fail, perform, catch, ◌>>=◌, ◌>>◌, wrap, wrapped,
  message, command, write_file, systemctl,
}
use ooc.Clusters.{given}
use ooc.Bootstrap.{NodeObject}

-- net.IPNet of an IPv4 range: its first address, and its size
pub record Cidr : Type 0 where
  pub base : ℕ
  pub size : ℕ

-- What the actions use of the machine and of packages outside the repository: directories, paths,
-- templates, YAML, certificates (a `KeyCert` is one text, of which `cert` and `key` read the parts),
-- and the orders that Go leaves open: of a range over a map, of goroutines, and when a goroutine
-- reads the variable of the loop that started it. The fixed texts of units and manifests are
-- `fixed_text`s, by name.
pub record Machine : Type 0 where
  pub clean : String → String
  pub list_dir : Trace → String → Reply (List (String × Bool))
  pub parse_cidr : String → Reply Cidr
  pub print_ip : ℕ → String
  pub cert : String → String
  pub key : String → String
  pub encode64 : String → String
  pub pretty_spec : ClusterSpec → String
  pub fixed_text : String → String
  pub render : String → List (String × String) → Reply String
  pub render_config : NodeObject → String → List String → Reply String
  pub kustomize : String → Reply String
  pub sign_client : String → Reply (String × String)
  pub map_order : Trace → List (String × String) → List (String × String)
  pub swapped : Trace → Bool
  pub uuid : Trace → String
  pub seen : ℕ → ℕ

-- RunActions, and the steps of initnode and doRecover
unfoldable pub run_actions : List (Exec (Unit {0})) → Exec (Unit {0})
run_actions [] = pure tt
run_actions (action ∷ actions) = action >> run_actions actions

-- utils.Errors, printed
unfoldable pub errors_text : List Error → String
errors_text [] = ""
errors_text (e ∷ errs) = concat (message e ∷ "\n" ∷ errors_text errs ∷ [])

-- HasError
unfoldable pub has_error : List Error → Exec (Unit {0})
unfolding errors_text
has_error [] = pure tt
has_error (e ∷ errs) = fail (text (errors_text (e ∷ errs)))

-- goroutines, each as one block, in the order in which they run; each appends its error
unfoldable pub run_blocks : List (Exec (Unit {0})) → Exec (List Error)
run_blocks [] = pure []
run_blocks (block ∷ blocks) =
    let rest = run_blocks blocks in catch block (λ e. rest >>= λ errs. pure (e ∷ errs)) (λ _. rest)

-- ConcurrentAction.Execute
unfoldable pub concurrent : List (Exec (Unit {0})) → Exec (Unit {0})
unfolding run_blocks has_error
concurrent blocks = run_blocks blocks >>= has_error

-- filepath.Join
unfoldable pub join_path : Machine → List String → String
unfolding select join
join_path m parts = m.clean (join "/" (select (λ s. not (str_eq s "")) parts))

-- The IP of four bytes that lies in the range, as IPNet.Contains tests it
unfoldable pub cidr_contains : Cidr → ℕ → Bool
cidr_contains c ip =
    leb 16777216 ip && ltb ip 4294967296 && leb c.base ip && ltb ip (c.base + c.size)

-- GetDNSIP
unfoldable pub get_dns_ip : Machine → String → ℕ → Exec String
unfolding cidr_contains given
get_dns_ip m subnet index = do
  c ← wrap "couldn't parse service subnet CIDR" (given (m.parse_cidr subnet))
  if cidr_contains c (c.base + index)
      then pure (m.print_ip (c.base + index))
      else fail (text "can't generate IP with index from subnet. subnet too small")

-- cmd.NewCmd and CmdError
unfoldable pub run_cmd : Env → List String → Exec (Unit {0})
run_cmd env args = perform env (command args)

-- ioutil.WriteFile
unfoldable pub write : Env → String → String → Exec (Unit {0})
write env path content = perform env (write_file path content)

-- the entries of a map, each written to its file, with the words of an error
unfoldable pub write_all :
    Env → (String → String) → (String → String) → List (String × String) → Exec (Unit {0})
unfolding write
write_all env note path_of [] = pure tt
write_all env note path_of ((name, content) ∷ rest) =
    wrap (note name) (write env (path_of name) content) >> write_all env note path_of rest

-- calls of Systemctl, each with the words of an error
unfoldable pub start_service : Env → List (String × List String) → Exec (Unit {0})
start_service env [] = pure tt
start_service env ((note, args) ∷ rest) =
    wrap note (perform env (systemctl args)) >> start_service env rest

abbrev pub auth_file : String
auth_file = "/etc/kubernetes/admin.local"

-- ApplyYamlCommon
unfoldable pub apply_yaml_common : Env → String → String → String → Exec (Unit {0})
unfolding write run_cmd
apply_yaml_common env yml auth tmp =
    wrap "create tmp file" (write env tmp yml)
    >> run_cmd env ("kubectl" ∷ "--kubeconfig" ∷ auth ∷ "apply" ∷ "-f" ∷ tmp ∷ [])
