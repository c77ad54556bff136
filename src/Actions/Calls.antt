-- ===== src/Actions/Calls.antt =====
-- Which calls the actions of a machine's boot make.
use ooc.Base.{ℕ, ◌+◌, String, ◌≡◌, Bool, true, false, not, ◌&&◌, List, [], ◌∷◌, any, str_eq, arith}
use ooc.Cloud.{Error, text}
use ooc.Cloud.Exec.{
  Call, Env, Trace, Reply, Exec, pure, fail, perform, ◌>>=◌, wrap, make_dir, move_file, unpack,
  read_dir, remove_file, node_meta, sleep, systemctl, register_crds, command, write_file,
}
use ooc.Cloud.Exec.Confines.{
  Confined, Confined-pure, Confined-fail, Confined-if, Confined-perform, Confined-catch,
  Confined-bind, Confined-wrap,
}
use ooc.Clusters.{given}
use ooc.Etcd.Boot.{ignored}
use ooc.Actions.Files.{File, extract_dir, cached_archive}
use ooc.Actions.{
  join_path, Machine, cidr_contains, get_dns_ip, run_actions, run_blocks, has_error, write,
  write_all, run_cmd, start_service,
}

abbrev pub is_kubeadm_init : List String → Bool
is_kubeadm_init (a ∷ b ∷ rest) = str_eq a "kubeadm" && str_eq b "init"
is_kubeadm_init args = false

-- a range over a map visits its entries
pub record VisitsMap (m : Machine) : Type 0 where
  pub visits :
      (p : String × String → Bool) (t : Trace) (entries : List (String × String))
      → any p (m.map_order t entries) ≡ any p entries

-- the calls that are neither `kubeadm init` nor a write to another path than those allowed
-- the package is unpacked below a directory of its own, and its programs go where programs are
abbrev pub is_cache : String → Bool
is_cache dir = any (str_eq dir) ("" ∷ "pkg/kubernetes/" ∷ [])

abbrev pub is_placed : File → Bool
is_placed f =
    is_cache f.cache && any (str_eq f.versioned_path.destination) ("" ∷ "/opt/cni/bin/" ∷ [])

abbrev pub is_program_dir : String → Bool
is_program_dir dest = any (str_eq dest) ("/usr/bin" ∷ "/opt/cni/bin/" ∷ [])

pub record Permits (m : Machine) (Q : Call → Type 0) (may_write : String → Bool) : Type 0 where
  pub on_dir : (s : String) → Q (make_dir s)
  pub on_read : (s : String) → Q (read_dir s)
  pub on_move :
      (s dest name : String)
      → is_program_dir dest ≡ true
      → Q (move_file s (join_path m (dest ∷ name ∷ [])))
  pub on_unpack :
      (f : File) → is_placed f ≡ true → Q (unpack (extract_dir m f) (cached_archive m f))
  pub on_remove : (s : String) → Q (remove_file s)
  pub on_meta : (s : String) → Q (node_meta s)
  pub on_sleep : (n : ℕ) → Q (sleep n)
  pub on_systemctl : (args : List String) → Q (systemctl args)
  pub on_register : (s : String) → Q (register_crds s)
  pub on_command : (args : List String) → is_kubeadm_init args ≡ false → Q (command args)
  pub on_write : (path body : String) → may_write path ≡ true → Q (write_file path body)

module _ {Q : Call → Type 0} where
  pub given-Confined : {A : Type 0} (r : Reply A) → Confined Q (given r)
  unfolding given
  given-Confined r = record { at = λ I k t h. h }

  pub dns-Confined : (m : Machine) (subnet : String) → Confined Q (get_dns_ip m subnet 10)
  unfolding get_dns_ip
  dns-Confined m subnet =
      Confined-bind _ _ (Confined-wrap _ _ (given-Confined (m.parse_cidr subnet))) (λ c.
        Confined-if (cidr_contains c (c.base + 10)) (pure (m.print_ip (c.base + 10))) (fail _)
          (Confined-pure _) (Confined-fail too_small))
    where
      too_small : Error
      too_small = text "can't generate IP with index from subnet. subnet too small"

  pub run_actions-Confined :
      (a b : Exec (Unit {0})) → Confined Q a → Confined Q b → Confined Q (run_actions (a ∷ b ∷ []))
  unfolding run_actions
  run_actions-Confined a b ka kb =
      Confined-bind a _ ka (λ _. Confined-bind b _ kb (λ _. Confined-pure tt))

  has_error-Confined : (errs : List Error) → Confined Q (has_error errs)
  unfolding has_error
  has_error-Confined [] = Confined-pure tt
  has_error-Confined (e ∷ errs) = Confined-fail _

  pub block-Confined :
      (a : Exec (Unit {0})) (blocks : List (Exec (Unit {0})))
      → Confined Q a
      → Confined Q (run_blocks blocks)
      → Confined Q (run_blocks (a ∷ blocks))
  unfolding run_blocks
  block-Confined a blocks ka kb =
      Confined-catch a _ _ ka (λ e. Confined-bind _ _ kb (λ errs. Confined-pure _)) (λ _. kb)

  pub no_blocks : Confined Q (run_blocks [])
  unfolding run_blocks
  no_blocks = Confined-pure []

  pub checked_blocks :
      (blocks : List (Exec (Unit {0})))
      → Confined Q (run_blocks blocks)
      → Confined Q (run_blocks blocks >>= has_error)
  checked_blocks blocks h = Confined-bind _ _ h has_error-Confined

  pub ignored-Confined : (m : Exec (Unit {0})) → Confined Q m → Confined Q (ignored m)
  unfolding ignored
  ignored-Confined m h = Confined-catch m _ pure h (λ _. Confined-pure tt) Confined-pure

module _ {m : Machine} {Q : Call → Type 0} {may_write : String → Bool}
    (permits : Permits m Q may_write) (env : Env) where
  pub run-Confined :
      (args : List String) → is_kubeadm_init args ≡ false → Confined Q (run_cmd env args)
  unfolding run_cmd
  run-Confined args h = Confined-perform env (command args) (permits.on_command args h)

  pub dir-Confined : (s path : String) → Confined Q (wrap s (perform env (make_dir path)))
  dir-Confined s path =
      Confined-wrap s _ (Confined-perform env (make_dir path) (permits.on_dir path))

  pub write-Confined :
      (path body : String) → may_write path ≡ true → Confined Q (write env path body)
  unfolding write
  write-Confined path body h =
      Confined-perform env (write_file path body) (permits.on_write path body h)

  pub write_all-Confined :
      (note path_of : String → String) (entries : List (String × String))
      → any (λ (e : String × String). not (may_write (path_of e.0))) entries ≡ false
      → Confined Q (write_all env note path_of entries)
  unfolding write_all any
  write_all-Confined note path_of [] h = Confined-pure tt
  write_all-Confined note path_of ((name, body) ∷ rest) h =
      Confined-bind _ _ (Confined-wrap _ _ (write-Confined (path_of name) body (ground arith)))
        (λ _. write_all-Confined note path_of rest (ground arith))

  pub services-Confined :
      (commands : List (String × List String)) → Confined Q (start_service env commands)
  unfolding start_service
  services-Confined [] = Confined-pure tt
  services-Confined ((note, args) ∷ rest) =
      Confined-bind _ _
        (Confined-wrap _ _ (Confined-perform env (systemctl args) (permits.on_systemctl args)))
        (λ _. services-Confined rest)
