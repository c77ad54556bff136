-- ===== src/Actions/Fetches.antt =====
-- Which calls the installation of packages and of the container runtime makes.
use ooc.Base.{
  ℕ, suc, String, ◌≡◌, refl, Bool, true, false, not, List, [], ◌∷◌, map, any, str_eq, get_elem?,
  some_inj, All, Option, none, some, zero, subst, Bool-cases, inl, inr, arith, if◌then◌else◌, ◌∙◌,
}
use ooc.Cloud.Exec.{maybe, Call, Env, make_dir, move_file, unpack, read_dir, node_meta, systemctl}
use ooc.Cloud.Exec.Confines.{
  Confined, Confined-pure, Confined-fail, Confined-ask, Confined-if, Confined-perform,
  Confined-bind, Confined-wrap,
}
use ooc.Bootstrap.{Site}
use ooc.Bootstrap.Initialize.{with_meta}
use ooc.Actions.{Machine, run_blocks}
use ooc.Actions.Files.{
  File, download, do_bin, do_rpm, move_binaries, install_package, install_file, started,
  make_caches, install_files, in_region, start_docker, docker_files,
}
use ooc.Actions.Calls.{
  VisitsMap, Permits, is_placed, is_program_dir, block-Confined, no_blocks, checked_blocks,
  ignored-Confined, run-Confined, dir-Confined, write_all-Confined,
}

module _ {m : Machine} {Q : Call → Type 0} {may_write : String → Bool}
    (permits : Permits m Q may_write) (env : Env) where
  program_dir :
      (f : File)
      → is_placed f ≡ true
      → is_program_dir (
          if str_eq f.versioned_path.destination ""
          then "/usr/bin"
          else f.versioned_path.destination)
        ≡ true
  unfolding any
  program_dir f h = elim (Bool-cases (str_eq f.versioned_path.destination "")) [
    | inl here ↦ rw here refl
    | inr there ↦ rw there (ground arith)
  ]

  moves-Confined :
      (f : File) (dir : String) (entries : List (String × Bool))
      → is_placed f ≡ true
      → Confined Q (move_binaries env m f dir entries)
  unfolding move_binaries any
  moves-Confined f dir [] h = Confined-pure tt
  moves-Confined f dir ((name, true) ∷ rest) h = moves-Confined f dir rest h
  moves-Confined f dir ((name, false) ∷ rest) h =
      let dest =
        if str_eq f.versioned_path.destination ""
        then "/usr/bin"
        else f.versioned_path.destination in
      let to = program_dir f h in
      Confined-bind _ _
        (Confined-bind _ _
          (Confined-bind _ _ (run-Confined permits env _ refl) (λ _. dir-Confined permits env _ _))
          (λ _.
            Confined-wrap _ _
              (Confined-perform env (move_file _ _) (permits.on_move _ dest name to))))
        (λ _. moves-Confined f dir rest h)

  install-Confined : (f : File) → is_placed f ≡ true → Confined Q (install_file env m f)
  unfolding install_file download install_package do_bin do_rpm
  install-Confined f h =
      Confined-bind _ _
        (Confined-bind _ _
          (Confined-bind _ _ (dir-Confined permits env _ _) (λ _.
            Confined-if (str_eq f.versioned_path.os "centos") _ _ (run-Confined permits env _ refl)
              (Confined-pure tt)))
          (λ _. Confined-perform env (unpack _ _) (permits.on_unpack f h)))
        (λ _.
          Confined-if (str_eq f.versioned_path.ftype "bin") _ _
            (checked_blocks _ (
              block-Confined _ _
                (Confined-bind _ _
                  (Confined-wrap _ _ (Confined-ask (read_dir _) _ (permits.on_read _)))
                  (λ entries. moves-Confined f _ entries h))
                no_blocks))
            (Confined-if (str_eq f.versioned_path.ftype "rpm") _ _
              (checked_blocks _ (
                block-Confined _ _
                  (Confined-bind _ _ (Confined-ask (read_dir _) _ (permits.on_read _))
                    (λ entries. run-Confined permits env _ refl))
                  no_blocks))
              (Confined-pure tt)))

  abbrev IsPlaced : File → Type 0
  IsPlaced f = is_placed f ≡ true

  IsPlaced-elem :
      (files : List File) (i : ℕ)
      → All IsPlaced files
      → (f : File) → get_elem? files i ≡ some f
      → IsPlaced f
  IsPlaced-elem [] i all f h = absurd (cc)
  IsPlaced-elem (g ∷ files) zero all f h = subst IsPlaced (some_inj g f h) all.0
  IsPlaced-elem (g ∷ files) (suc i) all f h = IsPlaced-elem files i all.1 f h

  seen-Confined :
      (f : File) (o : Option File)
      → IsPlaced f
      → ((g : File) → o ≡ some g → IsPlaced g)
      → Confined Q (maybe o (install_file env m f) (install_file env m))
  unfolding maybe
  seen-Confined f none h k = install-Confined f h
  seen-Confined f (some g) h k = install-Confined g (k g refl)

  IsPlaced-in_region :
      (region : String) (files : List File)
      → All IsPlaced files
      → All IsPlaced (map (in_region region) files)
  unfolding in_region
  IsPlaced-in_region region [] h = tt
  IsPlaced-in_region region (f ∷ files) h = (h.0, IsPlaced-in_region region files h.1)

  started-Confined :
      (files : List File) (n : ℕ) (rest : List File)
      → All IsPlaced files
      → All IsPlaced rest
      → Confined Q (run_blocks (started env m files n rest))
  unfolding started
  started-Confined files n [] all h = no_blocks
  started-Confined files n (f ∷ rest) all h =
      block-Confined _ _
        (seen-Confined f (get_elem? files (m.seen n)) h.0 (IsPlaced-elem files (m.seen n) all))
        (started-Confined files (suc n) rest all h.1)

  caches-Confined : (files : List File) → Confined Q (make_caches env m files)
  unfolding make_caches
  caches-Confined [] = Confined-pure tt
  caches-Confined (f ∷ rest) =
      Confined-bind _ _ (Confined-perform env (make_dir _) (permits.on_dir _))
        (λ _. caches-Confined rest)

  pub install_files-Confined :
      (site : Site) (files : List File)
      → All (λ (f : File). is_placed f ≡ true) files
      → Confined Q (install_files env m site files)
  unfolding install_files with_meta
  install_files-Confined site files h =
      Confined-if site.has_meta _ _
        (Confined-bind _ _
          (Confined-wrap _ _ (Confined-ask (node_meta "region") _ (permits.on_meta "region")))
          (λ region. Confined-if (str_eq region "") _ _ (Confined-fail _) (
            Confined-bind _ _ (caches-Confined files) (λ _.
              let placed = IsPlaced-in_region region files h in
              checked_blocks _
                (started-Confined (map (in_region region) files) 0 _ placed placed)))))
        (Confined-fail _)

  pub docker-Confined :
      VisitsMap m
      → any (λ (e : String × String). not (may_write e.0)) (docker_files m) ≡ false
      → Confined Q (start_docker env m)
  unfolding start_docker
  docker-Confined order allowed =
      Confined-bind _ _
        (Confined-bind _ _
          (Confined-bind _ _
            (Confined-bind _ _
              (Confined-bind _ _ (dir-Confined permits env _ _) (λ _. dir-Confined permits env _ _))
              (λ _. record {
                at = λ I k t.
                    (write_all-Confined permits env _ (λ path. path) _
                        (order.visits _ t (docker_files m) ∙ allowed)).at
                      I k t;
              }))
            (λ _. ignored-Confined _ (run-Confined permits env _ refl)))
          (λ _. Confined-wrap _ _ (Confined-perform env (systemctl _) (permits.on_systemctl _))))
        (λ _. Confined-perform env (systemctl _) (permits.on_systemctl _))
