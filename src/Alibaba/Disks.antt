-- ===== src/Alibaba/Disks.antt =====
-- ReplaceSystemDisk (scaling.go) replaces the disk of no machine that it has not seen stopped.
use ooc.Base.{ℕ, String, ◌≡◌, refl, Bool, true, false, List, [], ◌∷◌, str_eq, eq_iff, if◌then◌else◌}
use ooc.Cloud.Sdk.{
  SdkCall, describe_instance, start_instance, replace_disk, stop_instance, modify_userdata,
  attach_key_pair,
}
use ooc.Cloud.Exec.{Trace, Reply, answer, failure, sdk, sleep}
use ooc.Cloud.Exec.Hoare.{
  Hoare, Hoare-ends, Hoare-bind, Hoare-if, Hoare-fail, Hoare-pure, Hoare-ask, Hoare-wrap,
  Hoare-catch,
}
use ooc.Alibaba.{Sdk, Machine, wait_ecs, issue}
use ooc.Alibaba.Instances.{replace_found, replace_first, replace_system_disk, find_machines}
use ooc.Alibaba.Waits.{wait_ecs-Hoare, issue-Hoare}

abbrev is_stopped : Reply String → Bool
is_stopped (answer s) = str_eq s "Stopped"
is_stopped (failure e) = false

-- whether the machine was stopped when the code last asked for its status, and has not been started
-- since
abbrev pub seen_stopped : Sdk → String → Trace → Bool
seen_stopped api id [] = false
seen_stopped api id (sdk (describe_instance j) ∷ t) =
    if str_eq j id then is_stopped (api.status_of t j) else seen_stopped api id t
seen_stopped api id (sdk (start_instance j) ∷ t) =
    if str_eq j id then false else seen_stopped api id t
seen_stopped api id (c ∷ t) = seen_stopped api id t

-- Each request to replace a disk came after the machine was seen stopped.
abbrev pub IsGuarded : Sdk → Trace → Type 0
IsGuarded api [] = Unit
IsGuarded api (sdk (replace_disk id image) ∷ t) = (seen_stopped api id t ≡ true) × IsGuarded api t
IsGuarded api (c ∷ t) = IsGuarded api t

module _ (api : Sdk) (id : String) where
  abbrev Stopped : Trace → Type 0
  Stopped t = IsGuarded api t × (seen_stopped api id t ≡ true)

  now-Stopped :
      (t : Trace)
      → IsGuarded api t
      → api.status_of t id ≡ answer "Stopped"
      → Stopped (sleep 5 ∷ sdk (describe_instance id) ∷ t)
  now-Stopped t g e = (g, rw ((eq_iff id id).1 refl, e) refl)

  wait-Stopped :
      (timeout : ℕ)
      → Hoare (IsGuarded api) (IsGuarded api) (wait_ecs api id "Stopped" timeout) (λ _. Stopped)
  wait-Stopped =
      wait_ecs-Hoare api id "Stopped" (IsGuarded api) Stopped (λ t g. g) (λ n t g. g) now-Stopped

  -- what makes no request for a disk keeps the trace guarded
  harmless :
      (c : SdkCall)
      → ((t : Trace) → IsGuarded api t → IsGuarded api (sdk c ∷ t))
      → Hoare (IsGuarded api) (IsGuarded api) (issue api c) (λ _. IsGuarded api)
  harmless c keep = issue-Hoare api c keep keep

  wait_for :
      (status : String) (timeout : ℕ)
      → Hoare (IsGuarded api) (IsGuarded api) (wait_ecs api id status timeout) (λ _. IsGuarded api)
  wait_for status timeout =
      wait_ecs-Hoare api id status (IsGuarded api) (IsGuarded api) (λ t g. g) (λ n t g. g)
        (λ t g e. g) timeout

  replace-IsGuarded :
      (image : String)
      → Hoare (IsGuarded api) Stopped (issue api (replace_disk id image)) (λ _. IsGuarded api)
  replace-IsGuarded image =
      issue-Hoare api (replace_disk id image) (λ t s. (s.1, s.0)) (λ t s. (s.1, s.0))

  keep-Stopped :
      (userdata : String)
      → Hoare (IsGuarded api) Stopped (issue api (modify_userdata id userdata)) (λ _. Stopped)
  keep-Stopped userdata = issue-Hoare api (modify_userdata id userdata) (λ t s. s.0) (λ t s. s)

  found-Hoare :
      (userdata : String) (inst : Machine)
      → Hoare
          (IsGuarded api)
          (IsGuarded api)
          (replace_found api id userdata inst)
          (λ _. IsGuarded api)
  unfolding replace_found
  found-Hoare userdata inst =
      Hoare-bind {R = λ _. IsGuarded api} _ _
        (Hoare-if (str_eq inst.status "Running") _ _
          (λ running. Hoare-wrap _ _ (harmless (stop_instance id false) (λ t g. g)))
          (λ _. Hoare-pure tt (λ t g. g)))
        (λ _. Hoare-bind {R = λ _. Stopped} _ _ (Hoare-wrap _ _ (wait-Stopped 120)) (λ _.
          Hoare-bind {R = λ _. Stopped} _ _
            (Hoare-if (str_eq userdata "") _ _ (λ _. Hoare-pure tt (λ t s. s))
              (λ _. Hoare-wrap _ _ (keep-Stopped userdata)))
            (λ _.
              Hoare-bind {R = λ _. IsGuarded api} _ _
                (Hoare-wrap _ _ (replace-IsGuarded inst.image_id))
                (λ _.
                  Hoare-bind {R = λ _. IsGuarded api} _ _
                    (Hoare-if (str_eq inst.key_pair_name "") _ _ (λ _. Hoare-pure tt (λ t g. g))
                      (λ _. Hoare-wrap _ _ (
                        harmless (attach_key_pair inst.key_pair_name (inst.instance_id ∷ []))
                          (λ t g. g))))
                    (λ _.
                      Hoare-bind {R = λ _. IsGuarded api} _ _
                        (Hoare-wrap _ _ (wait_for "Stopped" 120))
                        (λ _.
                          Hoare-bind {R = λ _. IsGuarded api} _ _
                            (Hoare-wrap _ _ (harmless (start_instance id) (λ t g. g)))
                            (λ _. wait_for "Running" 120)))))))

  first-Hoare :
      (userdata : String) (machines : List Machine)
      → Hoare
          (IsGuarded api)
          (IsGuarded api)
          (replace_first api id userdata machines)
          (λ _. IsGuarded api)
  unfolding replace_first
  first-Hoare userdata [] = Hoare-pure tt (λ t g. g)
  first-Hoare userdata (inst ∷ others) = found-Hoare userdata inst

  disk-Hoare :
      (userdata : String)
      → Hoare
          (IsGuarded api)
          (IsGuarded api)
          (replace_system_disk api id userdata)
          (λ _. IsGuarded api)
  unfolding replace_system_disk find_machines
  disk-Hoare userdata =
      Hoare-catch {R = λ _. IsGuarded api} _ _ _ (Hoare-ask _ _ (λ t g. g) (λ t a g e. g))
        (λ _. Hoare-fail _ (λ t g. g)) (first-Hoare userdata)

-- ReplaceSystemDisk, whatever the cloud answers and however it ends, requests the replacement of a
-- system disk only if the answer to the last request for the machine's status was Stopped, with no
-- request to start the machine in between.
pub replace_system_disk-IsGuarded :
    (api : Sdk) (id userdata : String) (t : Trace)
    → IsGuarded api t
    → IsGuarded api (replace_system_disk api id userdata t).1
replace_system_disk-IsGuarded api id userdata t g =
    Hoare-ends (IsGuarded api) _ (disk-Hoare api id userdata) t g
