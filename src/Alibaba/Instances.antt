-- ===== src/Alibaba/Instances.antt =====
-- Operations on one machine: RestartECS, ReplaceSystemDisk and TagECS of scaling.go, DeleteECS, StopECS
-- and InstanceDetail of instance.go. A text of an error has a colon before the text that it
-- wraps.
use Prim.Native.Char.{code}
use Prim.Native.String
use ooc.Base.{
  ℕ, String, ◌==◌, true, false, Option, none, some, List, [], ◌∷◌, map, str_eq, if◌then◌else◌,
  concat, contains, join,
}
use ooc.Cloud.{Instance, Error, text}
use ooc.Cloud.Sdk.{
  describe_instances, stop_instance, start_instance, delete_instance, modify_userdata, replace_disk,
  attach_key_pair, untag_resources, tag_resources,
}
use ooc.Cloud.Exec.{Exec, pure, fail, ask, catch, ◌>>=◌, ◌>>◌, wrap, message, sdk, maybe}
use ooc.Alibaba.{Sdk, Machine, issue, describe, wait_ecs}

abbrev pub stop_ecs_timeout : ℕ
stop_ecs_timeout = 240

-- RestartECS
unfoldable pub restart_ecs : Sdk → String → Exec (Unit {0})
unfolding describe issue wait_ecs
restart_ecs api id = do
  status ← wrap "get ecs status failed" (describe api id)
  if str_eq status "Running"
      then (wrap (concat ("stop instance[" ∷ id ∷ "] error" ∷ []))
            (issue api (stop_instance id false))
          >> wrap (concat ("wait for instance stop: " ∷ id ∷ [])) (wait_ecs api id "Stopped" 120))
      else pure tt
  wrap (concat ("start instance[" ∷ id ∷ "]" ∷ [])) (issue api (start_instance id))
  wait_ecs api id "Running" 120

-- ReplaceSystemDisk after it has found the instance
unfoldable pub replace_found : Sdk → String → String → Machine → Exec (Unit {0})
unfolding issue wait_ecs
replace_found api eid userdata inst = do
  if str_eq inst.status "Running"
      then wrap "stop instance error" (issue api (stop_instance eid false))
      else pure tt
  wrap (concat ("wait " ∷ eid ∷ " stop" ∷ [])) (wait_ecs api eid "Stopped" 120)
  if str_eq userdata ""
      then pure tt
      else wrap "replace instance userdata" (issue api (modify_userdata eid userdata))
  wrap "replace system disk" (issue api (replace_disk eid inst.image_id))
  if str_eq inst.key_pair_name ""
      then pure tt
      else wrap "attach instance keypair"
          (issue api (attach_key_pair inst.key_pair_name (inst.instance_id ∷ [])))
  wrap "wait instance stop timeout" (wait_ecs api eid "Stopped" 120)
  wrap "start instance" (issue api (start_instance eid))
  wait_ecs api eid "Running" 120

unfoldable pub find_machines : Sdk → List String → Exec (List Machine)
unfolding ask
find_machines api ids = ask (sdk (describe_instances ids)) (λ t. api.machines t ids)

-- `errors.Wrapf(err, ...)` where no instance is found wraps a nil error, which is nil.
unfoldable pub replace_first : Sdk → String → String → List Machine → Exec (Unit {0})
unfolding replace_found
replace_first api eid userdata [] = pure tt
replace_first api eid userdata (inst ∷ others) = replace_found api eid userdata inst

-- ReplaceSystemDisk
unfoldable pub replace_system_disk : Sdk → String → String → Exec (Unit {0})
unfolding find_machines replace_first
replace_system_disk api eid userdata =
    catch (find_machines api (eid ∷ []))
      (λ _. fail (text (concat ("describe instance: " ∷ eid ∷ []))))
      (replace_first api eid userdata)

-- TagECS: the error of a removal is returned if its text has "NotFound", and dropped otherwise
unfoldable pub tag_ecs : Sdk → String → List (String × String) → Exec (Unit {0})
unfolding issue
tag_ecs api id [] = pure tt
tag_ecs api id (v ∷ vals) = do
  catch (issue api (untag_resources id (map (λ (w : String × String). w.0) (v ∷ vals))))
      (λ e.
        if contains (message e) "NotFound"
        then fail (text (concat ("remove tag: " ∷ message e ∷ ", " ∷ id ∷ [])))
        else pure tt)
      pure
  issue api (tag_resources id (v ∷ vals))

-- the status of the machine, or none if it does not exist
unfoldable pub find_status : Sdk → String → Exec (Option String)
unfolding describe
find_status api id =
    catch (describe api id)
      (λ e.
        if contains (message e) "not exist"
        then pure none
        else fail (text (concat ("get ecs status failed: " ∷ message e ∷ []))))
      (λ status. pure (some status))

abbrev no_id : Error
no_id = text "instance id must be provided"

unfoldable pub force_stop : Sdk → String → Exec (Unit {0})
unfolding issue
force_stop api id =
    wrap (concat ("stop instance[" ∷ id ∷ "] error" ∷ [])) (issue api (stop_instance id true))

unfoldable pub delete_found : Sdk → String → String → Exec (Unit {0})
unfolding force_stop wait_ecs issue
delete_found api id status = do
  if str_eq status "Running"
      then (force_stop api id
          >> wrap (concat ("wait for instance stop: " ∷ id ∷ []))
              (wait_ecs api id "Stopped" stop_ecs_timeout))
      else pure tt
  issue api (delete_instance id)

-- DeleteECS
unfoldable pub delete_ecs : Sdk → String → Exec (Unit {0})
unfolding find_status delete_found
delete_ecs api id =
    if str_eq id ""
    then fail no_id
    else find_status api id >>= λ found. maybe found (pure tt) (delete_found api id)

-- StopECS
unfoldable pub stop_ecs : Sdk → String → Exec (Unit {0})
unfolding find_status force_stop wait_ecs
stop_ecs api id =
    if str_eq id ""
    then fail no_id
    else find_status api id >>= λ found. maybe found (pure tt) (λ status.
      if str_eq status "Running"
      then force_stop api id >> wait_ecs api id "Stopped" stop_ecs_timeout
      else pure tt)

-- normalize: strings.Replace(t, "Z", ":30Z", -1)
unfoldable pub normalize : String → String
normalize String.[] = ""
normalize (String.◌∷◌ c s) =
    let rest = normalize s in if code c == b'Z' then String.◌++◌ ":30Z" rest else String.◌∷◌ c rest

-- a machine as an instance of the provider; InstanceDetail leaves the region empty
unfoldable pub instance_of_machine : String → Machine → Instance
unfolding normalize join
instance_of_machine region v = record {
  region = region;
  id = v.instance_id;
  ip = join "," v.ip_addresses;
  tags = v.tags;
  created_at = normalize v.creation_time;
  status = v.status;
}

-- InstanceDetail
unfoldable pub instance_detail : Sdk → List String → Exec (List Instance)
unfolding find_machines instance_of_machine
instance_detail api ids = do
  found ← wrap "InstanceDetail" (find_machines api ids)
  pure (map (instance_of_machine "") found)
