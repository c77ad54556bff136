-- ===== src/Examples/Manifests.antt =====
-- The theorems on the application of manifests at concrete inputs.
use ooc.Base.{◌+◌, ◌≤◌, String, ◌≡◌, refl, true, false, none, some, [], ◌∷◌}
use ooc.Cloud.{Error, text, conflict}
use ooc.Cloud.Exec.{ok, answer, failure, pure, catch, ◌>>=◌, message}
use ooc.Cloud.Exec.Costs.{count_calls}
use ooc.Clusters.{given}
use ooc.Masters.{load_key, store_key}
use ooc.Apply.{
  Object, Kubectl, unregistered, check_error, set_annotations, get_modified, get_original,
  patch_object, do_apply, last_applied,
}
use ooc.Apply.Retries.{patch_object-IsBounded, is_patch, is_deletion, is_creation}
use ooc.Apply.Forcing.{HasPlainErrors, IsForced}
use ooc.Apply.Forcing.Stream.{do_apply-IsForced}
use ooc.Apply.Annotations.{IsModified, get_original-get_modified}
use ooc.Examples.Worlds.{calm}

abbrev service : Object
service = record {
  namespace = "kube-system";
  name = "kube-dns";
  annotations = some (("owner", "wdrip") ∷ []);
  body = "spec";
}

abbrev marked : Error → Error
marked (conflict s) = conflict s
marked e = text (message e)

-- The server has the service, and refuses every patch as a conflict.
abbrev contested : Kubectl
contested = record {
  add_source = λ s e. e;
  validator = none;
  namespace = none;
  client = none;
  objects = λ yml. answer (answer service ∷ []);
  aggregate = λ errs. text "errors";
  accessor = λ o. none;
  encode = λ o. answer o.body;
  decode = λ s. answer service;
  versioned = λ o. unregistered;
  merge_patch = λ original modified current. answer modified;
  is_precondition = λ e. false;
  patch_meta = none;
  strategic_patch = λ original modified current. answer modified;
  found = λ t namespace name. answer service;
  patched = λ t patch. failure (conflict "the object has been modified");
  created = λ t o. answer o;
}

contested-HasPlainErrors : HasPlainErrors contested
contested-HasPlainErrors = record {
  plain_encode = λ o e h. absurd (cc);
  plain_accessor = λ o e h. absurd (cc);
  plain_merge = λ o m c e h. absurd (cc);
  plain_meta = λ e h. absurd (cc);
  plain_strategic = λ o m c e h. absurd (cc);
  plain_versioned = λ o e h. absurd (cc);
  plain_source = λ s e. refl;
}

patch_object-IsBounded_example :
    let after = (patch_object calm contested "kube-system" "kube-dns" true service "spec" []).1 in
    (count_calls is_patch after ≤ 6 + count_calls is_patch [])
    × (count_calls is_deletion after ≤ 1 + count_calls is_deletion [])
    × (count_calls is_creation after ≤ 2 + count_calls is_creation [])
patch_object-IsBounded_example =
    patch_object-IsBounded calm contested "kube-system" "kube-dns" true service "spec" []

-- All six patches are sent, and the service is deleted.
contested_calls :
    let after = (patch_object calm contested "kube-system" "kube-dns" true service "spec" []).1 in
    (count_calls is_patch after ≡ 6) × (count_calls is_deletion after ≡ 1)
unfolding patch_object catch ◌>>=◌ pure given
contested_calls = (refl, refl)

do_apply-IsForced_example : IsForced contested (do_apply calm contested "service" []).1
do_apply-IsForced_example =
    do_apply-IsForced contested contested-HasPlainErrors calm "service" [] tt

abbrev left_behind : Object
left_behind = record service { annotations = some (("owner", "wdrip") ∷ (last_applied, "") ∷ []) }

-- The service had no annotation of the last configuration.
service_modified : (get_modified contested true service []).0 ≡ ok ("spec", left_behind)
unfolding get_modified check_error set_annotations load_key store_key given catch ◌>>=◌ pure
service_modified = refl

get_original-get_modified_example :
    (plain : String) × (full : Object) × IsModified contested service
      ("spec", left_behind)
      plain
      full
    × (get_original contested full [] ≡ (ok (some plain), []))
get_original-get_modified_example =
    get_original-get_modified contested service [] [] ("spec", left_behind) service_modified
