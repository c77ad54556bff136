-- ===== src/Examples/Documents.antt =====
-- The theorems on JSON values at concrete inputs.
use ooc.Base.{◌≡◌, refl, false, [], ◌∷◌, str_eq, if◌then◌else◌}
use ooc.Values.{null, num, str, object, Fields, end, field, keep, is_zero, remove_empty_values}
use ooc.Values.Emptiness.{IsFull, remove_empty_values-IsFull}
use ooc.Values.Paths.{
  Field, found, value_type, get, put, get_or_add, step, step_map, is_nil, walk_path, get_value,
  set_value,
}
use ooc.Values.Paths.RoundTrip.{get_value-set_value}

-- A node pool of which only the name and one label are set.
abbrev pool_spec : Fields
pool_spec = field "id" (str "np-1") (
    field "infra" (object (field "desiredCapacity" (num 0) (field "bind" null end)))
      (field "labels" (object (field "role" (str "worker") end)) end))

emptied :
    remove_empty_values pool_spec
    ≡ field "id" (str "np-1") (field "labels" (object (field "role" (str "worker") end)) end)
unfolding remove_empty_values keep is_zero
emptied = refl

remove_empty_values-IsFull_example :
    IsFull (remove_empty_values pool_spec)
    × (remove_empty_values (remove_empty_values pool_spec) ≡ remove_empty_values pool_spec)
remove_empty_values-IsFull_example = remove_empty_values-IsFull pool_spec

abbrev at_key : ooc.Base.String → Field
at_key k = record { name = k; key = ""; value = "" }

get_value-set_value_example :
    get_value
      (at_key "infra" ∷ at_key "cpu" ∷ [])
      (set_value (at_key "infra" ∷ at_key "cpu" ∷ []) (num 4) (object pool_spec)).0
    ≡ ((set_value (at_key "infra" ∷ at_key "cpu" ∷ []) (num 4) (object pool_spec)).0, found (num 4))
unfolding set_value walk_path value_type step step_map is_nil get_or_add get put
get_value-set_value_example =
    get_value-set_value (num 4) (num 4) (at_key "infra") (at_key "cpu" ∷ []) (object pool_spec)
      (refl, (refl, tt)) refl
