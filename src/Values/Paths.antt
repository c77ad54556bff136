-- ===== src/Values/Paths.antt =====
-- Unstructured.WalkPath (pkg/utils/unstructured/unstructed.go): reads or writes the value at a path.
-- loadPath splits a path by a regular expression, which is not part of the repository, so a path is a
-- list of its fields here. The document is returned as the walk leaves it, also if it fails.
pub mod RoundTrip
use ooc.Base.{
  String, Bool, true, false, not, ◌&&◌, Option, none, some, List, [], ◌∷◌, str_eq, has_prefix,
  if◌then◌else◌,
}
use ooc.Values.{Value, null, flag, num, str, slice, object, Items, nil, item, Fields, end, field}

pub record Field : Type 0 where
  pub name : String
  pub key : String
  pub value : String

-- the constants of ValueType
pub data Kind : Type 0 where
  map_value simple_slice complex_slice : Kind

-- ValueType
unfoldable pub value_type : Field → Kind
value_type f =
    if str_eq f.key "" then map_value else if str_eq f.value "" then simple_slice else complex_slice

-- A value, NOT_FOUND, or another error.
pub data Walked : Type 0 where
  found : Value → Walked
  missing : Walked
  wrong : String → Walked

unfoldable pub get : String → Fields → Option Value
get k end = none
get k (field j v fs) = if str_eq j k then some v else get k fs

unfoldable pub put : String → Value → Fields → Fields
put k v end = field k v end
put k v (field j w fs) = if str_eq j k then field k v fs else field j w (put k v fs)

unfoldable pub is_string : Value → Bool
is_string (str s) = true
is_string other = false

unfoldable pub starts_with : String → Value → Bool
starts_with key (str s) = has_prefix s key
starts_with key other = false

-- the loop over a slice of texts that reads: an element that is no text is an error
unfoldable pub read_simple : String → Items → Walked
unfolding is_string starts_with
read_simple key nil = missing
read_simple key (item x xs) =
    let rest = read_simple key xs in
    if not (is_string x)
    then wrong "not string slice"
    else if starts_with key x
    then found x
    else rest

-- the loop that writes: each match is replaced, and a new value is added if there is none
unfoldable pub all_strings : Items → Bool
all_strings nil = true
all_strings (item x xs) = is_string x && all_strings xs

unfoldable pub any_match : (Value → Bool) → Items → Bool
any_match p nil = false
any_match p (item x xs) = if p x then true else any_match p xs

unfoldable pub append_item : Items → Value → Items
append_item nil v = item v nil
append_item (item x xs) v = item x (append_item xs v)

unfoldable pub replace_matches : (Value → Bool) → Value → Items → Items
replace_matches p v nil = nil
replace_matches p v (item x xs) = item (if p x then v else x) (replace_matches p v xs)

unfoldable pub write_items : (Value → Bool) → Value → Items → Items
unfolding any_match append_item replace_matches
write_items p v xs =
    if any_match p xs then replace_matches p v xs else append_item (replace_matches p v xs) v

unfoldable pub is_object : Value → Bool
is_object (object fs) = true
is_object other = false

unfoldable pub all_objects : Items → Bool
all_objects nil = true
all_objects (item x xs) = is_object x && all_objects xs

-- `x[field.key] == field.value`
unfoldable pub is_text : String → Option Value → Bool
is_text s (some (str t)) = str_eq t s
is_text s other = false

unfoldable pub selects : Field → Value → Bool
unfolding is_text get
selects f (object fs) = is_text f.value (get f.key fs)
selects f other = false

-- the first or the last match in a slice of maps, with the slice as a function of the match
pub data Picked : Type 0 where
  picked : Value → (Value → Items) → Picked
  nothing : Picked
  no_map : Picked

unfoldable pub after_item : Value → Picked → Picked
after_item x (picked v back) = picked v (λ w. item x (back w))
after_item x nothing = nothing
after_item x no_map = no_map

-- a read that goes on stops at the first match
unfoldable pub pick_first : Field → Items → Picked
unfolding is_object selects after_item
pick_first f nil = nothing
pick_first f (item x xs) =
    let rest = pick_first f xs in
    if not (is_object x)
    then no_map
    else if selects f x
    then picked x (λ w. item w xs)
    else after_item x rest

-- every other loop goes to the end and keeps the last match
unfoldable pub or_this : Value → Items → Bool → Picked → Picked
unfolding after_item
or_this x xs matches (picked v back) = after_item x (picked v back)
or_this x xs matches no_map = no_map
or_this x xs true nothing = picked x (λ w. item w xs)
or_this x xs false nothing = nothing

unfoldable pub pick_last : Field → Items → Picked
unfolding is_object selects or_this
pick_last f nil = nothing
pick_last f (item x xs) =
    let rest = pick_last f xs in
    if not (is_object x) then no_map else or_this x xs (selects f x) rest

unfoldable pub is_nil : List Field → Bool
is_nil [] = true
is_nil (f ∷ fs) = false

-- the value at a key, which is added as an empty map if it is missing
unfoldable pub get_or_add : String → Fields → Value
unfolding get
get_or_add k m = elim (get k m) [ none ↦ object end | some v ↦ v ]

-- The walk, with the walk of the rest of the path as an argument; the step for each kind of field.
abbrev pub Rest : Type 0
Rest = Value → Value × Walked

unfoldable pub step_map : Bool → Value → Field → Rest → Value → Value × Walked
unfolding get_or_add put
step_map write v f rest (object m) =
    let below = if write then v else get_or_add f.name m in
    let r = rest below in (object (put f.name r.0 m), r.1)
step_map write v f rest doc = (doc, wrong "field not a map.")

unfoldable pub step_simple : Bool → Value → Field → Bool → Value → Value × Walked
unfolding get put read_simple all_strings write_items starts_with
step_simple write v f last (object m) = elim (get f.name m) [
  | some (slice xs) ↦
      if not last
      then (object m, wrong "midle path should not be a simple slice")
      else if not write
      then (object m, read_simple f.key xs)
      else if all_strings xs
      then (object (put f.name (slice (write_items (starts_with f.key) v xs)) m), found v)
      else (object m, wrong "not string slice")
  | none ↦ (object m, if last then missing else wrong "midle path should not be a simple slice")
  | some other ↦ (
    object m,
    if last then wrong "not slice." else wrong "midle path should not be a simple slice",
  )
]
step_simple write v f last doc =
    (doc, if last then missing else wrong "midle path should not be a simple slice")

unfoldable pub walk_picked : Field → Fields → Rest → Picked → Value × Walked
unfolding put
walk_picked f m rest (picked x back) =
    let r = rest x in (object (put f.name (slice (back r.0)) m), r.1)
walk_picked f m rest nothing = (object m, missing)
walk_picked f m rest no_map = (object m, wrong "not string slice")

unfoldable pub step_complex : Bool → Value → Field → Bool → Rest → Value → Value × Walked
unfolding get put all_objects write_items selects pick_first pick_last walk_picked
step_complex write v f last rest (object m) = elim (get f.name m) [
  | some (slice xs) ↦
      if write && last
      then (if all_objects xs
          then (object (put f.name (slice (write_items (selects f) v xs)) m), found (slice xs))
          else (object m, wrong "not string slice"))
      else walk_picked f m rest (if not write && not last then pick_first f xs else pick_last f xs)
  | none ↦ (object m, missing)
  | some other ↦ (object m, wrong "field not an complex map interface.")
]
step_complex write v f last rest doc = (doc, missing)

unfoldable pub step : Kind → Bool → Value → Field → Bool → Rest → Value → Value × Walked
unfolding step_map step_simple step_complex
step map_value write v f last rest doc = step_map (write && last) v f rest doc
step simple_slice write v f last rest doc = step_simple write v f last doc
step complex_slice write v f last rest doc = step_complex write v f last rest doc

-- WalkPath
unfoldable pub walk_path : Bool → Value → List Field → Value → Value × Walked
unfolding value_type step is_nil
walk_path write v [] doc = (doc, found doc)
walk_path write v (f ∷ fs) doc =
    step (value_type f) write v f (is_nil fs) (walk_path write v fs) doc

-- GetValue and SetValue
unfoldable pub get_value : List Field → Value → Value × Walked
unfolding walk_path
get_value path doc = walk_path false null path doc

unfoldable pub set_value : List Field → Value → Value → Value × Walked
unfolding walk_path
set_value path v doc = walk_path true v path doc
