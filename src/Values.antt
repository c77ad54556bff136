-- ===== src/Values.antt =====
-- Values of JSON as Go's encoding/json reads them into interfaces: HashObject (pkg/utils/hash/hash.go)
-- over them, and paths into them (pkg/utils/unstructed/unstructed.go) in Values/Paths. A map is the list
-- of its entries; a number is the natural number that it is in the specs that are hashed.
pub mod Emptiness
pub mod Paths
use ooc.Base.{ℕ, String, ◌==◌, Bool, true, false, not, str_eq, if◌then◌else◌}

mutual
  pub data Value : Type 0 where
    null : Value
    flag : Bool → Value
    num : ℕ → Value
    str : String → Value
    slice : Items → Value
    object : Fields → Value

  pub data Items : Type 0 where
    nil : Items
    item : Value → Items → Items

  pub data Fields : Type 0 where
    end : Fields
    field : String → Value → Fields → Fields

-- isZeroOfUnderlyingType
unfoldable pub is_zero : Value → Bool
is_zero null = true
is_zero (flag b) = not b
is_zero (num n) = n == 0
is_zero (str s) = str_eq s ""
is_zero (slice nil) = true
is_zero (slice (item v vs)) = false
is_zero (object end) = true
is_zero (object (field k v fs)) = false

-- an entry, unless its value is empty
unfoldable pub keep : String → Value → Fields → Fields
unfolding is_zero
keep k v fs = if is_zero v then fs else field k v fs

-- RemoveEmptyValues: a nested map is emptied first, and is removed if nothing is left of it; the maps in
-- a slice are left alone
unfoldable mutual
  unfolding keep

  pub remove_in_value : Value → Value
  remove_in_value null = null
  remove_in_value (flag b) = flag b
  remove_in_value (num n) = num n
  remove_in_value (str s) = str s
  remove_in_value (slice vs) = slice vs
  remove_in_value (object fs) = object (remove_empty_values fs)

  pub remove_empty_values : Fields → Fields
  remove_empty_values end = end
  remove_empty_values (field k v fs) = keep k (remove_in_value v) (remove_empty_values fs)

-- HashObject: YAML, and SHA-224 in lower-case hexadecimal digits, are not part of the repository
module _ (print_yaml : Fields → String) (sha224 : String → String) where
  unfoldable pub hash_object : Fields → String
  unfolding remove_empty_values
  hash_object m = sha224 (print_yaml (remove_empty_values m))
