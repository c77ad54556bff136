-- ===== src/Values/Emptiness.antt =====
-- RemoveEmptyValues leaves no empty value in a map, and what it leaves it leaves alone.
use ooc.Base.{String, ◌≡◌, refl, false, Bool-cases, inl, inr, ap}
use ooc.Values.{
  Value, null, flag, num, str, slice, object, Fields, end, field, is_zero, keep, remove_in_value,
  remove_empty_values,
}

-- No entry of the map, nor of a map nested in it, has an empty value; a slice may hold anything.
mutual
  pub NoEmpty : Value → Type 0
  NoEmpty null = Unit {0}
  NoEmpty (flag b) = Unit {0}
  NoEmpty (num n) = Unit {0}
  NoEmpty (str s) = Unit {0}
  NoEmpty (slice vs) = Unit {0}
  NoEmpty (object fs) = IsFull fs

  pub IsFull : Fields → Type 0
  IsFull end = Unit {0}
  IsFull (field k v fs) = (is_zero v ≡ false) × NoEmpty v × IsFull fs

keep-IsFull : (k : String) (v : Value) (fs : Fields) → NoEmpty v → IsFull fs → IsFull (keep k v fs)
unfolding keep IsFull
keep-IsFull k v fs hv hfs = elim (Bool-cases (is_zero v)) [
  | inl empty ↦ rw empty hfs
  | inr full ↦ rw full (full, hv, hfs)
]

mutual
  unfolding remove_empty_values IsFull

  in_value-NoEmpty : (v : Value) → NoEmpty (remove_in_value v)
  in_value-NoEmpty null = tt
  in_value-NoEmpty (flag b) = tt
  in_value-NoEmpty (num n) = tt
  in_value-NoEmpty (str s) = tt
  in_value-NoEmpty (slice vs) = tt
  in_value-NoEmpty (object fs) = remove-IsFull fs

  remove-IsFull : (fs : Fields) → IsFull (remove_empty_values fs)
  remove-IsFull end = tt
  remove-IsFull (field k v fs) =
      keep-IsFull k (remove_in_value v) (remove_empty_values fs) (in_value-NoEmpty v)
        (remove-IsFull fs)

mutual
  unfolding remove_empty_values IsFull keep

  full_value : (v : Value) → NoEmpty v → remove_in_value v ≡ v
  full_value null h = refl
  full_value (flag b) h = refl
  full_value (num n) h = refl
  full_value (str s) h = refl
  full_value (slice vs) h = refl
  full_value (object fs) h = ap object (full_fields fs h)

  full_fields : (fs : Fields) → IsFull fs → remove_empty_values fs ≡ fs
  full_fields end h = refl
  full_fields (field k v fs) h = rw (full_value v h.1, full_fields fs h.2, h.0) refl

-- RemoveEmptyValues leaves no entry with an empty value, neither in the map nor in a map nested in maps
-- alone, and a second run changes nothing.
pub remove_empty_values-IsFull :
    (fs : Fields)
    → IsFull (remove_empty_values fs)
      × (remove_empty_values (remove_empty_values fs) ≡ remove_empty_values fs)
remove_empty_values-IsFull fs =
    let full = remove-IsFull fs in (full, full_fields (remove_empty_values fs) full)
