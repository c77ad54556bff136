-- ===== src/Values/Paths/RoundTrip.antt =====
-- SetValue and GetValue along a path through maps.
use ooc.Base.{
  String, ◌≡◌, ◌≢◌, refl, true, false, ap, sym, ◌∙◌, some, List, [], ◌∷◌, str_eq, eq_iff, arith,
  All,
}
use ooc.Values.{Value, null, flag, num, str, slice, object, Fields, end, field}
use ooc.Values.Paths.{
  Field, Walked, found, wrong, value_type, get, put, get_or_add, step, step_map, is_nil, map_value,
  walk_path, get_value, set_value,
}

get-put : (k : String) (v : Value) (m : Fields) → get k (put k v m) ≡ some v
unfolding get put
get-put k v end = ground (arith, eq_iff k k)
get-put k v (field j w fs) = ground (arith, eq_iff k k, eq_iff j k, get-put k v fs)

put-put : (k : String) (v w : Value) (m : Fields) → put k v (put k w m) ≡ put k v m
unfolding put
put-put k v w end = ground (arith, eq_iff k k)
put-put k v w (field j x fs) = ground (arith, eq_iff k k, eq_iff j k, put-put k v w fs)

-- A field with no key selects an entry of a map.
abbrev pub IsMapPath : List Field → Type 0
IsMapPath = All (λ f. str_eq f.key "" ≡ true)

keyless-map_value : (f : Field) → str_eq f.key "" ≡ true → value_type f ≡ map_value
unfolding value_type
keyless-map_value f keyless = rw keyless refl

-- the walk through one more map
read_step :
    (v : Value) (f : Field) (fs : List Field) (doc : Value)
    → str_eq f.key "" ≡ true
    → walk_path false v (f ∷ fs) doc ≡ step_map false v f (walk_path false v fs) doc
unfolding walk_path step
read_step v f fs doc keyless = rw (keyless-map_value f keyless) refl

write_step :
    (v : Value) (f : Field) (fs : List Field) (doc : Value)
    → str_eq f.key "" ≡ true
    → walk_path true v (f ∷ fs) doc ≡ step_map (is_nil fs) v f (walk_path true v fs) doc
unfolding walk_path step
write_step v f fs doc keyless = rw (keyless-map_value f keyless) refl

entry-put : (k : String) (v : Value) (m : Fields) → get_or_add k (put k v m) ≡ v
unfolding get_or_add
entry-put k v m = rw (get_or_add, get-put k v m) refl

-- A read through a map whose entry has just been put there reads on from that entry.
read_entry :
    (f : Field) (fs : List Field) (m : Fields) (x v : Value)
    → str_eq f.key "" ≡ true
    → walk_path false null fs x ≡ (x, found v)
    → walk_path false null (f ∷ fs) (object (put f.name x m)) ≡ (object (put f.name x m), found v)
unfolding step_map
read_entry f fs m x v keyless below =
    rw
      (
        read_step null f fs (object (put f.name x m)) keyless,
        entry-put f.name x m,
        below,
        put-put f.name x x m,
      )
      refl

wrong-ne-found : (s : String) (w : Value) → wrong s ≢ found w
wrong-ne-found s w e = cc

-- What a write has put, a read finds.
reads_back :
    (v w : Value) (f : Field) (fs : List Field) (doc : Value)
    → IsMapPath (f ∷ fs)
    → (walk_path true v (f ∷ fs) doc).1 ≡ found w
    → walk_path false null (f ∷ fs) (walk_path true v (f ∷ fs) doc).0
      ≡ ((walk_path true v (f ∷ fs) doc).0, found v)
unfolding step_map is_nil walk_path
reads_back v w f [] (object m) h e =
    rw (write_step v f [] (object m) h.0) (read_entry f [] m v v h.0 refl)
reads_back v w f (g ∷ gs) (object m) h e =
    let below = get_or_add f.name m in
    let e' : (walk_path true v (g ∷ gs) below).1 ≡ found w =
      ap (λ (r : Value × Walked). r.1) (sym (write_step v f (g ∷ gs) (object m) h.0)) ∙ e in
    rw (write_step v f (g ∷ gs) (object m) h.0) (
      read_entry f (g ∷ gs) m (walk_path true v (g ∷ gs) below).0 v h.0
        (reads_back v w g gs below h.1 e'))
reads_back v w f fs null h e =
    absurd
      (wrong-ne-found _ w (ap (λ (r : Value × Walked). r.1) (sym (write_step v f fs null h.0)) ∙ e))
reads_back v w f fs (flag b) h e = absurd (
    wrong-ne-found _ w
      (ap (λ (r : Value × Walked). r.1) (sym (write_step v f fs (flag b) h.0)) ∙ e))
reads_back v w f fs (num n) h e = absurd (
    wrong-ne-found _ w (ap (λ (r : Value × Walked). r.1) (sym (write_step v f fs (num n) h.0)) ∙ e))
reads_back v w f fs (str s) h e = absurd (
    wrong-ne-found _ w (ap (λ (r : Value × Walked). r.1) (sym (write_step v f fs (str s) h.0)) ∙ e))
reads_back v w f fs (slice xs) h e = absurd (
    wrong-ne-found _ w
      (ap (λ (r : Value × Walked). r.1) (sym (write_step v f fs (slice xs) h.0)) ∙ e))

-- Along a path of maps, GetValue reads the value that a successful SetValue has written, and leaves the
-- document as it is.
pub get_value-set_value :
    (v w : Value) (f : Field) (fs : List Field) (doc : Value)
    → IsMapPath (f ∷ fs)
    → (set_value (f ∷ fs) v doc).1 ≡ found w
    → get_value (f ∷ fs) (set_value (f ∷ fs) v doc).0 ≡ ((set_value (f ∷ fs) v doc).0, found v)
unfolding get_value set_value
get_value-set_value = reads_back
