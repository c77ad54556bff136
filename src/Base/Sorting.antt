-- ===== src/Base/Sorting.antt =====
-- The order of Go's strings, and sort.Slice.
use Prim.Native.Char.{code}
use Prim.Native.String.{String}
use mathlib.Core.Path.{◌≡◌, refl}
use native.Mathlib.Omega.{arith}
use mathlib.Core.Bool.{Bool, true, false, ◌&&◌, ◌||◌}
use mathlib.Core.List.{List, [], ◌∷◌}
use ooc.Base.Tests.{◌==◌, ltb, if◌then◌else◌, Bool-cases}
use mathlib.Core.Logic.{inl, inr}
use ooc.Base.Lists.{All}

-- `<` on strings compares their bytes, and so the codes of their characters.
unfoldable pub str_ltb : String → String → Bool
str_ltb s String.[] = false
str_ltb String.[] (String.◌∷◌ d p) = true
str_ltb (String.◌∷◌ c s) (String.◌∷◌ d p) =
    ltb (code c) (code d) || ((code c == code d) && str_ltb s p)

pub str_ltb-asym : (a b : String) → str_ltb a b ≡ true → str_ltb b a ≡ false
unfolding str_ltb
str_ltb-asym String.[] b h = refl
str_ltb-asym (String.◌∷◌ c s) String.[] h = absurd (cc)
str_ltb-asym (String.◌∷◌ c s) (String.◌∷◌ d p) h = ground (arith, str_ltb-asym s p)

pub str_ltb-negtrans :
    (a b c : String) → str_ltb a b ≡ false → str_ltb b c ≡ false → str_ltb a c ≡ false
unfolding str_ltb
str_ltb-negtrans a b String.[] h k = refl
str_ltb-negtrans a String.[] (String.◌∷◌ z c) h k = absurd (cc)
str_ltb-negtrans String.[] (String.◌∷◌ y b) (String.◌∷◌ z c) h k = absurd (cc)
str_ltb-negtrans (String.◌∷◌ x a) (String.◌∷◌ y b) (String.◌∷◌ z c) h k =
    ground (arith, str_ltb-negtrans a b c)

module _ {ℓ} {A : Type ℓ} where
  -- Each element stands in the relation to all after it.
  abbrev pub IsSorted : (A → A → Type 0) → List A → Type 0
  IsSorted R [] = Unit {0}
  IsSorted R (x ∷ xs) = All (R x) xs × IsSorted R xs

module _ {ℓ} {A : Type ℓ} (less : A → A → Bool) where
  unfoldable pub insert_by : A → List A → List A
  insert_by c [] = c ∷ []
  insert_by c (d ∷ ds) = if less d c then d ∷ insert_by c ds else c ∷ d ∷ ds

  -- sort.Slice; the order of equal elements is not specified, and of strings it cannot be seen
  unfoldable pub sort_slice : List A → List A
  unfolding insert_by
  sort_slice [] = []
  sort_slice (c ∷ cs) = insert_by c (sort_slice cs)

  abbrev pub NotBefore : A → A → Type 0
  NotBefore a b = less b a ≡ false

  insert-All : (P : A → Type 0) (c : A) (cs : List A) → P c → All P cs → All P (insert_by c cs)
  unfolding insert_by
  insert-All P c [] h k = (h, tt)
  insert-All P c (d ∷ ds) h k = elim (Bool-cases (less d c)) [
    | inl before ↦ rw before (k.0, insert-All P c ds h k.1)
    | inr after ↦ rw after (h, k)
  ]

  module _ (asym : (a b : A) → less a b ≡ true → less b a ≡ false)
      (negtrans : (a b c : A) → less a b ≡ false → less b c ≡ false → less a c ≡ false) where
    All-after :
        (c d : A) (ds : List A) → NotBefore c d → All (NotBefore d) ds → All (NotBefore c) ds
    All-after c d [] h k = tt
    All-after c d (e ∷ ds) h k = (negtrans e d c k.0 h, All-after c d ds h k.1)

    insert-IsSorted :
        (c : A) (ds : List A) → IsSorted NotBefore ds → IsSorted NotBefore (insert_by c ds)
    unfolding insert_by
    insert-IsSorted c [] h = (tt, tt)
    insert-IsSorted c (d ∷ ds) h = elim (Bool-cases (less d c)) [
      | inl before ↦
          rw before (insert-All (NotBefore d) c ds (asym d c before) h.0, insert-IsSorted c ds h.1)
      | inr after ↦ rw after ((after, All-after c d ds after h.0), h)
    ]

    pub sort_slice-IsSorted : (cs : List A) → IsSorted NotBefore (sort_slice cs)
    unfolding sort_slice
    sort_slice-IsSorted [] = tt
    sort_slice-IsSorted (c ∷ cs) = insert-IsSorted c (sort_slice cs) (sort_slice-IsSorted cs)
