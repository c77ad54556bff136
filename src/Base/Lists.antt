-- ===== src/Base/Lists.antt =====
-- Lists measured by native numbers, and predicates on their members.
use Prim.Native.Nat.{ℕ, zero, suc, ◌+◌, ◌≤◌}
use mathlib.Core.Path.{◌≡◌, refl, ap, subst}
use mathlib.Core.Logic.{◌⊎◌, inl, inr}
use mathlib.Core.Bool.{Bool, true, false, not, ◌||◌}
use mathlib.Core.Option.{Option, none, some}
use mathlib.Core.List.{List, [], ◌∷◌, ◌++◌, map}
use native.Mathlib.Omega.{arith}
use ooc.Base.Tests.{if◌then◌else◌}

module _ {ℓ} {A : Type ℓ} where
  abbrev pub length : List A → ℕ
  length [] = 0
  length (x ∷ xs) = suc (length xs)

  abbrev pub All {κ} : (A → Type κ) → List A → Type κ
  All P [] = Unit
  All P (x ∷ xs) = P x × All P xs

  abbrev pub Any : (A → Type 0) → List A → Type 0
  Any P [] = ⊥
  Any P (x ∷ xs) = P x ⊎ Any P xs

  -- the `for ... { if test { found = true; break } }` of the sources
  unfoldable pub any : (A → Bool) → List A → Bool
  any p [] = false
  any p (x ∷ xs) = p x || any p xs

  abbrev pub get_elem? : List A → ℕ → Option A
  get_elem? [] i = none
  get_elem? (x ∷ xs) zero = some x
  get_elem? (x ∷ xs) (suc i) = get_elem? xs i

  -- the first element that passes the test
  unfoldable pub find : (A → Bool) → List A → Option A
  find p [] = none
  find p (x ∷ xs) = if p x then some x else find p xs

  -- the elements that pass, in order: `if test { out = append(out, x) }`
  unfoldable pub select : (A → Bool) → List A → List A
  select p [] = []
  select p (x ∷ xs) = if p x then x ∷ select p xs else select p xs

  pub length-append : (xs ys : List A) → length (xs ++ ys) ≡ length xs + length ys
  length-append [] ys = omega arith
  length-append (x ∷ xs) ys = omega (arith, length-append xs ys)

  pub length-select : (p : A → Bool) (xs : List A) → length (select p xs) ≤ length xs
  unfolding select
  length-select p [] = omega arith
  length-select p (x ∷ xs) = ground (arith, length-select p xs)

  pub All-append {κ} : (P : A → Type κ) (xs ys : List A) → All P xs → All P ys → All P (xs ++ ys)
  All-append P [] ys h k = k
  All-append P (x ∷ xs) ys h k = (h.0, All-append P xs ys h.1 k)

  pub All-imp {κ κ'} :
      (P : A → Type κ) (Q : A → Type κ') (xs : List A) → ((x : A) → P x → Q x) → All P xs → All Q xs
  All-imp P Q [] f h = tt
  All-imp P Q (x ∷ xs) f h = (f x h.0, All-imp P Q xs f h.1)

  select-cons {κ} :
      (P : A → Type κ) (b : Bool) (x : A) (ys : List A)
      → (b ≡ true → P x)
      → All P ys
      → All P (if b then x ∷ ys else ys)
  select-cons P true x ys h k = (h refl, k)
  select-cons P false x ys h k = k

  -- what holds of every element of a list that passes the test holds of the selection
  pub All-select {κ κ'} :
      (P : A → Type κ) (Q : A → Type κ') (p : A → Bool) (xs : List A)
      → ((x : A) → P x → p x ≡ true → Q x)
      → All P xs
      → All Q (select p xs)
  unfolding select
  All-select P Q p [] f h = tt
  All-select P Q p (x ∷ xs) f h =
      select-cons Q (p x) x (select p xs) (f x h.0) (All-select P Q p xs f h.1)

  find-cons :
      (p : A → Bool) (b : Bool) (x a : A) (r : Option A)
      → p x ≡ b
      → (if b then some x else r) ≡ some a
      → (r ≡ some a → p a ≡ true)
      → p a ≡ true
  find-cons p true x a r e h k = cc
  find-cons p false x a r e h k = k h

  pub find-eq_some : (p : A → Bool) (xs : List A) (a : A) → find p xs ≡ some a → p a ≡ true
  unfolding find
  find-eq_some p [] a h = cc
  find-eq_some p (x ∷ xs) a h = find-cons p (p x) x a (find p xs) refl h (find-eq_some p xs a)

  pub some_inj : (x a : A) → some x ≡ some a → x ≡ a
  some_inj x a h = cc

  find-cons_All {κ} :
      (P : A → Type κ) (b : Bool) (x a : A) (r : Option A)
      → P x
      → (if b then some x else r) ≡ some a
      → (r ≡ some a → P a)
      → P a
  find-cons_All P true x a r px h k = subst P (some_inj x a h) px
  find-cons_All P false x a r px h k = k h

  -- what holds of every element holds of the one that is found
  pub find-All {κ} :
      (P : A → Type κ) (p : A → Bool) (xs : List A) (a : A) → All P xs → find p xs ≡ some a → P a
  unfolding find
  find-All P p [] a h e = cc
  find-All P p (x ∷ xs) a h e = find-cons_All P (p x) x a (find p xs) h.0 e (find-All P p xs a h.1)

  pub any-eq_false : (p : A → Bool) (xs : List A) → any p xs ≡ false → All (λ x. p x ≡ false) xs
  unfolding any
  any-eq_false p [] h = tt
  any-eq_false p (x ∷ xs) h = (ground arith, any-eq_false p xs (ground arith))

  pub any-of_All : (p : A → Bool) (xs : List A) → All (λ x. p x ≡ false) xs → any p xs ≡ false
  unfolding any
  any-of_All p [] h = refl
  any-of_All p (x ∷ xs) h = ground (arith, any-of_All p xs h.1)

  -- nothing is selected exactly if every element fails the test
  pub select-empty :
      (p : A → Bool) (xs : List A) → length (select p xs) ≡ 0 → All (λ x. p x ≡ false) xs
  unfolding select
  select-empty p [] h = tt
  select-empty p (x ∷ xs) h = (ground arith, select-empty p xs (ground arith))

  pub length-select_zero :
      (p : A → Bool) (xs : List A) → All (λ x. p x ≡ false) xs → length (select p xs) ≡ 0
  unfolding select
  length-select_zero p [] h = refl
  length-select_zero p (x ∷ xs) h = ground (arith, length-select_zero p xs h.1)

  pub Any-append_left : (P : A → Type 0) (xs ys : List A) → Any P xs → Any P (xs ++ ys)
  Any-append_left P [] ys h = absurd h
  Any-append_left P (x ∷ xs) ys (inl h) = inl h
  Any-append_left P (x ∷ xs) ys (inr h) = inr (Any-append_left P xs ys h)

  pub Any-append_right : (P : A → Type 0) (xs ys : List A) → Any P ys → Any P (xs ++ ys)
  Any-append_right P [] ys h = h
  Any-append_right P (x ∷ xs) ys h = inr (Any-append_right P xs ys h)

  Any-cons :
      (P : A → Type 0) (b rest : Bool) (x : A) (xs : List A)
      → (b ≡ true → P x)
      → (rest ≡ true → Any P xs)
      → (b || rest) ≡ true
      → Any P (x ∷ xs)
  Any-cons P true rest x xs f g h = inl (f refl)
  Any-cons P false rest x xs f g h = inr (g h)

  pub Any-of_any :
      (P : A → Type 0) (p : A → Bool) (xs : List A)
      → ((x : A) → p x ≡ true → P x)
      → any p xs ≡ true
      → Any P xs
  unfolding any
  Any-of_any P p [] f h = cc
  Any-of_any P p (x ∷ xs) f h = Any-cons P (p x) (any p xs) x xs (f x) (Any-of_any P p xs f) h

  pub length-select-not :
      (p : A → Bool) (xs : List A)
      → length (select p xs) + length (select (λ x. not (p x)) xs) ≡ length xs
  unfolding select
  length-select-not p [] = omega arith
  length-select-not p (x ∷ xs) = ground (arith, length-select-not p xs)

module _ {ℓ κ} {A : Type ℓ} {B : Type κ} where
  -- the pairs of two lists, row by row and column by column
  pub All-transpose {κ'} :
      (R : A → B → Type κ') (rows : List A) (cols : List B)
      → All (λ a. All (R a) cols) rows
      → All (λ b. All (λ a. R a b) rows) cols
  All-transpose R rows [] h = tt
  All-transpose R rows (b ∷ cols) h = (
    All-imp (λ a. All (R a) (b ∷ cols)) (λ a. R a b) rows (λ a k. k.0) h,
    All-transpose R rows cols
        (All-imp (λ a. All (R a) (b ∷ cols)) (λ a. All (R a) cols) rows (λ a k. k.1) h),
  )

module _ {ℓ κ} {A : Type ℓ} {B : Type κ} where
  pub length-map : (f : A → B) (xs : List A) → length (map f xs) ≡ length xs
  length-map f [] = refl
  length-map f (x ∷ xs) = ap suc (length-map f xs)

  pub All-map {κ'} :
      (P : B → Type κ') (f : A → B) (xs : List A) → ((x : A) → P (f x)) → All P (map f xs)
  All-map P f [] h = tt
  All-map P f (x ∷ xs) h = (h x, All-map P f xs h)
