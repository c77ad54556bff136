-- ===== src/Base/Text.antt =====
-- `strings.Contains`, `strings.Split` and `+` on texts of Go's standard library, over the native
-- texts.
use Prim.Native.Nat.{ℕ, zero, suc, ◌+◌, ◌≤◌}
use Prim.Native.Char.{code}
use Prim.Native.String
use Prim.Native.String.{String}
use mathlib.Core.Path.{◌≡◌, refl, ap}
use native.Mathlib.Omega.{arith}
use mathlib.Core.Bool.{Bool, true, false, ◌&&◌, ◌||◌}
use mathlib.Core.List.{List, [], ◌∷◌}
use ooc.Base.Tests.{◌==◌, if◌then◌else◌}

-- len(s) of ASCII text
unfoldable pub text_length : String → ℕ
text_length String.[] = 0
text_length (String.◌∷◌ c s) = suc (text_length s)

-- strings.HasPrefix(s, p)
unfoldable pub has_prefix : String → String → Bool
has_prefix s String.[] = true
has_prefix String.[] (String.◌∷◌ d p) = false
has_prefix (String.◌∷◌ c s) (String.◌∷◌ d p) = (code c == code d) && has_prefix s p

unfoldable pub contains : String → String → Bool
unfolding has_prefix
contains String.[] sub = has_prefix "" sub
contains (String.◌∷◌ c rest) sub = has_prefix (String.◌∷◌ c rest) sub || contains rest sub

-- the pieces of a `fmt.Sprintf` one after the other
unfoldable pub concat : List String → String
concat [] = ""
concat (s ∷ rest) = String.◌++◌ s (concat rest)

-- strings.Join
unfoldable pub join : String → List String → String
join sep [] = ""
join sep (s ∷ []) = s
join sep (s ∷ t ∷ rest) = String.◌++◌ s (String.◌++◌ sep (join sep (t ∷ rest)))

-- The first piece and the others; `skip` characters of a separator are left to drop, and a separator
-- has `more` characters after its first.
unfoldable pub pieces : String → ℕ → ℕ → String → String × List String
unfolding has_prefix
pieces sep more skip String.[] = ("", [])
pieces sep more (suc skip) (String.◌∷◌ c s) = pieces sep more skip s
pieces sep more zero (String.◌∷◌ c s) =
    let cut = pieces sep more more s in
    let on = pieces sep more zero s in
    if has_prefix (String.◌∷◌ c s) sep then ("", cut.0 ∷ cut.1) else (String.◌∷◌ c on.0, on.1)

-- strings.Split by a separator of `more + 1` characters
unfoldable pub split : String → ℕ → String → List String
unfolding pieces
split sep more s = let (first, rest) = pieces sep more zero s in first ∷ rest

split_url : split "//" 1 "https://10.0.0.1:2380" ≡ "https:" ∷ "10.0.0.1:2380" ∷ []
unfolding split
split_url = refl

text_length-append : (s t : String) → text_length (String.◌++◌ s t) ≡ text_length s + text_length t
unfolding text_length
text_length-append String.[] t = omega (arith, ap text_length (Prim.Native.String.append.nil t))
text_length-append (String.◌∷◌ c s) t =
    omega (arith, ap text_length (Prim.Native.String.append.cons c s t), text_length-append s t)

pub text_length-join :
    (s : String) (rest : List String) → text_length s ≤ text_length (join "," (s ∷ rest))
unfolding join
text_length-join s [] = omega arith
text_length-join s (x ∷ rest) =
    omega (arith, text_length-append s (String.◌++◌ "," (join "," (x ∷ rest))))

pub text_length-join_tail :
    (s : String) (rest : List String)
    → text_length (join "," rest) ≤ text_length (join "," (s ∷ rest))
unfolding join text_length
text_length-join_tail s [] = omega arith
text_length-join_tail s (x ∷ rest) = omega (
  arith,
  text_length-append s (String.◌++◌ "," (join "," (x ∷ rest))),
  text_length-append "," (join "," (x ∷ rest)),
)
