-- ===== src/Common/Texts.antt =====
-- Sets of texts: the `map[string]struct{}` of the sources, with membership as a test.
use Prim.Native.Char
use Prim.Native.String as Str
use Prim.Native.String.{String}
use mathlib.Core.Path.{◌≡◌, refl, ap}
use mathlib.Core.Bool.{Bool, true, false, ◌||◌}
use barrikade_lens.Common.Tests.{Bool-cases}
use mathlib.Core.List.{List, [], ◌∷◌, ◌++◌}
use native.Mathlib.Omega.{arith}
use mathlib.Core.Logic.{◌≢◌, inl, inr}
use text.Mathlib.TextEquality.{eq_iff}
use text.Mathlib.Text.{◌==◌}

abbrev pub contains : List String → String → Bool
contains [] k = false
contains (x ∷ xs) k = k == x || contains xs k

pub contains-append :
    (xs ys : List String) (k : String) → contains (xs ++ ys) k ≡ (contains xs k || contains ys k)
contains-append [] ys k = refl
contains-append (x ∷ xs) ys k = ground (arith, contains-append xs ys k)

-- No text twice.
abbrev pub Distinct : List String → Type 0
Distinct [] = Unit
Distinct (x ∷ xs) = (contains xs x ≡ false) × Distinct xs

pub ne_of_test : (s t : String) → (s == t) ≡ false → s ≢ t
ne_of_test s t h e = ground (arith, eq_iff s t)

has_char : String → Bool
has_char Str.[] = false
has_char (Str.◌∷◌ c s) = true

true-ne-false : true ≢ false
true-ne-false e = ground (arith, e)

pub cons_blank : (c : Prim.Native.Char.Char) (s : String) → (Str.◌∷◌ c s == "") ≡ false
unfolding has_char
cons_blank c s = elim (Bool-cases (Str.◌∷◌ c s == "")) [
  | inl e ↦ absurd (true-ne-false (ap has_char ((eq_iff (Str.◌∷◌ c s) "").0 e)))
  | inr e ↦ e
]
