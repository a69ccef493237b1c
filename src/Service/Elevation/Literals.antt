-- ===== src/Service/Elevation/Literals.antt =====
-- internal/service/elevation_args.go: what PowerShell reads from a literal in single quotes. It takes
-- each of five characters for such a quote, and two of them together for one that the text holds.
use Prim.Native.Char.{Char, code}
use Prim.Native.String as Str
use text.Mathlib.TextEquality.{Char-path}
use barrikade_lens.Common.{
  Bool, true, false, ◌||◌, String, Option, none, some, ◌≡◌, refl, ap, ◌∙◌, arith, eqb,
  if◌then◌else◌, Bool-cases, inl, inr,
}
use barrikade_lens.Service.Elevation.{append, doubled, quote_power_shell_literal}

-- The apostrophe, and the quotation marks U+2018 to U+201B.
abbrev pub is_quote : Char → Bool
is_quote c =
    eqb (code c) 39
    || eqb (code c) 8216
    || eqb (code c) 8217
    || eqb (code c) 8218
    || eqb (code c) 8219

abbrev pub is_curly : Char → Bool
is_curly c = eqb (code c) 8216 || eqb (code c) 8217 || eqb (code c) 8218 || eqb (code c) 8219

abbrev pub has_curly : String → Bool
has_curly Str.[] = false
has_curly (Str.◌∷◌ c s) = is_curly c || has_curly s

abbrev pub quote_next : String → Bool
quote_next Str.[] = false
quote_next (Str.◌∷◌ c s) = is_quote c

abbrev put_before : Char → Option (String × String) → Option (String × String)
put_before c none = none
put_before c (some (value, rest)) = some (Str.◌∷◌ c value, rest)

-- The inside of a literal up to its end, and the rest; `held` after the first of two quotes.
unfoldable pub read_inside : Bool → String → Option (String × String)
read_inside held Str.[] = none
read_inside held (Str.◌∷◌ c s) =
    let second = read_inside true s in
    let more = read_inside false s in
    if is_quote c
    then if held then put_before c more else if quote_next s then second else some ("", s)
    else put_before c more

unfoldable pub read_literal : String → Option (String × String)
unfolding read_inside
read_literal Str.[] = none
read_literal (Str.◌∷◌ c s) = if is_quote c then read_inside false s else none

read_inside-doubled :
    (value rest : String)
    → has_curly value ≡ false
    → quote_next rest ≡ false
    → read_inside false (append (doubled value "'") rest) ≡ some (value, rest)
unfolding append doubled read_inside
read_inside-doubled Str.[] rest h k = rw k refl
read_inside-doubled (Str.◌∷◌ c s) rest h k = elim (Bool-cases (eqb (code c) 39)) [
  | inl e ↦ rw e (
      ap (put_before "'") (read_inside-doubled s rest (ground (arith, h)) k)
      ∙ ap (λ d. some (Str.◌∷◌ d s, rest)) (Char-path "'" c (ground (arith, e))))
  | inr e ↦ rw (e, other h e) (ap (put_before c) (read_inside-doubled s rest (ground (arith, h)) k))
]
  where
    other : (is_curly c || has_curly s) ≡ false → eqb (code c) 39 ≡ false → is_quote c ≡ false
    other h e = ground (arith, h, e)

-- A text without curly quotation marks that is quoted for PowerShell is read back, and what follows it
-- is left, where that does not begin with a quote.
pub read_literal-quote_power_shell_literal :
    (value rest : String)
    → has_curly value ≡ false
    → quote_next rest ≡ false
    → read_literal (append (quote_power_shell_literal value) rest) ≡ some (value, rest)
unfolding read_literal quote_power_shell_literal append
read_literal-quote_power_shell_literal value rest h k = read_inside-doubled value rest h k
