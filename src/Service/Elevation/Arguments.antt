-- ===== src/Service/Elevation/Arguments.antt =====
-- internal/service/elevation_args.go: what a Windows program reads from the quoted arguments, by the
-- documented rules of CommandLineToArgvW for the arguments after the program's name.
pub mod Lines
use Prim.Native.Char.{Char, code}
use Prim.Native.String as Str
use text.Mathlib.TextEquality.{Char-path}
use barrikade_lens.Common.{
  ℕ, zero, suc, ◌*◌, ◌+◌, ◌/◌, ◌%◌, Bool, true, false, ◌&&◌, ◌||◌, not, String, List, [], ◌∷◌, ◌==◌,
  ◌≡◌, refl, sym, ap, ◌∙◌, arith, eq_iff, eqb, if◌then◌else◌, Bool-cases, inl, inr,
}
use barrikade_lens.Service.Elevation.{
  append, backslashes, is_special, has_special, escape, quote_windows_arg, command_line,
}

-- A character before the argument that is read.
abbrev before : Char → String × String → String × String
before c (argument, rest) = (Str.◌∷◌ c argument, rest)

abbrev slashes_before : ℕ → String × String → String × String
slashes_before n (argument, rest) = (backslashes n argument, rest)

-- A space or a tab ends an argument outside quotation marks.
abbrev pub is_blank : Char → Bool
is_blank c = eqb (code c) 32 || eqb (code c) 9

-- One argument and the rest, inside quotation marks or not, after n backslashes: 2n backslashes and a
-- quotation mark give n backslashes and open or close a quotation; 2n+1 and the mark give n and the
-- mark itself; others stand for themselves.
pub read_argument : Bool → ℕ → String → String × String
read_argument quoted n Str.[] = (backslashes n "", "")
read_argument quoted n (Str.◌∷◌ c s) =
    let more = read_argument quoted (suc n) s in
    let toggled = read_argument (not quoted) 0 s in
    let later = read_argument quoted 0 s in
    if eqb (code c) 92
    then more
    else if eqb (code c) 34
    then (if eqb (n % 2) 0
        then slashes_before (n / 2) toggled
        else slashes_before (n / 2) (before c later))
    else if is_blank c && not quoted
    then (backslashes n "", Str.◌∷◌ c s)
    else slashes_before n (before c later)

half_even : (n : ℕ) → (n * 2) / 2 ≡ n
half_even n = omega arith

half_odd : (n : ℕ) → (n * 2 + 1) / 2 ≡ n
half_odd n = omega arith

even : (n : ℕ) → eqb ((n * 2) % 2) 0 ≡ true
even n = ground arith

odd : (n : ℕ) → eqb ((n * 2 + 1) % 2) 0 ≡ false
odd n = ground arith

append-backslashes :
    (n : ℕ) (s t : String) → append (backslashes n s) t ≡ backslashes n (append s t)
unfolding append backslashes
append-backslashes zero s t = refl
append-backslashes (suc n) s t = ap (Str.◌∷◌ "\\") (append-backslashes n s t)

backslashes-suc : (n : ℕ) (s : String) → backslashes (suc n) s ≡ backslashes n (Str.◌∷◌ "\\" s)
unfolding backslashes
backslashes-suc zero s = refl
backslashes-suc (suc n) s = ap (Str.◌∷◌ "\\") (backslashes-suc n s)

read_counted :
    (quoted : Bool) (m n : ℕ) (s : String)
    → read_argument quoted m (backslashes n s) ≡ read_argument quoted (n + m) s
unfolding read_argument backslashes
read_counted quoted m zero s = ap (λ k. read_argument quoted k s) (omega arith)
read_counted quoted m (suc n) s =
    read_counted quoted (suc m) n s ∙ ap (λ k. read_argument quoted k s) (omega arith)

-- Backslashes are counted.
read_argument-backslashes :
    (quoted : Bool) (n : ℕ) (s : String)
    → read_argument quoted 0 (backslashes n s) ≡ read_argument quoted n s
read_argument-backslashes quoted n s =
    read_counted quoted 0 n s ∙ ap (λ k. read_argument quoted k s) (omega arith)

-- An even number of them before a quotation mark, an odd one, and any before another character.
read_even :
    (quoted : Bool) (n : ℕ) (c : Char) (s : String)
    → eqb (code c) 34 ≡ true
    → read_argument quoted (n * 2) (Str.◌∷◌ c s) ≡ slashes_before n (read_argument (not quoted) 0 s)
unfolding read_argument
read_even quoted n c s h = rw (mark, h, even n, half_even n) refl
  where
    mark : eqb (code c) 92 ≡ false
    mark = ground (arith, h)

read_odd :
    (quoted : Bool) (n : ℕ) (c : Char) (s : String)
    → eqb (code c) 34 ≡ true
    → read_argument quoted (n * 2 + 1) (Str.◌∷◌ c s)
      ≡ slashes_before n (before c (read_argument quoted 0 s))
unfolding read_argument
read_odd quoted n c s h = rw (mark, h, odd n, half_odd n) refl
  where
    mark : eqb (code c) 92 ≡ false
    mark = ground (arith, h)

read_other :
    (quoted : Bool) (n : ℕ) (c : Char) (s : String)
    → eqb (code c) 92 ≡ false
    → eqb (code c) 34 ≡ false
    → (is_blank c && not quoted) ≡ false
    → read_argument quoted n (Str.◌∷◌ c s) ≡ slashes_before n (before c (read_argument quoted 0 s))
unfolding read_argument
read_other quoted n c s h k b = rw (h, k, b) refl

backslashes_here :
    (n : ℕ) (c : Char) (s : String)
    → eqb (code c) 92 ≡ true
    → backslashes (suc n) s ≡ backslashes n (Str.◌∷◌ c s)
backslashes_here n c s e =
    backslashes-suc n s
    ∙ ap (λ d. backslashes n (Str.◌∷◌ d s)) (Char-path "\\" c (ground (arith, e)))

read_here :
    (quoted : Bool) (n : ℕ) (c : Char) (s : String)
    → eqb (code c) 92 ≡ true
    → read_argument quoted n (Str.◌∷◌ c s) ≡ read_argument quoted (suc n) s
unfolding read_argument
read_here quoted n c s e = rw e refl

-- What is quoted is read back, and the reading stops where the quotation is closed.
read_argument-escape :
    (n : ℕ) (s rest : String)
    → read_argument false 0 rest ≡ ("", rest)
    → read_argument true 0 (append (escape n s) rest) ≡ (backslashes n s, rest)
unfolding append escape backslashes
read_argument-escape n Str.[] rest h =
    ap (read_argument true 0) (append-backslashes (n * 2) "\"" rest)
    ∙ read_argument-backslashes true (n * 2) (Str.◌∷◌ "\"" rest)
    ∙ read_even true n "\"" rest refl
    ∙ ap (slashes_before n) h
read_argument-escape n (Str.◌∷◌ c s) rest h = elim (Bool-cases (eqb (code c) 92)) [
  | inl e ↦
      rw e (read_argument-escape (suc n) s rest h ∙ ap (λ t. (t, rest)) (backslashes_here n c s e))
  | inr e ↦ elim (Bool-cases (eqb (code c) 34)) [
    | inl q ↦
        rw (e, q)
          (ap (read_argument true 0) (append-backslashes (n * 2 + 1) (Str.◌∷◌ c (escape 0 s)) rest)
            ∙ read_argument-backslashes true (n * 2 + 1) (Str.◌∷◌ c (append (escape 0 s) rest))
            ∙ read_odd true n c (append (escape 0 s) rest) q
            ∙ ap (λ r. slashes_before n (before c r)) (read_argument-escape 0 s rest h))
    | inr q ↦
        rw (e, q)
          (ap (read_argument true 0) (append-backslashes n (Str.◌∷◌ c (escape 0 s)) rest)
            ∙ read_argument-backslashes true n (Str.◌∷◌ c (append (escape 0 s) rest))
            ∙ read_other true n c (append (escape 0 s) rest) e q (ground arith)
            ∙ ap (λ r. slashes_before n (before c r)) (read_argument-escape 0 s rest h))
  ]
]

-- The text ends here, or a blank comes.
abbrev pub Ends : String → Type 0
Ends Str.[] = Unit
Ends (Str.◌∷◌ c s) = is_blank c ≡ true

read_argument-Ends :
    (n : ℕ) (rest : String) → Ends rest → read_argument false n rest ≡ (backslashes n "", rest)
unfolding read_argument
read_argument-Ends n Str.[] e = refl
read_argument-Ends n (Str.◌∷◌ c s) e = rw (slash, mark, e) refl
  where
    slash : eqb (code c) 92 ≡ false
    slash = ground (arith, e)

    mark : eqb (code c) 34 ≡ false
    mark = ground (arith, e)

-- A text without blanks and quotation marks stands for itself.
read_argument_plain :
    (n : ℕ) (s rest : String)
    → has_special s ≡ false
    → Ends rest
    → read_argument false n (append s rest) ≡ (backslashes n s, rest)
unfolding append has_special is_special backslashes
read_argument_plain n Str.[] rest h e = read_argument-Ends n rest e
read_argument_plain n (Str.◌∷◌ c s) rest h e = elim (Bool-cases (eqb (code c) 92)) [
  | inl p ↦
      read_here false n c (append s rest) p
      ∙ read_argument_plain (suc n) s rest (ground (arith, h)) e
      ∙ ap (λ t. (t, rest)) (backslashes_here n c s p)
  | inr p ↦
      read_other false n c (append s rest) p (ground (arith, h)) (ground (arith, h))
      ∙ ap (λ r. slashes_before n (before c r)) (read_argument_plain 0 s rest (ground (arith, h)) e)
]

-- A quoted argument is read back, and what follows it is left.
pub read_argument-quote_windows_arg :
    (argument rest : String)
    → Ends rest
    → read_argument false 0 (append (quote_windows_arg argument) rest) ≡ (argument, rest)
unfolding quote_windows_arg append backslashes
read_argument-quote_windows_arg argument rest e =
    elim (Bool-cases (not (argument == "") && not (has_special argument))) [
      | inl p ↦ rw p (read_argument_plain 0 argument rest (ground (arith, p)) e)
      | inr p ↦ rw p (
          read_even false 0 "\"" (append (escape 0 argument) rest) refl
          ∙ read_argument-escape 0 argument rest (read_argument-Ends 0 rest e))
    ]
