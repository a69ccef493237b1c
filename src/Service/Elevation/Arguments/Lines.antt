-- ===== src/Service/Elevation/Arguments/Lines.antt =====
-- The whole command line of internal/service/elevation_windows.go, as a Windows program reads it.
use Prim.Native.String as Str
use barrikade_lens.Common.{
  ℕ, zero, suc, ◌≤◌, false, ◌&&◌, not, String, List, [], ◌∷◌, ◌==◌, ◌≡◌, refl, sym, ap, ◌∙◌, arith,
  if◌then◌else◌, Bool-cases, inl, inr, cons_blank, length,
}
use barrikade_lens.Service.Elevation.{
  append, is_special, has_special, quote_windows_arg, command_line,
}
use barrikade_lens.Service.Elevation.Arguments.{
  is_blank, Ends, read_argument, read_argument-quote_windows_arg,
}

abbrev skip_blanks : String → String
skip_blanks Str.[] = ""
skip_blanks (Str.◌∷◌ c s) = let rest = skip_blanks s in if is_blank c then rest else Str.◌∷◌ c s

-- The arguments of a command line, of which at most n are read.
pub read_arguments : ℕ → String → List String
unfolding read_argument
read_arguments zero s = []
read_arguments (suc n) s =
    let (argument, rest) = read_argument false 0 (skip_blanks s) in
    let later = read_arguments n rest in if skip_blanks s == "" then [] else argument ∷ later

-- It begins an argument.
abbrev Begins : String → Type 0
Begins Str.[] = ⊥
Begins (Str.◌∷◌ c s) = is_blank c ≡ false

skip_blanks-Begins : (s : String) → Begins s → skip_blanks s ≡ s
skip_blanks-Begins Str.[] b = refl
skip_blanks-Begins (Str.◌∷◌ c s) b = rw b refl

append-Begins : (s t : String) → Begins s → Begins (append s t)
unfolding append
append-Begins Str.[] t b = absurd b
append-Begins (Str.◌∷◌ c s) t b = b

Begins-plain : (s : String) → (s == "") ≡ false → has_special s ≡ false → Begins s
unfolding has_special is_special
Begins-plain Str.[] h k = ground (arith, h)
Begins-plain (Str.◌∷◌ c s) h k = ground (arith, k)

quote_windows_arg-Begins : (argument : String) → Begins (quote_windows_arg argument)
unfolding quote_windows_arg
quote_windows_arg-Begins argument =
    elim (Bool-cases (not (argument == "") && not (has_special argument))) [
      | inl p ↦ rw p (Begins-plain argument (ground (arith, p)) (ground (arith, p)))
      | inr p ↦ rw p refl
    ]

Begins-not_blank : (s : String) → Begins s → (s == "") ≡ false
Begins-not_blank Str.[] b = absurd b
Begins-not_blank (Str.◌∷◌ c s) b = cons_blank c s

-- The first of the arguments, with what follows it.
read_arguments_next :
    (n : ℕ) (argument rest : String)
    → Ends rest
    → read_arguments (suc n) (append (quote_windows_arg argument) rest)
      ≡ argument ∷ read_arguments n rest
unfolding read_arguments
read_arguments_next n argument rest e =
    let begins =
      append-Begins (quote_windows_arg argument) rest (quote_windows_arg-Begins argument) in
    rw
      (
        skip_blanks-Begins (append (quote_windows_arg argument) rest) begins,
        Begins-not_blank (append (quote_windows_arg argument) rest) begins,
        read_argument-quote_windows_arg argument rest e,
      )
      refl

append_nothing : (s : String) → append s "" ≡ s
unfolding append
append_nothing Str.[] = refl
append_nothing (Str.◌∷◌ c s) = ap (Str.◌∷◌ c) (append_nothing s)

-- The arguments behind a blank.
read_arguments_blank : (n : ℕ) (s : String) → read_arguments n (Str.◌∷◌ " " s) ≡ read_arguments n s
unfolding read_arguments
read_arguments_blank zero s = refl
read_arguments_blank (suc n) s = refl

read_arguments_nothing : (n : ℕ) → read_arguments n "" ≡ []
unfolding read_arguments
read_arguments_nothing zero = refl
read_arguments_nothing (suc n) = refl

-- A Windows program reads from the joined command line the arguments that were quoted, whatever
-- characters they hold; reading as many of them as there are is enough.
pub read_arguments-command_line :
    (n : ℕ) (args : List String) → length args ≤ n → read_arguments n (command_line args) ≡ args
unfolding command_line
read_arguments-command_line n [] h = read_arguments_nothing n
read_arguments-command_line zero (a ∷ args) h = ground (arith, h)
read_arguments-command_line (suc n) (a ∷ []) h =
    ap (read_arguments (suc n)) (sym (append_nothing (quote_windows_arg a)))
    ∙ read_arguments_next n a "" tt
    ∙ ap (◌∷◌ a) (read_arguments_nothing n)
read_arguments-command_line (suc n) (a ∷ b ∷ args) h =
    read_arguments_next n a (Str.◌∷◌ " " (command_line (b ∷ args))) refl
    ∙ ap (◌∷◌ a) (
        read_arguments_blank n (command_line (b ∷ args))
        ∙ read_arguments-command_line n (b ∷ args) (ground (arith, h)))
