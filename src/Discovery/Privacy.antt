-- ===== src/Discovery/Privacy.antt =====
-- pkg/discovery/privacy.go: which attribute keys are sensitive, and `strings.TrimSpace`. Texts are
-- valid UTF-8, so a text is the list of its code points.
use Prim.Native.Char.{code}
use barrikade_lens.Common.{
  ℕ, ◌+◌, Bool, true, false, ◌&&◌, ◌||◌, String, List, [], ◌∷◌, map, Option, none, some, ◌==◌, eqb,
  leb, if◌then◌else◌,
}

abbrev pub codes : String → List ℕ
codes String.[] = []
codes (String.◌∷◌ c s) = code c ∷ codes s

-- unicode.IsSpace
pub is_space : ℕ → Bool
is_space c =
    leb 9 c && leb c 13
    || eqb c 32
    || eqb c 0x85
    || eqb c 0xa0
    || eqb c 0x1680
    || leb 0x2000 c && leb c 0x200a
    || eqb c 0x2028
    || eqb c 0x2029
    || eqb c 0x202f
    || eqb c 0x205f
    || eqb c 0x3000

unfoldable pub trim_left : String → String
trim_left String.[] = ""
trim_left (String.◌∷◌ c s) =
    let rest = trim_left s in if is_space (code c) then rest else String.◌∷◌ c s

unfoldable pub trim_right : String → String
trim_right String.[] = ""
trim_right (String.◌∷◌ c s) =
    let rest = trim_right s in if is_space (code c) && rest == "" then "" else String.◌∷◌ c rest

-- strings.TrimSpace
unfoldable pub trim_space : String → String
unfolding trim_left trim_right is_space
trim_space s = trim_right (trim_left s)

-- strings.TrimSuffix(s, ".")
unfoldable pub trim_dot : String → String
trim_dot String.[] = ""
trim_dot (String.◌∷◌ c s) =
    let rest = trim_dot s in if String.◌∷◌ c s == "." then "" else String.◌∷◌ c rest

-- What `(?i)` identifies with an ASCII letter: its capital, the Kelvin sign and the long s.
fold_case : ℕ → ℕ
fold_case c =
    if leb 65 c && leb c 90
    then c + 32
    else if eqb c 0x212a
    then 107
    else if eqb c 0x17f
    then 115
    else c

unfoldable pub strip : List ℕ → List ℕ → Option (List ℕ)
strip [] cs = some cs
strip (w ∷ ws) [] = none
strip (w ∷ ws) (c ∷ cs) = if eqb w c then strip ws cs else none

is_separator : ℕ → Bool
is_separator c = eqb c b'_' || eqb c b'-'

-- `($|[_-])`
at_end : List ℕ → Bool
unfolding is_separator
at_end [] = true
at_end (c ∷ cs) = is_separator c

-- The alternatives of `sensitiveKey`, with each optional separator written out.
abbrev sensitive_words : List String
sensitive_words =
    "secret" ∷ "token" ∷ "password" ∷ "passwd" ∷ "credential" ∷ "privatekey" ∷ "private_key"
    ∷ "private-key" ∷ "apikey" ∷ "api_key" ∷ "api-key" ∷ "authorization" ∷ "cookie" ∷ "prompt"
    ∷ "content" ∷ "commandline" ∷ "command_line" ∷ "command-line" ∷ "commandarg" ∷ "command_arg"
    ∷ "command-arg" ∷ "commandargs" ∷ "command_args" ∷ "command-args" ∷ []

ends_after : Option (List ℕ) → Bool
unfolding at_end
ends_after none = false
ends_after (some rest) = at_end rest

word_here : List String → List ℕ → Bool
unfolding strip ends_after
word_here [] cs = false
word_here (w ∷ ws) cs = ends_after (strip (codes w) cs) || word_here ws cs

-- Whether the pattern matches in `cs`; the first argument tells that `(^|[_-])` has just matched.
word_within : Bool → List ℕ → Bool
unfolding word_here
word_within bound [] = false
word_within bound (c ∷ cs) =
    bound && word_here sensitive_words (c ∷ cs) || word_within (is_separator c) cs

same_codes : List ℕ → List ℕ → Bool
same_codes [] [] = true
same_codes (a ∷ as') (b ∷ bs) = eqb a b && same_codes as' bs
same_codes _ _ = false

-- strings.HasSuffix
ends_with : List ℕ → List ℕ → Bool
unfolding same_codes
ends_with suffix [] = same_codes suffix []
ends_with suffix (c ∷ cs) = same_codes suffix (c ∷ cs) || ends_with suffix cs

-- strings.ToLower, as far as the ASCII suffixes below can tell.
lower : ℕ → ℕ
lower c = if leb 65 c && leb c 90 then c + 32 else c

unfoldable pub is_sensitive_key : String → Bool
unfolding trim_space lower ends_with word_within fold_case is_separator
is_sensitive_key raw =
    let key = codes (trim_space raw) in
    let lowered = map lower key in
    if ends_with (codes "_present") lowered || ends_with (codes "_count") lowered
    then false
    else word_within true (map fold_case key)
