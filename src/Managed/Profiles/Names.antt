-- ===== src/Managed/Profiles/Names.antt =====
-- Trimming a name (strings.TrimSpace) twice: a name that is not blank stays so.
use Prim.Native.Char.{code}
use barrikade_lens.Common.{
  cons_blank, Bool, true, false, ◌&&◌, ◌||◌, not, String, ◌==◌, ◌≡◌, ◌≢◌, refl, ◌∙◌, arith, eq_iff,
  if◌then◌else◌,
}
use barrikade_lens.Discovery.Privacy.{is_space, trim_left, trim_right, trim_space}

-- Some code point that is not a space.
has_ink : String → Bool
has_ink String.[] = false
has_ink (String.◌∷◌ c s) = not (is_space (code c)) || has_ink s

has_ink-if :
    (b : Bool) (s t : String) → has_ink (if b then s else t) ≡ (if b then has_ink s else has_ink t)
has_ink-if true s t = refl
has_ink-if false s t = refl

blank-if :
    (b : Bool) (s t : String) → ((if b then s else t) == "") ≡ (if b then s == "" else t == "")
blank-if true s t = refl
blank-if false s t = refl

has_ink-trim_left : (s : String) → has_ink (trim_left s) ≡ has_ink s
unfolding has_ink trim_left
has_ink-trim_left String.[] = refl
has_ink-trim_left (String.◌∷◌ c s) =
    has_ink-if (is_space (code c)) (trim_left s) (String.◌∷◌ c s)
    ∙ skip (is_space (code c)) _ _ (has_ink-trim_left s)
  where
    skip : (b h k : Bool) → h ≡ k → (if b then h else not b || k) ≡ (not b || k)
    skip true h k e = e
    skip false h k e = refl

trim_right-ink : (s : String) → (trim_right s == "") ≡ not (has_ink s)
unfolding has_ink trim_right
trim_right-ink String.[] = refl
trim_right-ink (String.◌∷◌ c s) =
    blank-if (is_space (code c) && trim_right s == "") "" (String.◌∷◌ c (trim_right s))
    ∙ last (is_space (code c)) _ _ _ (trim_right-ink s) (cons_blank c (trim_right s))
  where
    last :
        (b h k n : Bool) → h ≡ not k → n ≡ false → (if b && h then true else n) ≡ not (not b || k)
    last true true k n e f = e
    last true false k n e f = f ∙ e
    last false h k n e f = f

has_ink-trim_right : (s : String) → has_ink (trim_right s) ≡ has_ink s
unfolding has_ink trim_right
has_ink-trim_right String.[] = refl
has_ink-trim_right (String.◌∷◌ c s) =
    has_ink-if (is_space (code c) && trim_right s == "") "" (String.◌∷◌ c (trim_right s))
    ∙ last (is_space (code c)) _ _ _ (trim_right-ink s) (has_ink-trim_right s)
  where
    last :
        (b h k l : Bool) → h ≡ not l → k ≡ l → (if b && h then false else not b || k) ≡ (not b || l)
    last true true k l e f = ground (arith, e)
    last true false k l e f = f
    last false h k l e f = refl

-- What is not blank is not blank once trimmed.
pub trim_space_twice : (s : String) → trim_space s ≢ "" → trim_space (trim_space s) ≢ ""
unfolding trim_space
trim_space_twice s h e = ground (
  arith,
  trim_right-ink (trim_left s),
  trim_right-ink (trim_left (trim_right (trim_left s))),
  has_ink-trim_left (trim_right (trim_left s)),
  has_ink-trim_right (trim_left s),
  eq_iff (trim_right (trim_left s)) "",
  eq_iff (trim_right (trim_left (trim_right (trim_left s)))) "",
)
