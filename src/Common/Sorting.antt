-- ===== src/Common/Sorting.antt =====
-- The order of texts that `sort.Strings` goes by, and `sort.Slice` by a text key.
use Prim.Native.Char.{code}
use Prim.Native.String.{String}
use mathlib.Core.Path.{◌≡◌, refl, sym, ap, ap₂, ◌∙◌, subst}
use mathlib.Core.Logic.{◌≢◌, inl, inr}
use mathlib.Core.Bool.{Bool, true, false, ◌||◌}
use mathlib.Core.List.{List, [], ◌∷◌, Permᴰ, map}
use native.Mathlib.Omega.{arith}
use text.Mathlib.Text.{◌==◌}
use text.Mathlib.TextEquality.{Char-path, eq_iff}
use barrikade_lens.Common.Tests.{Bool-cases, if◌then◌else◌, ltb, eqb}
use barrikade_lens.Common.Lists.{All, All-if}
use barrikade_lens.Common.Texts.{contains, Distinct}

-- Texts are compared byte by byte, which is the order of their code points.
unfoldable pub text_le : String → String → Bool
text_le String.[] t = true
text_le (String.◌∷◌ c s) String.[] = false
text_le (String.◌∷◌ c s) (String.◌∷◌ d t) =
    let rest = text_le s t in
    if ltb (code c) (code d) then true else if eqb (code c) (code d) then rest else false

pub text_le_refl : (s : String) → text_le s s ≡ true
unfolding text_le
text_le_refl String.[] = refl
text_le_refl (String.◌∷◌ c s) = ground (arith, text_le_refl s)

pub text_le_total : (s t : String) → text_le s t ≡ false → text_le t s ≡ true
unfolding text_le
text_le_total String.[] String.[] h = refl
text_le_total String.[] (String.◌∷◌ d t) h = ground arith
text_le_total (String.◌∷◌ c s) String.[] h = refl
text_le_total (String.◌∷◌ c s) (String.◌∷◌ d t) h = ground (arith, text_le_total s t)

pub text_le_trans : (s t u : String) → text_le s t ≡ true → text_le t u ≡ true → text_le s u ≡ true
unfolding text_le
text_le_trans String.[] t u h k = refl
text_le_trans (String.◌∷◌ c s) String.[] u h k = ground arith
text_le_trans (String.◌∷◌ c s) (String.◌∷◌ d t) String.[] h k = ground arith
text_le_trans (String.◌∷◌ c s) (String.◌∷◌ d t) (String.◌∷◌ e u) h k =
    ground (arith, text_le_trans s t u)

heads_and_tails :
    (c d : Prim.Native.Char.Char) (s t : String)
    → text_le (String.◌∷◌ c s) (String.◌∷◌ d t) ≡ true
    → text_le (String.◌∷◌ d t) (String.◌∷◌ c s) ≡ true
    → (code c ≡ code d) × (text_le s t ≡ true) × (text_le t s ≡ true)
unfolding text_le
heads_and_tails c d s t h k = ground arith

pub text_le_antisymm : (s t : String) → text_le s t ≡ true → text_le t s ≡ true → s ≡ t
text_le_antisymm String.[] String.[] h k = refl
text_le_antisymm String.[] (String.◌∷◌ d t) h k = unfold text_le in ground arith
text_le_antisymm (String.◌∷◌ c s) String.[] h k = unfold text_le in ground arith
text_le_antisymm (String.◌∷◌ c s) (String.◌∷◌ d t) h k =
    let (e, p, q) = heads_and_tails c d s t h k in
    ap₂ String.◌∷◌ (Char-path c d e) (text_le_antisymm s t p q)

module _ {ℓ} {A : Type ℓ} (key : A → String) where
  unfoldable pub insert_by : A → List A → List A
  insert_by x [] = x ∷ []
  insert_by x (y ∷ ys) = if text_le (key x) (key y) then x ∷ y ∷ ys else y ∷ insert_by x ys

  -- `sort.Slice(s, func(i, j int) bool { return key(s[i]) < key(s[j]) })`, in the stable order.
  unfoldable pub sort_by : List A → List A
  sort_by [] = []
  sort_by (x ∷ xs) = insert_by x (sort_by xs)

  -- `x` stands before every member.
  abbrev pub Least : A → List A → Type 0
  Least x = All (λ y. text_le (key x) (key y) ≡ true)

  abbrev pub IsSorted : List A → Type 0
  IsSorted [] = Unit
  IsSorted (x ∷ xs) = Least x xs × IsSorted xs

  insert_by-All {κ} :
      (P : A → Type κ) (x : A) (xs : List A) → P x → All P xs → All P (insert_by x xs)
  unfolding insert_by
  insert_by-All P x [] p h = (p, tt)
  insert_by-All P x (y ∷ ys) p (q, h) =
      All-if P (text_le (key x) (key y)) _ _ (p, (q, h)) (q, insert_by-All P x ys p h)

  pub sort_by-All {κ} : (P : A → Type κ) (xs : List A) → All P xs → All P (sort_by xs)
  unfolding sort_by
  sort_by-All P [] h = tt
  sort_by-All P (x ∷ xs) (p, h) = insert_by-All P x (sort_by xs) p (sort_by-All P xs h)

  insert_by-ne-nil : (x : A) (xs : List A) → insert_by x xs ≢ []
  unfolding insert_by
  insert_by-ne-nil x [] e = ground (arith, e)
  insert_by-ne-nil x (y ∷ ys) e = ground (arith, e)

  pub sort_by-ne-nil : (xs : List A) → xs ≢ [] → sort_by xs ≢ []
  unfolding sort_by
  sort_by-ne-nil [] n e = n e
  sort_by-ne-nil (x ∷ xs) n e = insert_by-ne-nil x (sort_by xs) e

  insert_by-contains :
      (x : A) (xs : List A) (k : String)
      → contains (map key (insert_by x xs)) k ≡ (k == key x || contains (map key xs) k)
  unfolding insert_by
  insert_by-contains x [] k = refl
  insert_by-contains x (y ∷ ys) k = ground (arith, insert_by-contains x ys k)

  -- Sorting keeps the keys.
  pub sort_by-contains :
      (xs : List A) (k : String) → contains (map key (sort_by xs)) k ≡ contains (map key xs) k
  unfolding sort_by
  sort_by-contains [] k = refl
  sort_by-contains (x ∷ xs) k =
      insert_by-contains x (sort_by xs) k ∙ ap (◌||◌ (k == key x)) (sort_by-contains xs k)

  insert_by-Distinct :
      (x : A) (xs : List A)
      → contains (map key xs) (key x) ≡ false
      → Distinct (map key xs)
      → Distinct (map key (insert_by x xs))
  unfolding insert_by
  insert_by-Distinct x [] f d = (refl, tt)
  insert_by-Distinct x (y ∷ ys) f (g, d) = ground (
    arith,
    insert_by-contains x ys (key y),
    insert_by-Distinct x ys,
    eq_iff (key x) (key y),
    eq_iff (key y) (key x),
  )

  pub sort_by-Distinct : (xs : List A) → Distinct (map key xs) → Distinct (map key (sort_by xs))
  unfolding sort_by
  sort_by-Distinct [] d = tt
  sort_by-Distinct (x ∷ xs) (f, d) =
      insert_by-Distinct x (sort_by xs) (sort_by-contains xs (key x) ∙ f) (sort_by-Distinct xs d)

  Least-trans : (x y : A) (ys : List A) → text_le (key x) (key y) ≡ true → Least y ys → Least x ys
  Least-trans x y [] e h = tt
  Least-trans x y (z ∷ zs) e (p, h) =
      (text_le_trans (key x) (key y) (key z) e p, Least-trans x y zs e h)

  insert_by-IsSorted : (x : A) (xs : List A) → IsSorted xs → IsSorted (insert_by x xs)
  unfolding insert_by
  insert_by-IsSorted x [] s = (tt, tt)
  insert_by-IsSorted x (y ∷ ys) (l, s) = elim (Bool-cases (text_le (key x) (key y))) [
    | inl e ↦ rw e ((e, Least-trans x y ys e l), (l, s))
    | inr e ↦ rw e (
      insert_by-All (λ z. text_le (key y) (key z) ≡ true) x ys (text_le_total (key x) (key y) e) l,
      insert_by-IsSorted x ys s,
    )
  ]

  pub sort_by-IsSorted : (xs : List A) → IsSorted (sort_by xs)
  unfolding sort_by
  sort_by-IsSorted [] = tt
  sort_by-IsSorted (x ∷ xs) = insert_by-IsSorted x (sort_by xs) (sort_by-IsSorted xs)

  insert_by-Least : (x : A) (xs : List A) → Least x xs → insert_by x xs ≡ x ∷ xs
  unfolding insert_by
  insert_by-Least x [] h = refl
  insert_by-Least x (y ∷ ys) (p, h) = rw p

  -- A sorted list stays as it is.
  pub sort_by_sorted : (xs : List A) → IsSorted xs → sort_by xs ≡ xs
  unfolding sort_by
  sort_by_sorted [] s = refl
  sort_by_sorted (x ∷ xs) (l, s) = rw (sort_by_sorted xs s) (insert_by-Least x xs l)

  insert_by_comm :
      (x y : A) (zs : List A)
      → key x ≢ key y
      → insert_by x (insert_by y zs) ≡ insert_by y (insert_by x zs)
  unfolding insert_by
  insert_by_comm x y [] ne =
      ground (arith, text_le_total (key x) (key y), text_le_antisymm (key x) (key y))
  insert_by_comm x y (z ∷ zs) ne = ground (
    arith,
    insert_by_comm x y zs ne,
    text_le_total (key x) (key y),
    text_le_antisymm (key x) (key y),
    text_le_trans (key x) (key y) (key z),
    text_le_trans (key y) (key x) (key z),
  )

  pub perm-contains :
      {xs ys : List A}
      → Permᴰ xs ys
      → (k : String) → contains (map key xs) k ≡ contains (map key ys) k
  perm-contains Permᴰ.nil k = refl
  perm-contains (Permᴰ.cons e p) k = ground (arith, ap key e, perm-contains p k)
  perm-contains (Permᴰ.swap e q) k = ground (arith, ap key e, ap key q)
  perm-contains (Permᴰ.trans p q) k = perm-contains p k ∙ perm-contains q k

  pub perm-Distinct : {xs ys : List A} → Permᴰ xs ys → Distinct (map key xs) → Distinct (map key ys)
  perm-Distinct Permᴰ.nil d = d
  perm-Distinct (Permᴰ.cons {b = b} e p) d =
      (ground (arith, ap key e, perm-contains p (key b), d.0), perm-Distinct p d.1)
  perm-Distinct (Permᴰ.swap {a = a} {b = b} e q) d =
      ground (arith, ap key e, ap key q, eq_iff (key a) (key b), eq_iff (key b) (key a))
  perm-Distinct (Permᴰ.trans p q) d = perm-Distinct q (perm-Distinct p d)

  -- With distinct keys the sorted list does not depend on the order of the input.
  pub sort_by_perm :
      {xs ys : List A} → Permᴰ xs ys → Distinct (map key xs) → sort_by xs ≡ sort_by ys
  unfolding sort_by
  sort_by_perm Permᴰ.nil d = refl
  sort_by_perm (Permᴰ.cons e p) d = ap₂ insert_by e (sort_by_perm p d.1)
  sort_by_perm (Permᴰ.swap {a = a} {b = b} {l = l} e q) d =
      insert_by_comm a b (sort_by l) (λ same. ground (arith, d.0, eq_iff (key a) (key b)))
      ∙ ap₂ insert_by q (ap₂ insert_by e refl)
  sort_by_perm (Permᴰ.trans p q) d = sort_by_perm p d ∙ sort_by_perm q (perm-Distinct p d)

-- sort.Strings
abbrev pub sort_texts : List String → List String
sort_texts = sort_by (λ t. t)

map_self : (l : List String) → map (λ t. t) l ≡ l
map_self [] = refl
map_self (t ∷ l) = ap (◌∷◌ t) (map_self l)

pub sort_texts-contains : (l : List String) (k : String) → contains (sort_texts l) k ≡ contains l k
sort_texts-contains l k =
    ap (λ m. contains m k) (sym (map_self (sort_texts l)))
    ∙ sort_by-contains (λ t. t) l k
    ∙ ap (λ m. contains m k) (map_self l)

pub sort_texts-Distinct : (l : List String) → Distinct l → Distinct (sort_texts l)
sort_texts-Distinct l d =
    subst Distinct (map_self (sort_texts l))
      (sort_by-Distinct (λ t. t) l (subst Distinct (sym (map_self l)) d))

Least-apart :
    (x y : String) (ys : List String)
    → Least (λ t. t) y ys
    → contains ys x ≡ true
    → text_le y x ≡ true
Least-apart x y [] l c = ground arith
Least-apart x y (z ∷ zs) (p, l) c = ground (arith, eq_iff x z, Least-apart x y zs l)

pub sort_texts-IsSorted : (l : List String) → IsSorted (λ t. t) (sort_texts l)
sort_texts-IsSorted l = sort_by-IsSorted (λ t. t) l

-- A sorted list of distinct texts is given by its members.
pub sorted_unique :
    (xs ys : List String)
    → IsSorted (λ t. t) xs
    → IsSorted (λ t. t) ys
    → Distinct xs
    → Distinct ys
    → ((k : String) → contains xs k ≡ contains ys k)
    → xs ≡ ys
sorted_unique [] [] s t d e h = refl
sorted_unique [] (y ∷ ys) s t d e h = ground (arith, h y, eq_iff y y)
sorted_unique (x ∷ xs) [] s t d e h = ground (arith, h x, eq_iff x x)
sorted_unique (x ∷ xs) (y ∷ ys) (l, s) (m, t) (f, d) (g, e) h =
    ap₂ ◌∷◌ same (sorted_unique xs ys s t d e rest)
  where
    same : x ≡ y
    same = ground (
      arith,
      h x,
      h y,
      eq_iff x x,
      eq_iff y y,
      eq_iff x y,
      eq_iff y x,
      Least-apart x y ys m,
      Least-apart y x xs l,
      text_le_antisymm x y,
    )

    rest : (k : String) → contains xs k ≡ contains ys k
    rest k = ground (arith, same, h k, f, g, eq_iff k x, eq_iff k y)
