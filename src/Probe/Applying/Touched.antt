-- ===== src/Probe/Applying/Touched.antt =====
-- What the loops of `Apply` keep (internal/probe/probe.go).
use barrikade_lens.Common.{
  true, ◌||◌, String, List, [], ◌∷◌, map, ◌==◌, ◌≡◌, refl, arith, eq_iff, All, All-append, Distinct,
  contains, Bool-cases, inl, inr,
}
use barrikade_lens.Discovery.Values.{Fields, field, end, put}
use barrikade_lens.Discovery.Validation.Attributes.{FieldsClean}
use barrikade_lens.Discovery.Validation.Accepted.{RefsKnown}
use barrikade_lens.Discovery.Merge.Parts.{put-clean}
use barrikade_lens.Probe.Applying.{append_unique, touch, put_all}

module _ {ℓ} {A : Type ℓ} (key : A → String) (id : String) (change : A → A) (new : A) where
  pub touch-contains :
      ((x : A) → key (change x) ≡ key x)
      → key new ≡ id
      → (xs : List A) (k : String)
      → contains (map key (touch key id change new xs)) k ≡ (contains (map key xs) k || k == id)
  unfolding touch
  touch-contains same own [] k = ground (arith, own)
  touch-contains same own (x ∷ xs) k = ground (
    arith,
    same x,
    touch-contains same own xs k,
    eq_iff (key x) id,
    eq_iff k (key x),
    eq_iff k id,
  )

  pub touch-Distinct :
      ((x : A) → key (change x) ≡ key x)
      → key new ≡ id
      → (xs : List A) → Distinct (map key xs)
      → Distinct (map key (touch key id change new xs))
  unfolding touch
  touch-Distinct same own [] d = (refl, tt)
  touch-Distinct same own (x ∷ xs) (f, d) =
      ground (arith, same x, touch-contains same own xs (key x), touch-Distinct same own xs d, f, d)

  pub touch-All {κ} :
      (P : A → Type κ)
      → ((x : A) → P x → P (change x))
      → P new
      → (xs : List A) → All P xs
      → All P (touch key id change new xs)
  unfolding touch
  touch-All P kept p [] h = (p, tt)
  touch-All P kept p (x ∷ xs) (q, h) = elim (Bool-cases (key x == id)) [
    | inl e ↦ rw e (kept x q, h)
    | inr e ↦ rw e (q, touch-All P kept p xs h)
  ]

pub append_unique-RefsKnown :
    (evidence refs : List String) (ref : String)
    → contains evidence ref ≡ true
    → RefsKnown evidence refs
    → RefsKnown evidence (append_unique refs ref)
unfolding append_unique
append_unique-RefsKnown evidence refs ref c h = elim (Bool-cases (contains refs ref)) [
  | inl e ↦ rw e h
  | inr e ↦ rw e (All-append _ refs (ref ∷ []) h (c, tt))
]

pub put_all-clean :
    (target incoming : Fields)
    → FieldsClean target
    → FieldsClean incoming
    → FieldsClean (put_all target incoming)
unfolding put_all
put_all-clean target end h k = h
put_all-clean target (field key v rest) h (f, c, k) =
    put_all-clean (put key v target) rest (put-clean key v target f c h) k
