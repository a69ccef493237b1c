-- ===== src/Scanner/Builder/Parts.antt =====
-- What the helpers of internal/scanner/builder/builder.go keep: `union`, `mergeAttributes`, changes in
-- place, and the words that `confidence` and `observationState` give.
use barrikade_lens.Common.{
  ℕ, zero, suc, true, false, ◌&&◌, ◌||◌, not, String, List, [], ◌∷◌, ◌++◌, map, Option, none, some,
  ◌==◌, ◌≡◌, refl, ap, ◌∙◌, arith, eq_iff, All, All-append, contains, contains-append, Bool-cases,
  Option-cases, leb, eqb, subst, inl, inr,
}
use barrikade_lens.Common.Sorting.{sort_by-All, sort_texts-contains}
use barrikade_lens.Discovery.Values.{Value, Fields, bool, texts, end, field, get}
use barrikade_lens.Discovery.Types.{observation_discovered, observation_declared}
use barrikade_lens.Discovery.Privacy.{trim_space, is_sensitive_key}
use barrikade_lens.Discovery.Validation.{is_confidence, valid_observation_state}
use barrikade_lens.Discovery.Validation.Attributes.{IsClean, FieldsClean}
use barrikade_lens.Discovery.Validation.Accepted.{RefsKnown}
use barrikade_lens.Discovery.Merge.Parts.{put-clean}
use barrikade_lens.Discovery.Merge.Refs.{refs_of_members, member_of_refs}
use barrikade_lens.Scanner.Builder.{
  Builder, Tally, update_at, given_once, union, merge_attribute, merge_attributes, level, tally,
  nothing_seen, confidence, evidence_of, state_from, observation_state, is_declared_method,
  is_observed_method,
}

pub map-update_at {ℓ} :
    {A : Type ℓ} (key : A → String) (i : ℕ) (f : A → A) (l : List A)
    → ((a : A) → key (f a) ≡ key a)
    → map key (update_at i f l) ≡ map key l
unfolding update_at
map-update_at key i f [] h = refl
map-update_at key zero f (x ∷ xs) h = ap (λ k. k ∷ map key xs) (h x)
map-update_at key (suc i) f (x ∷ xs) h = ap (◌∷◌ (key x)) (map-update_at key i f xs h)

pub update_at-All {ℓ κ} :
    {A : Type ℓ} (P : A → Type κ) (i : ℕ) (f : A → A) (l : List A)
    → ((a : A) → P a → P (f a))
    → All P l
    → All P (update_at i f l)
unfolding update_at
update_at-All P i f [] h p = tt
update_at-All P zero f (x ∷ xs) h (p, ps) = (h x p, ps)
update_at-All P (suc i) f (x ∷ xs) h (p, ps) = (p, update_at-All P i f xs h ps)

given_once-contains :
    (l : List String) (k : String)
    → contains (given_once l) k ≡ (not (trim_space k == "") && contains l k)
unfolding given_once
given_once-contains [] k = ground arith
given_once-contains (x ∷ l) k = elim (Bool-cases (k == x)) [
  | inl e ↦ ground (
    arith,
    given_once-contains l k,
    given_once-contains l x,
    eq_iff k x,
    ap trim_space ((eq_iff k x).0 e),
  )
  | inr e ↦ ground (arith, given_once-contains l k, eq_iff k x)
]

-- `union` gives the texts of both lists that are not blank.
pub union-contains :
    (existing additions : List String) (k : String)
    → contains (union existing additions) k
      ≡ (not (trim_space k == "") && (contains existing k || contains additions k))
unfolding union
union-contains existing additions k =
    sort_texts-contains (given_once (existing ++ additions)) k
    ∙ given_once-contains (existing ++ additions) k
    ∙ ap (λ b. not (trim_space k == "") && b) (contains-append existing additions k)

pub union-RefsKnown :
    (ids existing additions : List String)
    → RefsKnown ids existing
    → RefsKnown ids additions
    → RefsKnown ids (union existing additions)
union-RefsKnown ids existing additions h k = refs_of_members ids (union existing additions) λ r c.
    ground (
      arith,
      union-contains existing additions r,
      member_of_refs ids existing r h,
      member_of_refs ids additions r k,
    )

given_once-All {κ} : (P : String → Type κ) (l : List String) → All P l → All P (given_once l)
unfolding given_once
given_once-All P [] h = tt
given_once-All P (x ∷ l) (p, h) =
    elim (Bool-cases (trim_space x == "" || contains (given_once l) x)) [
      | inl e ↦ rw e (given_once-All P l h)
      | inr e ↦ rw e (p, given_once-All P l h)
    ]

union-All {κ} : (P : String → Type κ) (a b : List String) → All P a → All P b → All P (union a b)
unfolding union
union-All P a b h k =
    sort_by-All (λ t. t) P (given_once (a ++ b)) (given_once-All P (a ++ b) (All-append P a b h k))

merge_attribute-clean :
    (k : String) (v : Value) (m : Fields) (old : Option Value)
    → is_sensitive_key k ≡ false
    → IsClean v
    → FieldsClean m
    → ((w : Value) → old ≡ some w → IsClean w)
    → FieldsClean (merge_attribute m k v old)
unfolding merge_attribute
merge_attribute-clean k v m none f c h o = put-clean k v m f c h
merge_attribute-clean k (bool b) m (some (bool a)) f c h o = put-clean k (bool (a || b)) m f tt h
merge_attribute-clean k (texts b) m (some (texts a)) f c h o =
    put-clean k (texts (union a b)) m f (union-All _ a b (o (texts a) refl) c) h
merge_attribute-clean k v m (some (bool a)) f c h o = h
merge_attribute-clean k v m (some (texts a)) f c h o = h
merge_attribute-clean k v m (some old) f c h o = h

same : (v w : Value) → some v ≡ some w → v ≡ w
same v w e = ap (λ o. elim o [ none ↦ v | some x ↦ x ]) e

get-IsClean : (k : String) (m : Fields) (w : Value) → FieldsClean m → get k m ≡ some w → IsClean w
unfolding get
get-IsClean k end w h e = ground arith
get-IsClean k (field j v m) w (f, c, h) e = elim (Bool-cases (k == j)) [
  | inl b ↦ subst IsClean (same v w (ground arith)) c
  | inr b ↦ get-IsClean k m w h (ground arith)
]

-- Clean attributes stay clean.
pub merge_attributes-clean :
    (target incoming : Fields)
    → FieldsClean target
    → FieldsClean incoming
    → FieldsClean (merge_attributes target incoming)
unfolding merge_attributes
merge_attributes-clean target end h k = h
merge_attributes-clean target (field key v rest) h (f, c, k) =
    merge_attributes-clean (merge_attribute target key v (get key target)) rest
      (merge_attribute-clean key v target (get key target) f c h
        (λ w e. get-IsClean key target w h e))
      k

level-is_confidence : (t : Tally) → is_confidence (level t) ≡ true
unfolding level is_confidence
level-is_confidence t = elim (Bool-cases (t.authoritative || leb 2 t.high)) [
  | inl e ↦ rw e refl
  | inr e ↦ rw e (elim (Bool-cases (eqb t.high 1)) [ inl f ↦ rw f refl | inr f ↦ rw f refl ])
]

-- The confidence is always one of the three.
pub confidence-is_confidence :
    (b : Builder) (refs : List String) → is_confidence (confidence b refs) ≡ true
unfolding confidence
confidence-is_confidence b refs = level-is_confidence (tally b refs nothing_seen)

state_from-valid :
    (b : Builder) (result : String) (refs : List String)
    → valid_observation_state result ≡ true
    → valid_observation_state (state_from b result refs) ≡ true
unfolding state_from valid_observation_state
state_from-valid b result [] h = h
state_from-valid b result (ref ∷ refs) h = elim (Option-cases (evidence_of b ref)) [
  | inl e ↦ rw (e, state_from) (state_from-valid b result refs h)
  | inr (item, e) ↦
      rw (e, state_from)
        (elim (Bool-cases (is_observed_method item.method)) [
          | inl o ↦ rw o refl
          | inr o ↦ rw o (elim (Bool-cases (is_declared_method item.method)) [
            | inl d ↦ rw d (state_from-valid b observation_declared refs refl)
            | inr d ↦ rw d (state_from-valid b result refs h)
          ])
        ])
]

-- So is the state of observation.
pub observation_state-valid :
    (b : Builder) (refs : List String) → valid_observation_state (observation_state b refs) ≡ true
unfolding observation_state valid_observation_state
observation_state-valid b refs = state_from-valid b observation_discovered refs refl
