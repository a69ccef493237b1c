-- ===== src/Hub/Exposure/Context/Valid.antt =====
-- What `validateEntityContext` accepts (internal/hub/exposure.go).
use Prim.Native.String as Str
use barrikade_lens.Common.{
  Bool, true, false, ◌&&◌, ◌||◌, not, String, List, [], ◌∷◌, ◌≡◌, ◌≤◌, ◌↔◌, refl, arith, eq_iff,
  ltb, contains, Distinct, All, ok, fail_if, fail_if-ok, >>-eq-ok,
}
use barrikade_lens.Common.Sorting.{sort_texts}
use barrikade_lens.Hub.Exposure.{EntityContext}
use barrikade_lens.Hub.Exposure.Context.{
  long_owner_name, owner_name_without_type, unsupported_classification, bad_data_categories,
  allowed_value, owner_types, environments, criticalities, sensitivities, trust_boundaries,
  data_categories, check_categories, classified, half_owner, validate_entity_context,
}

-- The contexts that a reader of the API expects.
pub record IsContext (value : EntityContext) : Type 0 where
  pub short_name : Str.count value.owner_name ≤ 200
  pub owner : (value.owner_name ≡ "") ↔ (value.owner_type ≡ "")
  pub owner_type : contains owner_types value.owner_type ≡ true
  pub environment : contains environments value.environment ≡ true
  pub criticality : contains criticalities value.criticality ≡ true
  pub sensitivity : contains sensitivities value.sensitivity ≡ true
  pub trust_boundary : contains trust_boundaries value.trust_boundary ≡ true
  pub categories : All (λ c. contains data_categories c ≡ true) value.data_categories
  pub distinct : Distinct value.data_categories

allowed_value-contains : (v : String) (l : List String) → allowed_value v l ≡ contains l v
unfolding allowed_value
allowed_value-contains v [] = refl
allowed_value-contains v (x ∷ l) = ground (arith, allowed_value-contains v l)

-- None of them is in `seen`.
abbrev Unseen : List String → List String → Type 0
Unseen seen = All (λ c. contains seen c ≡ false)

Unseen-cons :
    (c : String) (seen rest : List String)
    → Unseen (c ∷ seen) rest ↔ ((contains rest c ≡ false) × Unseen seen rest)
Unseen-cons c seen [] = (λ h. (refl, tt), λ h. tt)
Unseen-cons c seen (d ∷ rest) = (
  λ (h, k).
      let (f, u) = (Unseen-cons c seen rest).0 k in
      (ground (arith, h, f, eq_iff c d, eq_iff d c), (ground (arith, h), u)),
  λ (f, (h, u)). (
    ground (arith, f, h, eq_iff c d, eq_iff d c),
    (Unseen-cons c seen rest).1 (ground (arith, f), u),
  ),
)

Unseen-nothing : (l : List String) → Unseen [] l
Unseen-nothing [] = tt
Unseen-nothing (c ∷ l) = (refl, Unseen-nothing l)

abbrev Allowed : List String → Type 0
Allowed = All (λ c. contains data_categories c ≡ true)

check_categories-ok :
    (seen l : List String)
    → check_categories seen l ≡ ok tt
    → Allowed l × Distinct l × Unseen seen l
unfolding check_categories
check_categories-ok seen [] h = (tt, tt, tt)
check_categories-ok seen (c ∷ l) h =
    let bad = not (allowed_value c data_categories) || contains seen c in
    let (g, k) = >>-eq-ok (fail_if bad bad_data_categories) (check_categories (c ∷ seen) l) h in
    let (a, d, u) = check_categories-ok (c ∷ seen) l k in
    let (f, v) = (Unseen-cons c seen l).0 u in
    let pass = fail_if-ok bad bad_data_categories g in
    (
      (ground (arith, pass, allowed_value-contains c data_categories), a),
      (f, d),
      (ground (arith, pass), v),
    )

check_categories_ok :
    (seen l : List String)
    → Allowed l
    → Distinct l
    → Unseen seen l
    → check_categories seen l ≡ ok tt
unfolding check_categories
check_categories_ok seen [] a d u = refl
check_categories_ok seen (c ∷ l) (p, a) (f, d) (q, u) =
    rw (allowed_value-contains c data_categories, p, q)
      (check_categories_ok (c ∷ seen) l a d ((Unseen-cons c seen l).1 (f, u)))

all_five :
    (a b c d e : Bool)
    → ((a && b && c && d && e) ≡ true)
      ↔ ((a ≡ true) × (b ≡ true) × (c ≡ true) × (d ≡ true) × (e ≡ true))
all_five a b c d e = ground arith

classified_iff :
    (value : EntityContext)
    → (classified value ≡ true) ↔ (
        (contains owner_types value.owner_type ≡ true)
        × (contains environments value.environment ≡ true)
        × (contains criticalities value.criticality ≡ true)
        × (contains sensitivities value.sensitivity ≡ true)
        × (contains trust_boundaries value.trust_boundary ≡ true))
unfolding classified
classified_iff value =
    rw
      (
        allowed_value-contains value.owner_type owner_types,
        allowed_value-contains value.environment environments,
        allowed_value-contains value.criticality criticalities,
        allowed_value-contains value.sensitivity sensitivities,
        allowed_value-contains value.trust_boundary trust_boundaries,
      )
      (all_five _ _ _ _ _)

half_owner_iff :
    (value : EntityContext)
    → (half_owner value ≡ false) ↔ ((value.owner_name ≡ "") ↔ (value.owner_type ≡ ""))
unfolding half_owner
half_owner_iff value = ground (arith, eq_iff value.owner_name "", eq_iff value.owner_type "")

accepted :
    (value result : EntityContext) → validate_entity_context value ≡ ok result → IsContext value
unfolding validate_entity_context
accepted value result h =
    let (a, h) = >>-eq-ok (fail_if (ltb 200 (Str.count value.owner_name)) long_owner_name) _ h in
    let (b, h) = >>-eq-ok (fail_if (half_owner value) owner_name_without_type) _ h in
    let (c, h) = >>-eq-ok (fail_if (not (classified value)) unsupported_classification) _ h in
    let (d, h) = >>-eq-ok (check_categories [] value.data_categories) _ h in
    let short = fail_if-ok (ltb 200 (Str.count value.owner_name)) long_owner_name a in
    let full = fail_if-ok (half_owner value) owner_name_without_type b in
    let known = fail_if-ok (not (classified value)) unsupported_classification c in
    let (o, e, cr, s, tb) = (classified_iff value).0 (ground (arith, known)) in
    let (al, di, un) = check_categories-ok [] value.data_categories d in
    record {
      short_name = ground (arith, short);
      owner = (half_owner_iff value).0 full;
      owner_type = o;
      environment = e;
      criticality = cr;
      sensitivity = s;
      trust_boundary = tb;
      categories = al;
      distinct = di;
    }

-- A context is accepted, with its categories sorted, exactly when its owner has a name of at most 200
-- characters and a type or neither, each classification is empty or one of its words, and the
-- categories are known and distinct.
pub validate_entity_context-ok_iff :
    (value : EntityContext)
    → (validate_entity_context value
        ≡ ok (record value { data_categories = sort_texts value.data_categories }))
      ↔ IsContext value
unfolding validate_entity_context
validate_entity_context-ok_iff value = (
  accepted value _,
  λ h.
      rw
        (
          short h,
          (half_owner_iff value).1 h.owner,
          (classified_iff value).1
              (h.owner_type, h.environment, h.criticality, h.sensitivity, h.trust_boundary),
          check_categories_ok [] value.data_categories h.categories h.distinct
              (Unseen-nothing value.data_categories),
        )
        refl,
)
  where
    short : IsContext value → ltb 200 (Str.count value.owner_name) ≡ false
    short h = ground (arith, h.short_name)
