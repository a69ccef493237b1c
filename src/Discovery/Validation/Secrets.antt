-- ===== src/Discovery/Validation/Secrets.antt =====
-- That `Validate` keeps sensitive keys out of entities and relationships (pkg/discovery/validation.go, privacy.go).
use barrikade_lens.Common.{Bool, false, String, List, [], ◌∷◌, ◌≡◌, ◌⊎◌, inl, inr, All, ok}
use barrikade_lens.Discovery.Types.{Entity, Relationship, Snapshot}
use barrikade_lens.Discovery.Privacy.{is_sensitive_key}
use barrikade_lens.Discovery.Validation.{validate}
use barrikade_lens.Discovery.Validation.Attributes.{KeyInFields, key_in_clean_fields}
use barrikade_lens.Discovery.Validation.Accepted.{EntityValid, RelationshipValid, validate-ok_iff}

-- Some member satisfies `P`.
abbrev pub Any {ℓ} : {A : Type ℓ} → (A → Type 0) → List A → Type 0
Any P [] = ⊥
Any P (x ∷ xs) = P x ⊎ Any P xs

any_of {ℓ μ ν} :
    {A : Type ℓ} (P : A → Type 0) (Q : A → Type μ) {R : Type ν}
    → ((a : A) → P a → Q a → R)
    → (xs : List A) → Any P xs
    → All Q xs
    → R
any_of P Q f [] h k = absurd h
any_of P Q f (x ∷ xs) (inl h) (k, ks) = f x h k
any_of P Q f (x ∷ xs) (inr h) (k, ks) = any_of P Q f xs h ks

-- `key` stands in the attributes of some entity or relationship, at any depth.
abbrev pub CarriesKey : String → Snapshot → Type 0
CarriesKey key s =
    Any (λ e. KeyInFields key e.attributes) s.entities
    ⊎ Any (λ r. KeyInFields key r.attributes) s.relationships

in_entity_clean :
    {key : String} {evidence : List String} (e : Entity)
    → KeyInFields key e.attributes
    → EntityValid evidence e
    → is_sensitive_key key ≡ false
in_entity_clean e i v = key_in_clean_fields i v.clean

in_relationship_clean :
    {key : String} {is_timestamp : String → Bool} {s : Snapshot} (r : Relationship)
    → KeyInFields key r.attributes
    → RelationshipValid is_timestamp s r
    → is_sensitive_key key ≡ false
in_relationship_clean r i v = key_in_clean_fields i v.clean

-- In a valid snapshot no key in the attributes of an entity or of a relationship is sensitive, at any
-- depth of lists and maps. (The attributes of its scope are not checked.)
pub validate_no_secrets :
    (is_timestamp : String → Bool) (s : Snapshot) (key : String)
    → validate is_timestamp s ≡ ok tt
    → CarriesKey key s
    → is_sensitive_key key ≡ false
validate_no_secrets is_timestamp s key h (inl c) =
    any_of _ _ in_entity_clean s.entities c ((validate-ok_iff is_timestamp s).0 h).entities
validate_no_secrets is_timestamp s key h (inr c) =
    any_of _ _ in_relationship_clean s.relationships c
      ((validate-ok_iff is_timestamp s).0 h).relationships
