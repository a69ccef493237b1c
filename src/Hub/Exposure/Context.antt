-- ===== src/Hub/Exposure/Context.antt =====
-- internal/hub/exposure.go: `validateEntityContext`. A text's length in runes is the native `count`.
pub mod Valid
use Prim.Native.String as Str
use barrikade_lens.Common.{
  ℕ, Bool, true, false, ◌&&◌, ◌||◌, not, String, List, [], ◌∷◌, ◌==◌, ltb, contains, Result, ok,
  err, ◌>>◌, fail_if, if◌then◌else◌,
}
use barrikade_lens.Common.Sorting.{sort_texts}
use barrikade_lens.Hub.Exposure.{EntityContext}

pub data ContextError : Type 0 where
  long_owner_name : ContextError
  owner_name_without_type : ContextError
  unsupported_classification : ContextError
  bad_data_categories : ContextError

-- allowedValue
pub allowed_value : String → List String → Bool
allowed_value value [] = false
allowed_value value (candidate ∷ rest) = value == candidate || allowed_value value rest

abbrev pub owner_types : List String
owner_types = "" ∷ "person" ∷ "team" ∷ []

abbrev pub environments : List String
environments = "" ∷ "development" ∷ "test" ∷ "staging" ∷ "production" ∷ []

abbrev pub criticalities : List String
criticalities = "" ∷ "low" ∷ "medium" ∷ "high" ∷ "critical" ∷ []

abbrev pub sensitivities : List String
sensitivities = "" ∷ "public" ∷ "internal" ∷ "confidential" ∷ "restricted" ∷ []

abbrev pub trust_boundaries : List String
trust_boundaries = "" ∷ "internal" ∷ "partner" ∷ "third_party" ∷ []

abbrev pub data_categories : List String
data_categories =
    "personal" ∷ "health" ∷ "payment" ∷ "financial" ∷ "credentials" ∷ "source_code" ∷ "customer"
    ∷ []

-- The loop over the categories, with `seen`.
pub check_categories : List String → List String → Result ContextError (Unit {0})
check_categories seen [] = ok tt
check_categories seen (category ∷ rest) =
    fail_if (not (allowed_value category data_categories) || contains seen category)
      bad_data_categories
    >> check_categories (category ∷ seen) rest

pub classified : EntityContext → Bool
classified value =
    allowed_value value.owner_type owner_types
    && allowed_value value.environment environments
    && allowed_value value.criticality criticalities
    && allowed_value value.sensitivity sensitivities
    && allowed_value value.trust_boundary trust_boundaries

pub half_owner : EntityContext → Bool
half_owner value =
    if value.owner_name == "" then not (value.owner_type == "") else value.owner_type == ""

-- validateEntityContext; the categories are sorted in place
pub validate_entity_context : EntityContext → Result ContextError EntityContext
validate_entity_context value =
    fail_if (ltb 200 (Str.count value.owner_name)) long_owner_name
    >> (fail_if (half_owner value) owner_name_without_type
        >> (fail_if (not (classified value)) unsupported_classification
            >> (check_categories [] value.data_categories
                >> ok (record value { data_categories = sort_texts value.data_categories }))))
