-- ===== src/Discovery/Validation.antt =====
-- pkg/discovery/validation.go: `Validate`. The proofs are in the modules below.
pub mod Attributes
pub mod Accepted
pub mod Secrets
use Prim.Native.String.{len}
use barrikade_lens.Common.{
  ◌*◌, Bool, true, ◌&&◌, ◌||◌, not, String, List, [], ◌∷◌, map, ◌==◌, ltb, contains, Result, ok,
  err, ◌>>=◌, ◌>>◌, fail_if, wrap, if◌then◌else◌,
}
use barrikade_lens.Discovery.Values.{
  Value, Values, Fields, null, bool, number, text, texts, items, text_map, object, other,
  unsupported, nil, cons, end, field,
}
use barrikade_lens.Discovery.Types.{
  Entity, Relationship, Evidence, Snapshot, entity_id, evidence_id, current_schema_version,
  previous_schema_version, legacy_schema_version, source_endpoint, source_repository,
  source_kubernetes, source_cloud, confidence_confirmed, confidence_likely, confidence_possible,
  observation_declared, observation_discovered, observation_observed,
}
use barrikade_lens.Discovery.Privacy.{is_sensitive_key}

-- The errors; the path in the text of an attribute's error is left out.
pub data Problem : Type 0 where
  unsupported_schema_version missing_ids unsupported_source_type source_type_too_new : Problem
  bad_observed_at incomplete_evidence incomplete_entity : Problem
  duplicate_entity : String → Problem
  invalid_confidence string_too_long sensitive_field unsupported_type : Problem
  missing_evidence : String → Problem
  incomplete_relationship missing_from missing_to surface_mismatch bad_relationship_time : Problem
  invalid_observation_state : Problem
  in_entity in_relationship : String → Problem → Problem

abbrev pub Checked : Type 0
Checked = Result Problem (Unit {0})

unfoldable pub is_supported_schema_version : String → Bool
is_supported_schema_version version =
    version == legacy_schema_version
    || version == previous_schema_version
    || version == current_schema_version

unfoldable pub is_source_type : String → Bool
is_source_type value =
    value == source_endpoint
    || value == source_repository
    || value == source_kubernetes
    || value == source_cloud

unfoldable pub valid_observation_state : String → Bool
valid_observation_state value =
    value == observation_declared
    || value == observation_discovered
    || value == observation_observed

unfoldable pub is_confidence : String → Bool
is_confidence value =
    value == confidence_confirmed || value == confidence_likely || value == confidence_possible

unfoldable pub validate_confidence : String → Checked
validate_confidence value = fail_if (not (is_confidence value)) invalid_confidence

unfoldable pub validate_text : String → Checked
validate_text s = fail_if (ltb (16 * 1024) (len s)) string_too_long

unfoldable pub validate_texts : List String → Checked
validate_texts [] = ok tt
validate_texts (s ∷ rest) = do validate_text s; validate_texts rest

unfoldable pub validate_text_map : List (String × String) → Checked
validate_text_map [] = ok tt
validate_text_map ((key, s) ∷ rest) = do
  fail_if (is_sensitive_key key) sensitive_field
  validate_text s
  validate_text_map rest

-- `validateAttributes`, which goes through a map in the order of the list.
unfoldable mutual
  pub validate_value : Value → Checked
  validate_value null = ok tt
  validate_value (bool b) = ok tt
  validate_value (number n) = ok tt
  validate_value (text s) = validate_text s
  validate_value (texts l) = validate_texts l
  validate_value (items vs) = validate_values vs
  validate_value (text_map m) = validate_text_map m
  validate_value (object m) = validate_fields m
  validate_value (other v) = validate_value v
  validate_value unsupported = err unsupported_type

  pub validate_values : Values → Checked
  validate_values nil = ok tt
  validate_values (cons v vs) = do validate_value v; validate_values vs

  pub validate_fields : Fields → Checked
  validate_fields end = ok tt
  validate_fields (field key v m) = do
    fail_if (is_sensitive_key key) sensitive_field
    validate_value v
    validate_fields m

-- for _, ref := range refs { if _, ok := evidence[ref]; !ok { ... } }
unfoldable pub validate_refs : List String → List String → Checked
validate_refs evidence [] = ok tt
validate_refs evidence (ref ∷ refs) = do
  fail_if (not (contains evidence ref)) (missing_evidence ref)
  validate_refs evidence refs

unfoldable pub validate_evidence : List Evidence → Checked
validate_evidence [] = ok tt
validate_evidence (item ∷ rest) = do
  fail_if (item.id == "" || item.detector_id == "" || item.method == "" || item.family == "")
      incomplete_evidence
  validate_evidence rest

unfoldable pub validate_entity : List String → Entity → Checked
unfolding validate_confidence
validate_entity evidence e = do
  wrap (in_entity e.id) (validate_confidence e.confidence)
  wrap (in_entity e.id) (validate_fields e.attributes)
  wrap (in_entity e.id) (validate_refs evidence e.evidence_refs)

-- The loop over the entities, `seen` being the map `entities` so far.
unfoldable pub validate_entities : List String → List String → List Entity → Checked
validate_entities evidence seen [] = ok tt
validate_entities evidence seen (e ∷ rest) = do
  fail_if (e.id == "" || e.kind == "" || e.name == "") incomplete_entity
  fail_if (contains seen e.id) (duplicate_entity e.id)
  validate_entity evidence e
  validate_entities evidence (e.id ∷ seen) rest

-- `is_timestamp` is time.Parse(time.RFC3339Nano, ·) without an error.
module _ (is_timestamp : String → Bool) where
  unfoldable pub validate_provenance : Snapshot → Relationship → Checked
  validate_provenance s r = do
    fail_if (not (r.surface == s.source_type)) surface_mismatch
    fail_if (not (is_timestamp r.observed_at)) bad_relationship_time
    fail_if (not (valid_observation_state r.observation_state)) invalid_observation_state

  unfoldable pub validate_relationship : Snapshot → Relationship → Checked
  unfolding validate_confidence
  validate_relationship s r = do
    fail_if (r.id == "" || r.kind == "") incomplete_relationship
    fail_if (not (contains (map entity_id s.entities) r.from)) (in_relationship r.id missing_from)
    fail_if (not (contains (map entity_id s.entities) r.to)) (in_relationship r.id missing_to)
    wrap (in_relationship r.id) (validate_fields r.attributes)
    wrap (in_relationship r.id) (validate_confidence r.confidence)
    wrap (in_relationship r.id)
        (if s.schema_version == current_schema_version then validate_provenance s r else ok tt)
    wrap (in_relationship r.id) (validate_refs (map evidence_id s.evidence) r.evidence_refs)

  unfoldable pub validate_relationships : Snapshot → List Relationship → Checked
  validate_relationships s [] = ok tt
  validate_relationships s (r ∷ rest) = do validate_relationship s r; validate_relationships s rest

  -- Snapshot.Validate
  unfoldable pub validate : Snapshot → Checked
  validate s = do
    fail_if (not (is_supported_schema_version s.schema_version)) unsupported_schema_version
    fail_if
        (s.snapshot_id == "" || s.organization_id == "" || s.source_id == "" || s.target_id == "")
        missing_ids
    fail_if (not (is_source_type s.source_type)) unsupported_source_type
    fail_if (s.schema_version == legacy_schema_version && s.source_type == source_cloud)
        source_type_too_new
    fail_if (not (is_timestamp s.observed_at)) bad_observed_at
    validate_evidence s.evidence
    validate_entities (map evidence_id s.evidence) [] s.entities
    validate_relationships s s.relationships
