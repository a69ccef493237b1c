-- ===== src/Examples/DiscoveryTests.antt =====
-- Tests of pkg/discovery/privacy.go and validation.go, and instances of their theorems.
use barrikade_lens.Common.{pos, true, false, ◌≡◌, refl, ◌↔◌, inl, ok, String, [], ◌∷◌}
use barrikade_lens.Discovery.Privacy.{is_sensitive_key, trim_space}
use barrikade_lens.Discovery.Validation.{
  validate, is_supported_schema_version, is_source_type, valid_observation_state, is_confidence,
  validate_confidence, validate_text, validate_texts, validate_text_map, validate_value,
  validate_values, validate_fields, validate_refs, validate_evidence, validate_entity,
  validate_entities, validate_provenance, validate_relationship, validate_relationships,
}
use barrikade_lens.Discovery.Validation.Accepted.{IsValid, validate-ok_iff}
use barrikade_lens.Discovery.Validation.Attributes.{in_items, in_object, first, named, beneath}
use barrikade_lens.Discovery.Validation.Secrets.{validate_no_secrets}
use barrikade_lens.Discovery.RuntimeIdentity.{
  RuntimeIdentityFact, RuntimeIdentityObservation, valid_sha256, validate_identity,
}
use barrikade_lens.Discovery.RuntimeIdentity.Complete.{IsComplete, validate_identity-ok_iff}
use barrikade_lens.Examples.Data.{now, any_time, left, right, repository}

sensitive_api_key : is_sensitive_key "my-API_KEY" ≡ true
unfolding is_sensitive_key
sensitive_api_key = refl

sensitive_command_args : is_sensitive_key "command-args_x" ≡ true
unfolding is_sensitive_key
sensitive_command_args = refl

not_sensitive_count : is_sensitive_key " token_COUNT " ≡ false
unfolding is_sensitive_key
not_sensitive_count = refl

not_sensitive_inner : is_sensitive_key "tokenizer" ≡ false
unfolding is_sensitive_key
not_sensitive_inner = refl

trimmed : trim_space " a b  " ≡ "a b"
unfolding trim_space
trimmed = refl

pub left_valid : validate any_time left ≡ ok tt
unfolding validate is_supported_schema_version is_source_type valid_observation_state is_confidence
    validate_confidence validate_text validate_texts validate_text_map validate_value
    validate_values validate_fields validate_refs validate_evidence validate_entity
    validate_entities validate_provenance validate_relationship validate_relationships
    is_sensitive_key
left_valid = refl

pub right_valid : validate any_time right ≡ ok tt
unfolding validate is_supported_schema_version is_source_type valid_observation_state is_confidence
    validate_confidence validate_text validate_texts validate_text_map validate_value
    validate_values validate_fields validate_refs validate_evidence validate_entity
    validate_entities validate_provenance validate_relationship validate_relationships
    is_sensitive_key
right_valid = refl

pub repository_valid : validate any_time repository ≡ ok tt
unfolding validate is_supported_schema_version is_source_type valid_observation_state is_confidence
    validate_confidence validate_text validate_texts validate_text_map validate_value
    validate_values validate_fields validate_refs validate_evidence validate_entity
    validate_entities validate_provenance validate_relationship validate_relationships
    is_sensitive_key
repository_valid = refl

validate-ok_iff_example : (validate any_time left ≡ ok tt) ↔ IsValid any_time left
validate-ok_iff_example = validate-ok_iff any_time left

-- The key "name" of the first member of the agent's list of tools.
validate_no_secrets_example : is_sensitive_key "name" ≡ false
validate_no_secrets_example =
    validate_no_secrets any_time left "name" left_valid
      (inl (inl (beneath (in_items (first (in_object (named refl)))))))

abbrev digest_text : String
digest_text = "sha256:0123456789abcdef0123456789abcdef0123456789abcdef0123456789abcdef"

abbrev fact : String → RuntimeIdentityFact
fact name = record { fact = name; method = "libproc"; observed_at = now }

abbrev identity : RuntimeIdentityObservation
identity = record {
  schema_version = "0.1.0-experimental";
  observation_id = "obs-1";
  target_id = "target";
  product_id = "claude";
  platform = "darwin";
  observed_at = now;
  pid = pos 412;
  start_time = now;
  parent_pid = pos 1;
  ancestry = record { pid = pos 1; start_time = now; executable_path_digest = digest_text } ∷ [];
  effective_uid = pos 501;
  version = "1.2.3";
  executable_path_digest = digest_text;
  executable_sha256 = digest_text;
  macos_signing = record {
    signature_verified = true;
    hardened_runtime = true;
    publisher_team_id = "";
    signing_identifier = "";
    cdhash = "";
    designated_requirement_digest = "";
    signing_metadata_evidence_digest = digest_text;
  };
  evidence = fact "process" ∷ fact "ancestry" ∷ fact "executable" ∷ fact "macos_signing" ∷ [];
}

digest_text_valid : valid_sha256 digest_text ≡ true
unfolding valid_sha256
digest_text_valid = refl

validate_identity-ok_iff_example :
    (validate_identity any_time identity ≡ ok tt) ↔ IsComplete any_time identity
validate_identity-ok_iff_example = validate_identity-ok_iff any_time identity
