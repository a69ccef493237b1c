-- ===== src/Examples/ScannerTests.antt =====
-- Tests of internal/scanner/builder and internal/detector, and instances of their theorems.
use barrikade_lens.Common.{
  true, false, String, List, [], ◌∷◌, none, some, ◌≡◌, ◌≢◌, refl, ok, ne_of_test, Distinct, All,
  pos, ap, sym, ◌∙◌,
}
use barrikade_lens.Discovery.Values.{end, field, bool}
use barrikade_lens.Discovery.Types.{Snapshot, Evidence}
use barrikade_lens.Discovery.Privacy.{trim_space, is_sensitive_key}
use barrikade_lens.Discovery.Validation.{
  validate, is_supported_schema_version, is_source_type, validate_evidence, validate_entities,
  validate_relationships,
}
use barrikade_lens.Scanner.Builder.{
  Builder, Observation, new_builder, add_evidence, add_entity, finish, confidence, evidence_of,
  authority, place_evidence,
}
use barrikade_lens.Scanner.Builder.Built.{Built, begun, evidence_added, entity_added, finish-Built}
use barrikade_lens.Scanner.Builder.Confidence.{
  confidence_corroborated, confidence-OneFamily, OneFamily,
}
use barrikade_lens.Detector.Pack.{
  Pack, RuntimeSignature, validate_pack, validate_runtimes, is_server, visit, listener_given,
  validate_extension_roots, calculated_checksum,
}
use barrikade_lens.Detector.Pack.Ids.{detector_ids, validate_pack-Distinct}
use barrikade_lens.Detector.Pack.Owners.{Owned, validate_pack_owners}
use barrikade_lens.Examples.Data.{any_time, left}

-- The parts themselves, for the tests.
abbrev stable : List String → String
stable [] = "urn:lens:"
stable (part ∷ parts) = "urn:lens:evidence"

stable_given : (parts : List String) → stable parts ≢ ""
stable_given [] = ne_of_test _ _ refl
stable_given (part ∷ parts) = ne_of_test _ _ refl

abbrev empty : Snapshot
empty = record left { entities = []; relationships = []; evidence = [] }

empty_valid : validate any_time empty ≡ ok tt
unfolding validate is_supported_schema_version is_source_type validate_evidence validate_entities
    validate_relationships
empty_valid = refl

abbrev seen_process : Observation
seen_process = record {
  detector_id = "lens.endpoint";
  detector_version = "1";
  method = "process";
  family = "runtime";
  specificity = "high";
  locator = "";
  content_hash = "";
  authoritative = false;
}

abbrev after_process : Builder
after_process = (add_evidence stable seen_process (new_builder empty)).1

after_process-Built : Built stable empty after_process
after_process-Built =
    evidence_added seen_process (ne_of_test _ _ refl) (ne_of_test _ _ refl) (ne_of_test _ _ refl)
      begun

abbrev with_agent : Builder
with_agent =
    (add_entity stable "agent" "agent:1" "Agent" (field "running" (bool true) end)
      ("urn:lens:evidence" ∷ []) after_process).1

with_agent-Built : Built stable empty with_agent
unfolding trim_space is_sensitive_key add_evidence place_evidence new_builder
with_agent-Built =
    entity_added "agent" "agent:1" "Agent" (field "running" (bool true) end)
      ("urn:lens:evidence" ∷ []) (ne_of_test _ _ refl) (ne_of_test _ _ refl) (refl, tt, tt)
      (refl, tt) after_process-Built

finish-Built_example : (finish any_time with_agent).1 ≡ ok tt
finish-Built_example =
    finish-Built any_time stable stable_given empty with_agent empty_valid refl with_agent-Built

abbrev process : Evidence
process = record {
  id = "a";
  detector_id = "lens.endpoint";
  detector_version = "1";
  method = "process";
  family = "runtime";
  specificity = "high";
  locator = "";
  content_hash = "";
  observed_at = "";
}

abbrev manifest : Evidence
manifest = record process { id = "b"; family = "source" }

abbrev two : Builder
two = record (new_builder empty) {
  snapshot = record empty { evidence = process ∷ manifest ∷ [] };
  evidence_index = ("b", 1) ∷ ("a", 0) ∷ [];
}

process_known : evidence_of two "a" ≡ some process
unfolding evidence_of
process_known = refl

manifest_known : evidence_of two "b" ≡ some manifest
unfolding evidence_of
manifest_known = refl

confidence_corroborated_example : confidence two ("a" ∷ "b" ∷ []) ≡ "confirmed"
confidence_corroborated_example =
    confidence_corroborated two ("a" ∷ "b" ∷ []) "a" "b" process manifest refl refl process_known
      manifest_known refl refl (ne_of_test _ _ refl)

of_runtime : All (OneFamily two "runtime") ("a" ∷ [])
unfolding authority new_builder
of_runtime = (
  (
    refl,
    λ e h s. ap (λ o. elim o [ none ↦ "runtime" | some x ↦ x.family ]) (sym h ∙ process_known),
  ),
  tt,
)

confidence-OneFamily_example : confidence two ("a" ∷ []) ≢ "confirmed"
confidence-OneFamily_example = confidence-OneFamily two "runtime" ("a" ∷ []) of_runtime

abbrev no_hash : Pack → String
no_hash p = ""

abbrev as_it_is : String → String
as_it_is s = s

abbrev cursor : RuntimeSignature
cursor = record {
  id = "cursor";
  name = "Cursor";
  category = "agent_tool";
  processes = [];
  images = [];
  environment_keys = [];
  extension_ids = " cursor.chat " ∷ [];
  install_paths = [];
  paths = [];
  configs = record { path = "mcp.json"; format = "json"; scope = "user" } ∷ [];
  skill_roots = [];
  agent_roots = [];
  model_servers = record { name = "local"; port = pos 11434 } ∷ [];
}

abbrev pack : Pack
pack = record {
  schema_version = "2";
  id = "builtin";
  version = "1";
  checksum = "";
  runtimes = cursor ∷ record cursor { id = "vscode"; extension_ids = [] } ∷ [];
  frameworks = [];
  model_caches = [];
  skill_roots = [];
  extension_roots = "~/.vscode/extensions" ∷ [];
  listeners =
      record {
        id = "ollama";
        name = "Ollama";
        kind = "model_server";
        port = pos 11434;
        processes = "ollama" ∷ [];
      }
      ∷ [];
}

pack_valid : validate_pack as_it_is no_hash pack ≡ ok tt
unfolding validate_pack validate_runtimes visit listener_given validate_extension_roots
    calculated_checksum trim_space
pack_valid = refl

validate_pack-Distinct_example : Distinct (detector_ids pack)
validate_pack-Distinct_example = validate_pack-Distinct as_it_is no_hash pack pack_valid

validate_pack_owners_example :
    (owners : List (String × String)) × All
      (λ r. Owned as_it_is no_hash owners r × All (λ s. is_server s ≡ true) r.model_servers)
      pack.runtimes
validate_pack_owners_example = validate_pack_owners as_it_is no_hash pack pack_valid
