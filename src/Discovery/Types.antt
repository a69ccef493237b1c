-- ===== src/Discovery/Types.antt =====
-- pkg/discovery/types.go. The string types (`SourceType`, `EntityKind`, `Confidence`, ...) are texts,
-- since a decoded snapshot may hold any; counters are unbounded.
use barrikade_lens.Common.{ℕ, Bool, String, List}
use barrikade_lens.Discovery.Values.{Fields}

-- `SchemaVersion`
abbrev pub current_schema_version : String
current_schema_version = "1.3"

abbrev pub previous_schema_version : String
previous_schema_version = "1.2"

abbrev pub legacy_schema_version : String
legacy_schema_version = "1.1"

abbrev pub source_endpoint : String
source_endpoint = "endpoint"

abbrev pub source_repository : String
source_repository = "repository"

abbrev pub source_kubernetes : String
source_kubernetes = "kubernetes"

abbrev pub source_cloud : String
source_cloud = "cloud"

abbrev pub kind_endpoint : String
kind_endpoint = "endpoint"

abbrev pub kind_user : String
kind_user = "user"

abbrev pub kind_repository : String
kind_repository = "repository"

abbrev pub kind_cluster : String
kind_cluster = "cluster"

abbrev pub kind_workload : String
kind_workload = "workload"

abbrev pub kind_agent : String
kind_agent = "agent"

abbrev pub kind_runtime : String
kind_runtime = "runtime"

abbrev pub kind_framework : String
kind_framework = "framework"

abbrev pub kind_mcp_server : String
kind_mcp_server = "mcp_server"

abbrev pub kind_skill : String
kind_skill = "skill"

abbrev pub kind_model : String
kind_model = "model"

abbrev pub kind_model_server : String
kind_model_server = "model_server"

abbrev pub kind_tool : String
kind_tool = "tool"

abbrev pub kind_api_service : String
kind_api_service = "api_service"

abbrev pub kind_api_operation : String
kind_api_operation = "api_operation"

abbrev pub kind_workflow : String
kind_workflow = "workflow"

abbrev pub kind_credential_reference : String
kind_credential_reference = "credential_reference"

abbrev pub kind_cloud_environment : String
kind_cloud_environment = "cloud_environment"

abbrev pub kind_identity : String
kind_identity = "identity"

abbrev pub kind_knowledge_store : String
kind_knowledge_store = "knowledge_store"

abbrev pub relationship_runs_on : String
relationship_runs_on = "runs_on"

abbrev pub relationship_defined_in : String
relationship_defined_in = "defined_in"

abbrev pub relationship_deployed_as : String
relationship_deployed_as = "deployed_as"

abbrev pub relationship_uses : String
relationship_uses = "uses"

abbrev pub relationship_exposes : String
relationship_exposes = "exposes"

abbrev pub relationship_connects_to : String
relationship_connects_to = "connects_to"

abbrev pub relationship_provides : String
relationship_provides = "provides"

abbrev pub relationship_invokes : String
relationship_invokes = "invokes"

abbrev pub relationship_configured_by : String
relationship_configured_by = "configured_by"

abbrev pub relationship_owned_by : String
relationship_owned_by = "owned_by"

abbrev pub relationship_contained_in : String
relationship_contained_in = "contained_in"

abbrev pub relationship_runs_as : String
relationship_runs_as = "runs_as"

abbrev pub confidence_confirmed : String
confidence_confirmed = "confirmed"

abbrev pub confidence_likely : String
confidence_likely = "likely"

abbrev pub confidence_possible : String
confidence_possible = "possible"

abbrev pub observation_declared : String
observation_declared = "declared"

abbrev pub observation_discovered : String
observation_discovered = "discovered"

abbrev pub observation_observed : String
observation_observed = "observed"

pub record Collector : Type 0 where
  pub id : String
  pub name : String
  pub version : String
  pub mode : String

pub record Scope : Type 0 where
  pub name : String
  pub attributes : List (String × String)

pub record Coverage : Type 0 where
  pub detectors_run : ℕ
  pub detectors_failed : ℕ
  pub locations_checked : ℕ
  pub locations_denied : ℕ
  pub partial : Bool
  pub notes : List String

pub record ScanError : Type 0 where
  pub detector_id : String
  pub code : String
  pub message : String
  pub retryable : Bool

pub record Entity : Type 0 where
  pub id : String
  pub kind : String
  pub canonical_key : String
  pub name : String
  pub attributes : Fields
  pub confidence : String
  pub evidence_refs : List String
  pub provenance : List String

pub record Relationship : Type 0 where
  pub id : String
  pub kind : String
  pub from : String
  pub to : String
  pub attributes : Fields
  pub confidence : String
  pub evidence_refs : List String
  pub surface : String
  pub observed_at : String
  pub observation_state : String

pub record Evidence : Type 0 where
  pub id : String
  pub detector_id : String
  pub detector_version : String
  pub method : String
  pub family : String
  pub specificity : String
  pub locator : String
  pub content_hash : String
  pub observed_at : String

pub record Snapshot : Type 0 where
  pub schema_version : String
  pub snapshot_id : String
  pub organization_id : String
  pub source_id : String
  pub target_id : String
  pub source_type : String
  pub collector : Collector
  pub observed_at : String
  pub full : Bool
  pub sequence : ℕ
  pub scope : Scope
  pub entities : List Entity
  pub relationships : List Relationship
  pub evidence : List Evidence
  pub coverage : Coverage
  pub errors : List ScanError

abbrev pub evidence_id : Evidence → String
evidence_id e = e.id

abbrev pub entity_id : Entity → String
entity_id e = e.id

abbrev pub relationship_id : Relationship → String
relationship_id r = r.id
