-- ===== src/Probe/Applying.antt =====
-- internal/probe/probe.go: `Apply`, which puts the result of a handshake into a snapshot. The hash
-- `stable` of an id's parts is a parameter.
pub mod Touched
pub mod Steps
pub mod Found
pub mod Valid
use Prim.Native.String as Str
use barrikade_lens.Common.{Bool, String, List, [], ◌∷◌, ◌++◌, map, ◌==◌, contains, if◌then◌else◌}
use barrikade_lens.Discovery.Values.{Fields, text, field, end, put}
use barrikade_lens.Discovery.Types.{
  Entity, Relationship, Evidence, Snapshot, entity_id, evidence_id, relationship_id,
  kind_mcp_server, kind_tool, relationship_provides, confidence_confirmed, observation_observed,
}
use barrikade_lens.Discovery.Merge.{normalize}
use barrikade_lens.Probe.{ProbeResult}

-- appendUnique
pub append_unique : List String → String → List String
append_unique values value = if contains values value then values else values ++ value ∷ []

-- The first item with the id is changed; without one, a new item is appended.
pub touch {ℓ} : {A : Type ℓ} → (A → String) → String → (A → A) → A → List A → List A
touch key id change new [] = new ∷ []
touch key id change new (x ∷ xs) =
    let rest = touch key id change new xs in if key x == id then change x ∷ xs else x ∷ rest

-- for key, value := range attributes { target[key] = value }
pub put_all : Fields → Fields → Fields
put_all target end = target
put_all target (field key value rest) = put_all (put key value target) rest

pub method_of : String → String
method_of kind = if kind == kind_mcp_server then "mcp_metadata" else "api_document"

pub family_of : String → String
family_of kind = if kind == kind_mcp_server then "mcp_capability" else "active_handshake"

unfoldable pub canonical_of : ProbeResult → String
canonical_of result =
    if result.kind == kind_mcp_server
    then Str.◌++◌ "mcp-endpoint:" result.endpoint
    else Str.◌++◌ "active:" result.endpoint

pub probe_evidence : Snapshot → ProbeResult → String → Evidence
probe_evidence s result id = record {
  id = id;
  detector_id = "active.metadata";
  detector_version = "1";
  method = method_of result.kind;
  family = family_of result.kind;
  specificity = "high";
  locator = result.endpoint;
  content_hash = result.content_hash;
  observed_at = s.observed_at;
}

pub with_evidence : ProbeResult → String → Snapshot → Snapshot
with_evidence result id s =
    if contains (map evidence_id s.evidence) id
    then s
    else record s { evidence = s.evidence ++ probe_evidence s result id ∷ [] }

pub confirmed_entity : String → Entity → Entity
confirmed_entity evidence e = record e {
  evidence_refs = append_unique e.evidence_refs evidence;
  confidence = confidence_confirmed;
}

pub probed_entity : ProbeResult → String → Entity → Entity
probed_entity result evidence e = record (confirmed_entity evidence e) {
  attributes = put_all e.attributes result.attributes;
}

pub found_entity : ProbeResult → String → String → Entity
found_entity result id evidence = record {
  id = id;
  kind = result.kind;
  canonical_key = canonical_of result;
  name = result.name;
  attributes = result.attributes;
  confidence = confidence_confirmed;
  evidence_refs = evidence ∷ [];
  provenance = "active-metadata-handshake" ∷ [];
}

pub with_entity : (Entity → Entity) → Entity → Snapshot → Snapshot
with_entity change new s = record s { entities = touch entity_id new.id change new s.entities }

pub found_tool : Snapshot → String → String → String → String → Entity
found_tool s id canonical name evidence = record {
  id = id;
  kind = kind_tool;
  canonical_key = canonical;
  name = name;
  attributes =
      field "capability_state" (text "observed") (field "source_surface" (text s.source_type) end);
  confidence = confidence_confirmed;
  evidence_refs = evidence ∷ [];
  provenance = [];
}

pub observed_relationship : String → Relationship → Relationship
observed_relationship evidence r = record r {
  evidence_refs = append_unique r.evidence_refs evidence;
  confidence = confidence_confirmed;
  observation_state = observation_observed;
}

pub found_relationship : Snapshot → String → String → String → String → Relationship
found_relationship s id from to evidence = record {
  id = id;
  kind = relationship_provides;
  from = from;
  to = to;
  attributes = field "capability_state" (text "observed") end;
  confidence = confidence_confirmed;
  evidence_refs = evidence ∷ [];
  surface = s.source_type;
  observed_at = s.observed_at;
  observation_state = observation_observed;
}

pub with_relationship : String → Relationship → Snapshot → Snapshot
with_relationship evidence new s = record s {
  relationships = touch relationship_id new.id (observed_relationship evidence) new s.relationships;
}

module _ (to_lower : String → String) (stable : List String → String) where
  -- The loop over the tools.
  unfoldable pub with_tools : String → String → String → List String → Snapshot → Snapshot
  with_tools canonical server evidence [] s = s
  with_tools canonical server evidence (name ∷ names) s =
      let key = Str.◌++◌ canonical (Str.◌++◌ ":tool:" (to_lower name)) in
      let tool = stable ("entity" ∷ s.organization_id ∷ kind_tool ∷ key ∷ []) in
      let relation =
        stable ("relationship" ∷ s.organization_id ∷ relationship_provides ∷ server ∷ tool ∷ []) in
      with_tools canonical server evidence names (
        with_relationship evidence (found_relationship s relation server tool evidence)
          (with_entity (confirmed_entity evidence) (found_tool s tool key name evidence) s))

  unfoldable pub applied : ProbeResult → Snapshot → Snapshot
  applied result s =
      let evidence = stable (
        "evidence"
        ∷ s.source_id
        ∷ "active.metadata"
        ∷ method_of result.kind
        ∷ result.endpoint
        ∷ result.content_hash
        ∷ []) in
      let id = stable ("entity" ∷ s.organization_id ∷ result.kind ∷ canonical_of result ∷ []) in
      let probed =
        with_entity (probed_entity result evidence) (found_entity result id evidence)
          (with_evidence result evidence s) in
      if result.kind == kind_mcp_server
      then with_tools (canonical_of result) id evidence result.tools probed
      else probed

  -- Apply
  unfoldable pub apply : ProbeResult → Snapshot → Snapshot
  apply result s = normalize (applied result s)
