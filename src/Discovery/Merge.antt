-- ===== src/Discovery/Merge.antt =====
-- pkg/discovery/merge.go, and `Normalize` of validation.go. A map's keys are taken in the order of
-- its list, and sort.Slice in its stable order. The proofs are in the modules below.
pub mod Upsert
pub mod Parts
pub mod Kept
pub mod Refs
pub mod Valid
pub mod Surfaces
use barrikade_lens.Common.{
  ℕ, ◌+◌, Bool, true, false, ◌||◌, String, List, [], ◌∷◌, ◌++◌, map, Option, none, some, ◌==◌, ltb,
  contains, Result, ok, err, if◌then◌else◌,
}
use barrikade_lens.Common.Sorting.{sort_by}
use barrikade_lens.Discovery.Values.{Value, Fields, bool, end, field, get, put}
use barrikade_lens.Discovery.Types.{
  Entity, Relationship, Evidence, Coverage, Snapshot, entity_id, evidence_id, relationship_id,
  confidence_confirmed, confidence_likely, confidence_possible,
}
use barrikade_lens.Discovery.Privacy.{trim_space}
use Upsert.{upsert, upsert_all}

unfoldable pub both_bool : Value → Value → Option Value
both_bool (bool a) (bool b) = some (bool (a || b))
both_bool _ _ = none

-- One round of the loop in `mergeMaps`.
unfoldable pub merge_entry : Fields → String → Value → Option Value → Fields
unfolding both_bool
merge_entry current key value none = put key value current
merge_entry current key value (some existing) = elim (both_bool existing value) [
  | none ↦ current
  | some merged ↦ put key merged current
]

unfoldable pub merge_maps : Fields → Fields → Fields
unfolding merge_entry
merge_maps current end = current
merge_maps current (field key value rest) =
    merge_maps (merge_entry current key value (get key current)) rest

-- The keys of the map `seen`: every text but "", once.
unfoldable pub unique : List String → List String
unique [] = []
unique (item ∷ rest) =
    let seen = unique rest in if item == "" || contains seen item then seen else item ∷ seen

unfoldable pub merge_strings : List String → List String → List String
unfolding unique
merge_strings current incoming = sort_by (λ item. item) (unique (current ++ incoming))

-- The map `rank`; a missing key gives 0.
pub rank : String → ℕ
rank c =
    if c == confidence_possible
    then 1
    else if c == confidence_likely
    then 2
    else if c == confidence_confirmed
    then 3
    else 0

pub stronger_confidence : String → String → String
unfolding rank
stronger_confidence left right = if ltb (rank left) (rank right) then right else left

unfoldable pub merge_entity : Entity → Entity → Entity
merge_entity current item = record current {
  attributes = merge_maps current.attributes item.attributes;
  confidence = stronger_confidence current.confidence item.confidence;
  evidence_refs = merge_strings current.evidence_refs item.evidence_refs;
  provenance = merge_strings current.provenance item.provenance;
}

pub merge_relationship : Relationship → Relationship → Relationship
merge_relationship current item = record current {
  attributes = merge_maps current.attributes item.attributes;
  confidence = stronger_confidence current.confidence item.confidence;
  evidence_refs = merge_strings current.evidence_refs item.evidence_refs;
}

-- Evidence that is there already is left alone.
pub keep_evidence : Evidence → Evidence → Evidence
keep_evidence current item = current

pub merge_coverage : Coverage → Coverage → Coverage
merge_coverage target addition = record {
  detectors_run = target.detectors_run + addition.detectors_run;
  detectors_failed = target.detectors_failed + addition.detectors_failed;
  locations_checked = target.locations_checked + addition.locations_checked;
  locations_denied = target.locations_denied + addition.locations_denied;
  partial = target.partial || addition.partial;
  notes = merge_strings target.notes addition.notes;
}

unfoldable pub normalize_entity : Entity → Entity
normalize_entity e = record e {
  name = trim_space e.name;
  evidence_refs = sort_by (λ ref. ref) e.evidence_refs;
  provenance = sort_by (λ item. item) e.provenance;
}

-- Snapshot.Normalize
unfoldable pub normalize : Snapshot → Snapshot
unfolding normalize_entity
normalize s = record s {
  entities = map normalize_entity (sort_by entity_id s.entities);
  relationships = sort_by relationship_id s.relationships;
  evidence = sort_by evidence_id s.evidence;
}

-- What `MergeSnapshots` has in hand before it normalizes.
unfoldable pub combine : Snapshot → Snapshot → Snapshot
combine target addition = record target {
  entities = upsert_all entity_id merge_entity target.entities addition.entities;
  relationships =
      upsert_all relationship_id merge_relationship target.relationships addition.relationships;
  evidence = upsert_all evidence_id keep_evidence target.evidence addition.evidence;
  coverage = merge_coverage target.coverage addition.coverage;
  errors = target.errors ++ addition.errors;
}

pub data MergeError : Type 0 where
  different_organizations : MergeError

-- MergeSnapshots, which returns the new `*target`.
unfoldable pub merge_snapshots : Snapshot → Snapshot → Result MergeError Snapshot
merge_snapshots target addition =
    if target.organization_id == addition.organization_id
    then ok (normalize (combine target addition))
    else err different_organizations
