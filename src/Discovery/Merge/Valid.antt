-- ===== src/Discovery/Merge/Valid.antt =====
-- Merging keeps a snapshot valid (pkg/discovery/merge.go against validation.go).
use barrikade_lens.Common.{
  Bool, true, String, List, map, ◌≡◌, refl, ◌≢◌, ◌∙◌, arith, All, All-map_of, All-map, Distinct,
  contains, ok, sym, subst,
}
use barrikade_lens.Common.Sorting.{sort_by-All, sort_by-Distinct}
use barrikade_lens.Discovery.Types.{Relationship, Snapshot, entity_id, evidence_id, relationship_id}
use barrikade_lens.Discovery.Privacy.{trim_space}
use barrikade_lens.Discovery.Validation.{validate}
use barrikade_lens.Discovery.Validation.Accepted.{
  IsValid, EntityValid, EvidenceValid, RelationshipValid, validate-ok_iff,
}
use barrikade_lens.Discovery.Merge.{
  merge_entity, merge_relationship, keep_evidence, normalize_entity, normalize, combine,
  merge_snapshots,
}
use barrikade_lens.Discovery.Merge.Upsert.{upsert_all-Distinct, upsert_all-All}
use barrikade_lens.Discovery.Merge.Parts.{stronger-is_confidence, merge_maps-clean}
use barrikade_lens.Discovery.Merge.Kept.{
  normalized_ids, joint, entity_ids, evidence_ids, merged_joint,
}
use barrikade_lens.Discovery.Merge.Refs.{
  RefsKnown-of, merge_strings-RefsKnown, Named, merge_entity-Named, normalize_entity-valid,
  Named-mono,
}

module _ (is_timestamp : String → Bool) (target addition : Snapshot)
    (target_valid : IsValid is_timestamp target) (addition_valid : IsValid is_timestamp addition)
    (target_named : All (λ e. trim_space e.name ≢ "") target.entities)
    (addition_named : All (λ e. trim_space e.name ≢ "") addition.entities)
    (same_schema : addition.schema_version ≡ target.schema_version)
    (same_source : addition.source_type ≡ target.source_type) where
  both : Snapshot
  unfolding normalize combine
  both = joint target addition

  known_left :
      (k : String)
      → contains (map evidence_id target.evidence) k ≡ true
      → contains (map evidence_id both.evidence) k ≡ true
  unfolding both
  known_left k h = ground (arith, evidence_ids target addition k)

  known_right :
      (k : String)
      → contains (map evidence_id addition.evidence) k ≡ true
      → contains (map evidence_id both.evidence) k ≡ true
  unfolding both
  known_right k h = ground (arith, evidence_ids target addition k)

  joint_evidence : All EvidenceValid both.evidence
  unfolding both keep_evidence
  joint_evidence = sort_by-All evidence_id EvidenceValid _ (
      upsert_all-All evidence_id keep_evidence EvidenceValid (λ x y p q. p) target.evidence
        addition.evidence target_valid.evidence addition_valid.evidence)

  joint_entities : All (EntityValid (map evidence_id both.evidence)) both.entities
  unfolding both
  joint_entities = All-map (EntityValid ids) normalize_entity _ (
      All-map_of (Named ids) (λ e. EntityValid ids (normalize_entity e))
        (normalize_entity-valid ids) _
        (sort_by-All entity_id (Named ids) _ (
          upsert_all-All entity_id merge_entity (Named ids) (merge_entity-Named ids) target.entities
            addition.entities
            (Named-mono _ ids known_left target.entities target_valid.entities target_named)
            (Named-mono _ ids known_right addition.entities addition_valid.entities
              addition_named))))
    where
      ids : List String
      ids = map evidence_id both.evidence

  joint-Distinct : Distinct (map entity_id both.entities)
  unfolding both merge_entity
  joint-Distinct = subst Distinct (sym (normalized_ids _)) (
      sort_by-Distinct entity_id _ (
        upsert_all-Distinct entity_id merge_entity (λ x y. refl) target.entities addition.entities
          target_valid.distinct))

  from_target :
      (r : Relationship)
      → RelationshipValid is_timestamp target r
      → RelationshipValid is_timestamp both r
  unfolding both
  from_target r v = record {
    id_given = v.id_given;
    kind_given = v.kind_given;
    from_known = ground (arith, entity_ids target addition r.from, v.from_known);
    to_known = ground (arith, entity_ids target addition r.to, v.to_known);
    clean = v.clean;
    confident = v.confident;
    provenance = v.provenance;
    refs_known = RefsKnown-of _ _ known_left r.evidence_refs v.refs_known;
  }

  from_addition :
      (r : Relationship)
      → RelationshipValid is_timestamp addition r
      → RelationshipValid is_timestamp both r
  unfolding both
  from_addition r v = record {
    id_given = v.id_given;
    kind_given = v.kind_given;
    from_known = ground (arith, entity_ids target addition r.from, v.from_known);
    to_known = ground (arith, entity_ids target addition r.to, v.to_known);
    clean = v.clean;
    confident = v.confident;
    provenance = λ current.
        let p = v.provenance (same_schema ∙ current) in
        record { surface = p.surface ∙ same_source; timed = p.timed; stated = p.stated };
    refs_known = RefsKnown-of _ _ known_right r.evidence_refs v.refs_known;
  }

  merge_relationship_valid :
      (x y : Relationship)
      → RelationshipValid is_timestamp both x
      → RelationshipValid is_timestamp both y
      → RelationshipValid is_timestamp both (merge_relationship x y)
  unfolding merge_relationship
  merge_relationship_valid x y v w = record {
    id_given = v.id_given;
    kind_given = v.kind_given;
    from_known = v.from_known;
    to_known = v.to_known;
    clean = merge_maps-clean x.attributes y.attributes v.clean w.clean;
    confident = stronger-is_confidence x.confidence y.confidence v.confident w.confident;
    provenance = λ c.
        let p = v.provenance c in
        record { surface = p.surface; timed = p.timed; stated = p.stated };
    refs_known =
        merge_strings-RefsKnown _ x.evidence_refs y.evidence_refs v.refs_known w.refs_known;
  }

  joint_relationships : All (RelationshipValid is_timestamp both) both.relationships
  unfolding both
  joint_relationships = sort_by-All relationship_id (RelationshipValid is_timestamp both) _ (
      upsert_all-All relationship_id merge_relationship (RelationshipValid is_timestamp both)
        merge_relationship_valid target.relationships addition.relationships
        (All-map_of _ _ from_target target.relationships target_valid.relationships)
        (All-map_of _ _ from_addition addition.relationships addition_valid.relationships))

  joint-IsValid : IsValid is_timestamp both
  unfolding both
  joint-IsValid = record {
    schema = target_valid.schema;
    snapshot_given = target_valid.snapshot_given;
    organization_given = target_valid.organization_given;
    source_given = target_valid.source_given;
    target_given = target_valid.target_given;
    source_known = target_valid.source_known;
    cloud_later = target_valid.cloud_later;
    timed = target_valid.timed;
    evidence = joint_evidence;
    entities = joint_entities;
    distinct = joint-Distinct;
    relationships = joint_relationships;
  }

-- Two valid snapshots of one schema version and one source type, in which no entity has a blank
-- name, merge into a valid snapshot, if they merge at all.
pub validate-merge_snapshots :
    (is_timestamp : String → Bool) (target addition merged : Snapshot)
    → validate is_timestamp target ≡ ok tt
    → validate is_timestamp addition ≡ ok tt
    → All (λ e. trim_space e.name ≢ "") target.entities
    → All (λ e. trim_space e.name ≢ "") addition.entities
    → addition.schema_version ≡ target.schema_version
    → addition.source_type ≡ target.source_type
    → merge_snapshots target addition ≡ ok merged
    → validate is_timestamp merged ≡ ok tt
unfolding both
validate-merge_snapshots is_timestamp target addition merged t a tn an schema source h =
    rw (merged_joint target addition merged h) (
      (validate-ok_iff is_timestamp _).1 (
        joint-IsValid is_timestamp target addition ((validate-ok_iff is_timestamp target).0 t)
          ((validate-ok_iff is_timestamp addition).0 a) tn an schema source))
