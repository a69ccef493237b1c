-- ===== src/Discovery/Merge/Kept.antt =====
-- What `MergeSnapshots` keeps (pkg/discovery/merge.go).
use barrikade_lens.Common.{
  ◌||◌, String, List, [], ◌∷◌, map, ◌≡◌, refl, ap, ◌∙◌, arith, contains, ok,
}
use barrikade_lens.Common.Sorting.{sort_by-contains}
use barrikade_lens.Discovery.Types.{Entity, Snapshot, entity_id, evidence_id, relationship_id}
use barrikade_lens.Discovery.Merge.{
  merge_entity, merge_relationship, keep_evidence, normalize_entity, normalize, combine,
  merge_snapshots,
}
use barrikade_lens.Discovery.Merge.Upsert.{upsert_all-contains}

pub normalized_ids : (l : List Entity) → map entity_id (map normalize_entity l) ≡ map entity_id l
unfolding normalize_entity
normalized_ids [] = refl
normalized_ids (e ∷ l) = ap (◌∷◌ e.id) (normalized_ids l)

module _ (target addition : Snapshot) where
  abbrev pub joint : Snapshot
  joint = normalize (combine target addition)

  pub entity_ids :
      (k : String)
      → contains (map entity_id joint.entities) k ≡ (
          contains (map entity_id target.entities) k
          || contains (map entity_id addition.entities) k)
  unfolding normalize combine merge_entity
  entity_ids k =
      ap (λ l. contains l k) (normalized_ids _)
      ∙ sort_by-contains entity_id _ k
      ∙ upsert_all-contains entity_id merge_entity (λ x y. refl) target.entities addition.entities k

  pub relationship_ids :
      (k : String)
      → contains (map relationship_id joint.relationships) k ≡ (
          contains (map relationship_id target.relationships) k
          || contains (map relationship_id addition.relationships) k)
  unfolding normalize combine merge_relationship
  relationship_ids k =
      sort_by-contains relationship_id _ k
      ∙ upsert_all-contains relationship_id merge_relationship (λ x y. refl) target.relationships
          addition.relationships k

  pub evidence_ids :
      (k : String)
      → contains (map evidence_id joint.evidence) k ≡ (
          contains (map evidence_id target.evidence) k
          || contains (map evidence_id addition.evidence) k)
  unfolding normalize combine keep_evidence
  evidence_ids k =
      sort_by-contains evidence_id _ k
      ∙ upsert_all-contains evidence_id keep_evidence (λ x y. refl) target.evidence
          addition.evidence k

  pub merged_joint :
      (merged : Snapshot) → merge_snapshots target addition ≡ ok merged → merged ≡ joint
  unfolding merge_snapshots
  merged_joint merged h = ground (arith, h)

  -- If the merge succeeds, the ids of the merged snapshot are exactly those of the two snapshots,
  -- for entities, for relationships and for evidence.
  pub merge_ids :
      (merged : Snapshot) (k : String)
      → merge_snapshots target addition ≡ ok merged
      → (contains (map entity_id merged.entities) k ≡ (
          contains (map entity_id target.entities) k
          || contains (map entity_id addition.entities) k))
        × (contains (map relationship_id merged.relationships) k ≡ (
            contains (map relationship_id target.relationships) k
            || contains (map relationship_id addition.relationships) k))
        × (contains (map evidence_id merged.evidence) k ≡ (
            contains (map evidence_id target.evidence) k
            || contains (map evidence_id addition.evidence) k))
  merge_ids merged k h =
      rw (merged_joint merged h) (entity_ids k, relationship_ids k, evidence_ids k)
