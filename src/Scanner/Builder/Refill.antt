-- ===== src/Scanner/Builder/Refill.antt =====
-- Snapshots of one header with other contents, and what the steps of
-- internal/scanner/builder/builder.go keep.
use barrikade_lens.Common.{
  Bool, true, false, ◌||◌, String, List, [], ◌∷◌, ◌++◌, map, none, ◌==◌, ◌≡◌, ◌≢◌, refl, ap, ◌∙◌,
  sym, subst, arith, eq_iff, All, All-map_of, All-map, Distinct, contains,
}
use barrikade_lens.Common.Sorting.{sort_by, sort_by-All, sort_by-contains, sort_by-Distinct}
use barrikade_lens.Discovery.Types.{
  Entity, Relationship, Evidence, Snapshot, Coverage, ScanError, entity_id, evidence_id,
  relationship_id,
}
use barrikade_lens.Discovery.Privacy.{trim_space}
use barrikade_lens.Discovery.Validation.Accepted.{
  IsValid, EntityValid, EvidenceValid, RelationshipValid,
}
use barrikade_lens.Discovery.Merge.{normalize, normalize_entity}
use barrikade_lens.Discovery.Merge.Kept.{normalized_ids}
use barrikade_lens.Discovery.Merge.Refs.{RefsKnown-of, Named, Named-mono, normalize_entity-valid}
use barrikade_lens.Scanner.Builder.{Builder, lookup}

-- The snapshot with other contents.
abbrev pub refill :
    Snapshot
    → List Entity
    → List Relationship
    → List Evidence
    → Coverage
    → List ScanError
    → Snapshot
refill s es rs vs coverage errors = record s {
  entities = es;
  relationships = rs;
  evidence = vs;
  coverage = coverage;
  errors = errors;
}

pub end-contains {ℓ} :
    {A : Type ℓ} (key : A → String) (xs : List A) (x : A) (k : String)
    → contains (map key (xs ++ x ∷ [])) k ≡ (contains (map key xs) k || k == key x)
end-contains key [] x k = ground arith
end-contains key (y ∷ xs) x k = ground (arith, end-contains key xs x k)

pub end-Distinct {ℓ} :
    {A : Type ℓ} (key : A → String) (xs : List A) (x : A)
    → contains (map key xs) (key x) ≡ false
    → Distinct (map key xs)
    → Distinct (map key (xs ++ x ∷ []))
end-Distinct key [] x h d = (refl, tt)
end-Distinct key (y ∷ xs) x h (f, d) = (
  ground (arith, end-contains key xs x (key y), eq_iff (key y) (key x), eq_iff (key x) (key y)),
  end-Distinct key xs x (ground arith) d,
)

module _ (is_timestamp : String → Bool) where
  pub RelationshipValid-grow :
      (s : Snapshot) (es : List Entity) (rs : List Relationship) (vs : List Evidence)
      (coverage : Coverage) (errors : List ScanError)
      → ((k : String)
          → contains (map entity_id s.entities) k ≡ true
          → contains (map entity_id es) k ≡ true)
      → ((k : String)
          → contains (map evidence_id s.evidence) k ≡ true
          → contains (map evidence_id vs) k ≡ true)
      → (r : Relationship) → RelationshipValid is_timestamp s r
      → RelationshipValid is_timestamp (refill s es rs vs coverage errors) r
  RelationshipValid-grow s es rs vs coverage errors f g r v = record {
    id_given = v.id_given;
    kind_given = v.kind_given;
    from_known = f r.from v.from_known;
    to_known = f r.to v.to_known;
    clean = v.clean;
    confident = v.confident;
    provenance = v.provenance;
    refs_known = RefsKnown-of _ _ g r.evidence_refs v.refs_known;
  }

  pub IsValid-refill :
      (s : Snapshot) (es : List Entity) (rs : List Relationship) (vs : List Evidence)
      (coverage : Coverage) (errors : List ScanError)
      → IsValid is_timestamp s
      → All EvidenceValid vs
      → All (EntityValid (map evidence_id vs)) es
      → Distinct (map entity_id es)
      → All (RelationshipValid is_timestamp (refill s es rs vs coverage errors)) rs
      → IsValid is_timestamp (refill s es rs vs coverage errors)
  IsValid-refill s es rs vs coverage errors v a b d c = record {
    schema = v.schema;
    snapshot_given = v.snapshot_given;
    organization_given = v.organization_given;
    source_given = v.source_given;
    target_given = v.target_given;
    source_known = v.source_known;
    cloud_later = v.cloud_later;
    timed = v.timed;
    evidence = a;
    entities = b;
    distinct = d;
    relationships = c;
  }

  -- A valid snapshot so far, in which no entity has a blank name and the index has every entity.
  pub record Sound (b : Builder) : Type 0 where
    pub valid : IsValid is_timestamp b.snapshot
    pub named : All (λ e. trim_space e.name ≢ "") b.snapshot.entities
    pub indexed :
        (k : String)
        → lookup k b.entity_index ≡ none
        → contains (map entity_id b.snapshot.entities) k ≡ false

  pub normalize-IsValid :
      (s : Snapshot)
      → IsValid is_timestamp s
      → All (λ e. trim_space e.name ≢ "") s.entities
      → IsValid is_timestamp (normalize s)
  unfolding normalize
  normalize-IsValid s v n =
      IsValid-refill s _ _ vs s.coverage s.errors v
        (sort_by-All evidence_id EvidenceValid s.evidence v.evidence)
        (All-map (EntityValid ids) normalize_entity _ (
          All-map_of (Named ids) _ (normalize_entity-valid ids) _
            (sort_by-All entity_id (Named ids) _ (Named-mono _ ids more s.entities v.entities n))))
        (subst Distinct (sym (normalized_ids _)) (sort_by-Distinct entity_id s.entities v.distinct))
        (sort_by-All relationship_id (RelationshipValid is_timestamp (normalize s)) s.relationships
          (All-map_of _ _ (RelationshipValid-grow s _ _ vs s.coverage s.errors more_entities more)
            s.relationships v.relationships))
    where
      vs : List Evidence
      vs = sort_by evidence_id s.evidence

      ids : List String
      ids = map evidence_id (sort_by evidence_id s.evidence)

      more :
          (k : String)
          → contains (map evidence_id s.evidence) k ≡ true
          → contains (map evidence_id (sort_by evidence_id s.evidence)) k ≡ true
      more k h = sort_by-contains evidence_id s.evidence k ∙ h

      more_entities :
          (k : String)
          → contains (map entity_id s.entities) k ≡ true
          → contains (map entity_id (map normalize_entity (sort_by entity_id s.entities))) k ≡ true
      more_entities k h =
          ap (λ l. contains l k) (normalized_ids (sort_by entity_id s.entities))
          ∙ sort_by-contains entity_id s.entities k
          ∙ h
