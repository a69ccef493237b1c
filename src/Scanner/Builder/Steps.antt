-- ===== src/Scanner/Builder/Steps.antt =====
-- Every step of internal/scanner/builder/builder.go keeps the snapshot valid.
use barrikade_lens.Common.{
  ℕ, Bool, true, String, List, [], ◌∷◌, ◌++◌, map, Option, none, some, ◌≡◌, ◌≢◌, refl, ap, ◌∙◌, sym,
  subst, arith, eq_iff, All, All-append, All-map_of, Distinct, contains,
}
use barrikade_lens.Discovery.Values.{Fields}
use barrikade_lens.Discovery.Types.{
  Entity, Relationship, Evidence, Snapshot, entity_id, evidence_id,
}
use barrikade_lens.Discovery.Privacy.{trim_space}
use barrikade_lens.Discovery.Validation.Attributes.{FieldsClean}
use barrikade_lens.Discovery.Validation.Accepted.{
  EntityValid, EvidenceValid, RelationshipValid, RefsKnown,
}
use barrikade_lens.Discovery.Merge.Refs.{EntityValid-mono}
use barrikade_lens.Scanner.Builder.{
  Builder, Observation, lookup, update_at, place_evidence, new_evidence, union, grown_entity,
  new_entity, place_entity, grown_relationship, new_relationship, place_relationship, add_error,
}
use barrikade_lens.Scanner.Builder.Parts.{
  map-update_at, update_at-All, union-RefsKnown, merge_attributes-clean, confidence-is_confidence,
  observation_state-valid,
}
use barrikade_lens.Scanner.Builder.Refill.{
  end-contains, end-Distinct, RelationshipValid-grow, IsValid-refill, Sound,
}

module _ (is_timestamp : String → Bool) (stable : List String → String)
    (given : (parts : List String) → stable parts ≢ "") where
  pub place_evidence-Sound :
      (b : Builder) (o : Observation) (id : String) (at : Option ℕ)
      → id ≢ ""
      → o.detector_id ≢ ""
      → o.method ≢ ""
      → o.family ≢ ""
      → Sound is_timestamp b
      → Sound is_timestamp (place_evidence stable b id o at)
  unfolding place_evidence
  place_evidence-Sound b o id (some i) g d m f v = record {
    valid = v.valid;
    named = v.named;
    indexed = v.indexed;
  }
  place_evidence-Sound b o id none g d m f v = record {
    valid =
        IsValid-refill is_timestamp s s.entities s.relationships (s.evidence ++ e ∷ []) s.coverage
          s.errors v.valid
          (All-append EvidenceValid s.evidence (e ∷ []) v.valid.evidence
            (record { id_given = g; detector_given = d; method_given = m; family_given = f }, tt))
          (All-map_of _ _ (EntityValid-mono _ _ more) s.entities v.valid.entities) v.valid.distinct
          (All-map_of _ _
            (RelationshipValid-grow is_timestamp s s.entities s.relationships (s.evidence ++ e ∷ [])
              s.coverage s.errors (λ k h. h) more)
            s.relationships v.valid.relationships);
    named = v.named;
    indexed = v.indexed;
  }
    where
      s : Snapshot
      s = b.snapshot

      e : Evidence
      e = new_evidence stable b id o

      more :
          (k : String)
          → contains (map evidence_id b.snapshot.evidence) k ≡ true
          → contains (map evidence_id (b.snapshot.evidence ++ new_evidence stable b id o ∷ [])) k
            ≡ true
      more k h =
          ground
            (arith, end-contains evidence_id b.snapshot.evidence (new_evidence stable b id o) k)

  new_entity-Named :
      (b : Builder) (id kind canonical_key name : String) (attributes : Fields) (refs : List String)
      → id ≢ ""
      → kind ≢ ""
      → trim_space name ≢ ""
      → FieldsClean attributes
      → RefsKnown (map evidence_id b.snapshot.evidence) refs
      → EntityValid
          (map evidence_id b.snapshot.evidence)
          (new_entity stable b id kind canonical_key name attributes refs)
  unfolding new_entity trim_space
  new_entity-Named b id kind canonical_key name attributes refs g k n c r = record {
    id_given = g;
    kind_given = k;
    name_given = λ e. n (ap trim_space e);
    confident = confidence-is_confidence b refs;
    clean = c;
    refs_known = union-RefsKnown _ [] refs tt r;
  }

  grown_entity-valid :
      (b : Builder) (attributes : Fields) (refs : List String) (e : Entity)
      → FieldsClean attributes
      → RefsKnown (map evidence_id b.snapshot.evidence) refs
      → EntityValid (map evidence_id b.snapshot.evidence) e
      → EntityValid (map evidence_id b.snapshot.evidence) (grown_entity stable b attributes refs e)
  unfolding grown_entity
  grown_entity-valid b attributes refs e c r v = record {
    id_given = v.id_given;
    kind_given = v.kind_given;
    name_given = v.name_given;
    confident = confidence-is_confidence b (union e.evidence_refs refs);
    clean = merge_attributes-clean e.attributes attributes v.clean c;
    refs_known = union-RefsKnown _ e.evidence_refs refs v.refs_known r;
  }

  pub place_entity-Sound :
      (b : Builder) (id kind canonical_key name : String) (attributes : Fields) (refs : List String)
      (at : Option ℕ)
      → lookup id b.entity_index ≡ at
      → id ≢ ""
      → kind ≢ ""
      → trim_space name ≢ ""
      → FieldsClean attributes
      → RefsKnown (map evidence_id b.snapshot.evidence) refs
      → Sound is_timestamp b
      → Sound is_timestamp (place_entity stable b id kind canonical_key name attributes refs at)
  unfolding place_entity lookup
  place_entity-Sound b id kind canonical_key name attributes refs (some i) l g k n c r v = record {
    valid =
        IsValid-refill is_timestamp s es s.relationships s.evidence s.coverage s.errors v.valid
          v.valid.evidence
          (update_at-All _ i change s.entities (λ e. grown_entity-valid b attributes refs e c r)
            v.valid.entities)
          (subst Distinct (sym ids) v.valid.distinct)
          (All-map_of _ _
            (RelationshipValid-grow is_timestamp s es s.relationships s.evidence s.coverage s.errors
              (λ k h. ap (λ l. contains l k) ids ∙ h) (λ k h. h))
            s.relationships v.valid.relationships);
    named = update_at-All (λ e. trim_space e.name ≢ "") i change s.entities (λ e h. h) v.named;
    indexed = λ k h. ap (λ l. contains l k) ids ∙ v.indexed k h;
  }
    where
      s : Snapshot
      s = b.snapshot

      change : Entity → Entity
      change = grown_entity stable b attributes refs

      es : List Entity
      es = update_at i change s.entities

      ids :
          map entity_id (update_at i (grown_entity stable b attributes refs) b.snapshot.entities)
          ≡ map entity_id b.snapshot.entities
      ids = map-update_at entity_id i change s.entities (λ e. refl)
  place_entity-Sound b id kind canonical_key name attributes refs none l g k n c r v = record {
    valid =
        IsValid-refill is_timestamp s (s.entities ++ e ∷ []) s.relationships s.evidence s.coverage
          s.errors v.valid v.valid.evidence
          (All-append _ s.entities (e ∷ []) v.valid.entities
            (new_entity-Named b id kind canonical_key name attributes refs g k n c r, tt))
          (end-Distinct entity_id s.entities e (v.indexed id l) v.valid.distinct)
          (All-map_of _ _
            (RelationshipValid-grow is_timestamp s (s.entities ++ e ∷ []) s.relationships s.evidence
              s.coverage s.errors more (λ k h. h))
            s.relationships v.valid.relationships);
    named = All-append (λ e. trim_space e.name ≢ "") s.entities (e ∷ []) v.named (n, tt);
    indexed = λ k h. ground (
      arith,
      h,
      end-contains entity_id b.snapshot.entities
          (new_entity stable b id kind canonical_key name attributes refs) k,
      v.indexed k,
      eq_iff k id,
    );
  }
    where
      s : Snapshot
      s = b.snapshot

      e : Entity
      e = new_entity stable b id kind canonical_key name attributes refs

      more :
          (k : String)
          → contains (map entity_id b.snapshot.entities) k ≡ true
          → contains
              (map entity_id (
                b.snapshot.entities
                ++ new_entity stable b id kind canonical_key name attributes refs ∷ []))
              k
            ≡ true
      more k h = ground (
        arith,
        end-contains entity_id b.snapshot.entities
            (new_entity stable b id kind canonical_key name attributes refs) k,
      )

  new_relationship-valid :
      (b : Builder) (id kind from to : String) (attributes : Fields) (refs : List String)
      → id ≢ ""
      → kind ≢ ""
      → contains (map entity_id b.snapshot.entities) from ≡ true
      → contains (map entity_id b.snapshot.entities) to ≡ true
      → FieldsClean attributes
      → RefsKnown (map evidence_id b.snapshot.evidence) refs
      → Sound is_timestamp b
      → RelationshipValid is_timestamp b.snapshot
          (new_relationship stable b id kind from to attributes refs)
  unfolding new_relationship
  new_relationship-valid b id kind from to attributes refs g k f t c r v = record {
    id_given = g;
    kind_given = k;
    from_known = f;
    to_known = t;
    clean = c;
    confident = confidence-is_confidence b refs;
    provenance = λ current. record {
      surface = refl;
      timed = v.valid.timed;
      stated = observation_state-valid b refs;
    };
    refs_known = union-RefsKnown _ [] refs tt r;
  }

  grown_relationship-valid :
      (b : Builder) (attributes : Fields) (refs : List String) (r : Relationship)
      → FieldsClean attributes
      → RefsKnown (map evidence_id b.snapshot.evidence) refs
      → RelationshipValid is_timestamp b.snapshot r
      → RelationshipValid is_timestamp b.snapshot (grown_relationship stable b attributes refs r)
  unfolding grown_relationship
  grown_relationship-valid b attributes refs r c known v = record {
    id_given = v.id_given;
    kind_given = v.kind_given;
    from_known = v.from_known;
    to_known = v.to_known;
    clean = merge_attributes-clean r.attributes attributes v.clean c;
    confident = confidence-is_confidence b (union r.evidence_refs refs);
    provenance = λ current.
        let p = v.provenance current in
        record {
          surface = p.surface;
          timed = p.timed;
          stated = observation_state-valid b (union r.evidence_refs refs);
        };
    refs_known = union-RefsKnown _ r.evidence_refs refs v.refs_known known;
  }

  with_relationships-Sound :
      (b : Builder) (rs : List Relationship) (index : List (String × ℕ))
      → All (RelationshipValid is_timestamp b.snapshot) rs
      → Sound is_timestamp b
      → Sound is_timestamp
          (record b { relation_index = index; snapshot = record b.snapshot { relationships = rs } })
  with_relationships-Sound b rs index a v = record {
    valid =
        let s = b.snapshot in
        IsValid-refill is_timestamp s s.entities rs s.evidence s.coverage s.errors v.valid
          v.valid.evidence v.valid.entities v.valid.distinct
          (All-map_of _ _
            (RelationshipValid-grow is_timestamp s s.entities rs s.evidence s.coverage s.errors
              (λ k h. h) (λ k h. h))
            rs a);
    named = v.named;
    indexed = v.indexed;
  }

  pub place_relationship-Sound :
      (b : Builder) (id kind from to : String) (attributes : Fields) (refs : List String)
      (at : Option ℕ)
      → id ≢ ""
      → kind ≢ ""
      → contains (map entity_id b.snapshot.entities) from ≡ true
      → contains (map entity_id b.snapshot.entities) to ≡ true
      → FieldsClean attributes
      → RefsKnown (map evidence_id b.snapshot.evidence) refs
      → Sound is_timestamp b
      → Sound is_timestamp (place_relationship stable b id kind from to attributes refs at)
  unfolding place_relationship
  place_relationship-Sound b id kind from to attributes refs (some i) g k f t c r v =
      with_relationships-Sound b _ b.relation_index
        (update_at-All _ i (grown_relationship stable b attributes refs) b.snapshot.relationships
          (λ x. grown_relationship-valid b attributes refs x c r) v.valid.relationships)
        v
  place_relationship-Sound b id kind from to attributes refs none g k f t c r v =
      with_relationships-Sound b _ _
        (All-append _ b.snapshot.relationships _ v.valid.relationships
          (new_relationship-valid b id kind from to attributes refs g k f t c r v, tt))
        v

  pub add_error-Sound :
      (detector_id code message : String) (retryable : Bool) (b : Builder)
      → Sound is_timestamp b
      → Sound is_timestamp (add_error detector_id code message retryable b)
  unfolding add_error
  add_error-Sound detector_id code message retryable b v = record {
    valid =
        let s = b.snapshot in
        IsValid-refill is_timestamp s s.entities s.relationships s.evidence _ _ v.valid
          v.valid.evidence v.valid.entities v.valid.distinct
          (All-map_of _ _
            (RelationshipValid-grow is_timestamp s s.entities s.relationships s.evidence _ _
              (λ k h. h) (λ k h. h))
            s.relationships v.valid.relationships);
    named = v.named;
    indexed = v.indexed;
  }
