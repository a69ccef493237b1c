-- ===== src/Probe/Applying/Found.antt =====
-- What `Apply` adds is valid (internal/probe/probe.go).
use barrikade_lens.Common.{
  Bool, true, String, List, map, ◌==◌, ◌≡◌, ◌≢◌, refl, sym, subst, arith, eq_iff, All-map_of,
  contains, ne_of_test, Bool-cases, inl, inr, ap,
}
use barrikade_lens.Discovery.Types.{
  Entity, Relationship, Snapshot, entity_id, evidence_id, relationship_id, source_endpoint,
  source_repository, source_kubernetes, source_cloud,
}
use barrikade_lens.Discovery.Privacy.{trim_space, is_sensitive_key}
use barrikade_lens.Discovery.Validation.{is_source_type, is_confidence, valid_observation_state}
use barrikade_lens.Discovery.Validation.Attributes.{IsShort, FieldsClean}
use barrikade_lens.Discovery.Validation.Accepted.{EntityValid, RelationshipValid}
use barrikade_lens.Scanner.Builder.Refill.{IsValid-refill, RelationshipValid-grow}
use barrikade_lens.Probe.{ProbeResult}
use barrikade_lens.Probe.Applying.{
  touch, confirmed_entity, probed_entity, found_entity, found_tool, observed_relationship,
  found_relationship, with_relationship,
}
use barrikade_lens.Probe.Applying.Touched.{touch-All, append_unique-RefsKnown, put_all-clean}
use barrikade_lens.Probe.Applying.Steps.{Fine}

is_source_type-IsShort : (s : String) → is_source_type s ≡ true → IsShort s
unfolding is_source_type
is_source_type-IsShort s h = elim (Bool-cases (s == source_endpoint)) [
  | inl e ↦ subst IsShort (sym ((eq_iff s source_endpoint).0 e)) (ground arith)
  | inr a ↦ elim (Bool-cases (s == source_repository)) [
    | inl e ↦ subst IsShort (sym ((eq_iff s source_repository).0 e)) (ground arith)
    | inr b ↦ elim (Bool-cases (s == source_kubernetes)) [
      | inl e ↦ subst IsShort (sym ((eq_iff s source_kubernetes).0 e)) (ground arith)
      | inr c ↦
          subst IsShort (sym ((eq_iff s source_cloud).0 (ground (arith, h, a, b, c))))
            (ground arith)
    ]
  ]
]

module _ (is_timestamp : String → Bool) where
  pub confirmed_entity-EntityValid :
      (ids : List String) (evidence : String) (e : Entity)
      → contains ids evidence ≡ true
      → EntityValid ids e
      → EntityValid ids (confirmed_entity evidence e)
  unfolding confirmed_entity is_confidence
  confirmed_entity-EntityValid ids evidence e c v = record {
    id_given = v.id_given;
    kind_given = v.kind_given;
    name_given = v.name_given;
    confident = refl;
    clean = v.clean;
    refs_known = append_unique-RefsKnown ids e.evidence_refs evidence c v.refs_known;
  }

  pub probed_entity-EntityValid :
      (result : ProbeResult) (ids : List String) (evidence : String) (e : Entity)
      → FieldsClean result.attributes
      → contains ids evidence ≡ true
      → EntityValid ids e
      → EntityValid ids (probed_entity result evidence e)
  unfolding probed_entity confirmed_entity is_confidence
  probed_entity-EntityValid result ids evidence e f c v = record {
    id_given = v.id_given;
    kind_given = v.kind_given;
    name_given = v.name_given;
    confident = refl;
    clean = put_all-clean e.attributes result.attributes v.clean f;
    refs_known = append_unique-RefsKnown ids e.evidence_refs evidence c v.refs_known;
  }

  observed_relationship-RelationshipValid :
      (s : Snapshot) (evidence : String) (r : Relationship)
      → contains (map evidence_id s.evidence) evidence ≡ true
      → RelationshipValid is_timestamp s r
      → RelationshipValid is_timestamp s (observed_relationship evidence r)
  unfolding observed_relationship is_confidence valid_observation_state
  observed_relationship-RelationshipValid s evidence r c v = record {
    id_given = v.id_given;
    kind_given = v.kind_given;
    from_known = v.from_known;
    to_known = v.to_known;
    clean = v.clean;
    confident = refl;
    provenance = λ e. record {
      surface = (v.provenance e).surface;
      timed = (v.provenance e).timed;
      stated = refl;
    };
    refs_known = append_unique-RefsKnown _ r.evidence_refs evidence c v.refs_known;
  }

  pub with_relationship-Fine :
      (evidence : String) (new : Relationship) (s : Snapshot)
      → contains (map evidence_id s.evidence) evidence ≡ true
      → RelationshipValid is_timestamp s new
      → Fine is_timestamp s
      → Fine is_timestamp (with_relationship evidence new s)
  unfolding with_relationship
  with_relationship-Fine evidence new s c v f = record {
    valid =
        IsValid-refill is_timestamp s s.entities rs s.evidence s.coverage s.errors f.valid
          f.valid.evidence f.valid.entities f.valid.distinct
          (All-map_of _ _
            (RelationshipValid-grow is_timestamp s s.entities rs s.evidence s.coverage s.errors
              (λ k h. h) (λ k h. h))
            rs
            (touch-All relationship_id new.id (observed_relationship evidence) new
              (RelationshipValid is_timestamp s)
              (λ r w. observed_relationship-RelationshipValid s evidence r c w) v s.relationships
              f.valid.relationships));
    named = f.named;
  }
    where
      rs : List Relationship
      rs = touch relationship_id new.id (observed_relationship evidence) new s.relationships

  pub found_relationship-RelationshipValid :
      (s : Snapshot) (id from to evidence : String)
      → id ≢ ""
      → contains (map entity_id s.entities) from ≡ true
      → contains (map entity_id s.entities) to ≡ true
      → contains (map evidence_id s.evidence) evidence ≡ true
      → is_timestamp s.observed_at ≡ true
      → RelationshipValid is_timestamp s (found_relationship s id from to evidence)
  unfolding found_relationship is_confidence valid_observation_state is_sensitive_key
  found_relationship-RelationshipValid s id from to evidence g f k c t = record {
    id_given = g;
    kind_given = ne_of_test _ _ refl;
    from_known = f;
    to_known = k;
    clean = (refl, ground arith, tt);
    confident = refl;
    provenance = λ e. record { surface = refl; timed = t; stated = refl };
    refs_known = (c, tt);
  }

  pub found_tool-EntityValid :
      (s : Snapshot) (id canonical name evidence : String)
      → id ≢ ""
      → trim_space name ≢ ""
      → contains (map evidence_id s.evidence) evidence ≡ true
      → is_source_type s.source_type ≡ true
      → EntityValid (map evidence_id s.evidence) (found_tool s id canonical name evidence)
  unfolding found_tool is_confidence is_sensitive_key trim_space
  found_tool-EntityValid s id canonical name evidence g n c k = record {
    id_given = g;
    kind_given = ne_of_test _ _ refl;
    name_given = λ e. n (ap trim_space e);
    confident = refl;
    clean = (refl, ground arith, (refl, is_source_type-IsShort s.source_type k, tt));
    refs_known = (c, tt);
  }

  pub found_entity-EntityValid :
      (result : ProbeResult) (ids : List String) (id evidence : String)
      → id ≢ ""
      → result.kind ≢ ""
      → trim_space result.name ≢ ""
      → FieldsClean result.attributes
      → contains ids evidence ≡ true
      → EntityValid ids (found_entity result id evidence)
  unfolding found_entity is_confidence trim_space
  found_entity-EntityValid result ids id evidence g k n f c = record {
    id_given = g;
    kind_given = k;
    name_given = λ e. n (ap trim_space e);
    confident = refl;
    clean = f;
    refs_known = (c, tt);
  }
