-- ===== src/Discovery/Validation/Accepted.antt =====
-- `Validate` accepts exactly the well-formed snapshots (pkg/discovery/validation.go).
use barrikade_lens.Common.{
  Bool, true, false, not, String, List, [], ◌∷◌, map, ◌≡◌, ◌≢◌, ◌↔◌, refl, arith, All, Distinct, ok,
  fail_if, ◌==◌, ◌||◌, contains, eq_iff, >>-eq-ok, fail_if-ok, wrap, Result,
}
use barrikade_lens.Discovery.Types.{
  Entity, Relationship, Evidence, Snapshot, entity_id, evidence_id, current_schema_version,
  legacy_schema_version, source_cloud,
}
use barrikade_lens.Discovery.Validation.{
  Problem, in_entity, Checked, is_supported_schema_version, is_source_type, valid_observation_state,
  is_confidence, validate_confidence, validate_fields, validate_refs, validate_evidence,
  validate_entity, validate_entities, validate_provenance, validate_relationship,
  validate_relationships, validate,
}
use barrikade_lens.Discovery.Validation.Attributes.{FieldsClean, fields_accepted, fields_complete}

-- Each reference names a piece of evidence.
abbrev pub RefsKnown : List String → List String → Type 0
RefsKnown evidence = All (λ ref. contains evidence ref ≡ true)

pub record EvidenceValid (e : Evidence) : Type 0 where
  pub id_given : e.id ≢ ""
  pub detector_given : e.detector_id ≢ ""
  pub method_given : e.method ≢ ""
  pub family_given : e.family ≢ ""

pub record EntityValid (evidence : List String) (e : Entity) : Type 0 where
  pub id_given : e.id ≢ ""
  pub kind_given : e.kind ≢ ""
  pub name_given : e.name ≢ ""
  pub confident : is_confidence e.confidence ≡ true
  pub clean : FieldsClean e.attributes
  pub refs_known : RefsKnown evidence e.evidence_refs

-- `is_timestamp` is time.Parse(time.RFC3339Nano, ·) without an error.
module _ (is_timestamp : String → Bool) where
  -- What schema 1.3 asks of a relationship beyond the earlier ones.
  pub record HasProvenance (source_type : String) (r : Relationship) : Type 0 where
    pub surface : r.surface ≡ source_type
    pub timed : is_timestamp r.observed_at ≡ true
    pub stated : valid_observation_state r.observation_state ≡ true

  pub record RelationshipValid (s : Snapshot) (r : Relationship) : Type 0 where
    pub id_given : r.id ≢ ""
    pub kind_given : r.kind ≢ ""
    pub from_known : contains (map entity_id s.entities) r.from ≡ true
    pub to_known : contains (map entity_id s.entities) r.to ≡ true
    pub clean : FieldsClean r.attributes
    pub confident : is_confidence r.confidence ≡ true
    pub provenance : s.schema_version ≡ current_schema_version → HasProvenance s.source_type r
    pub refs_known : RefsKnown (map evidence_id s.evidence) r.evidence_refs

  pub record IsValid (s : Snapshot) : Type 0 where
    pub schema : is_supported_schema_version s.schema_version ≡ true
    pub snapshot_given : s.snapshot_id ≢ ""
    pub organization_given : s.organization_id ≢ ""
    pub source_given : s.source_id ≢ ""
    pub target_given : s.target_id ≢ ""
    pub source_known : is_source_type s.source_type ≡ true
    pub cloud_later : s.schema_version ≡ legacy_schema_version → s.source_type ≢ source_cloud
    pub timed : is_timestamp s.observed_at ≡ true
    pub evidence : All EvidenceValid s.evidence
    pub entities : All (EntityValid (map evidence_id s.evidence)) s.entities
    pub distinct : Distinct (map entity_id s.entities)
    pub relationships : All (RelationshipValid s) s.relationships

wrap_ok : (f : Problem → Problem) (c : Checked) → wrap f c ≡ ok tt → c ≡ ok tt
wrap_ok f (ok tt) h = refl
wrap_ok f (Result.err e) h = cc

given : (s : String) → (s == "") ≡ false → s ≢ ""
given s h e = ground (arith, eq_iff s "")

given_test : (s : String) → s ≢ "" → (s == "") ≡ false
given_test s h = ground (arith, eq_iff s "")

refs_accepted :
    (evidence refs : List String) → validate_refs evidence refs ≡ ok tt → RefsKnown evidence refs
unfolding validate_refs
refs_accepted evidence [] h = tt
refs_accepted evidence (r ∷ rs) h =
    let (a, b) = >>-eq-ok (fail_if (not (contains evidence r)) _) _ h in
    (ground (arith, fail_if-ok (not (contains evidence r)) _ a), refs_accepted evidence rs b)

refs_complete :
    (evidence refs : List String) → RefsKnown evidence refs → validate_refs evidence refs ≡ ok tt
unfolding validate_refs
refs_complete evidence [] h = refl
refs_complete evidence (r ∷ rs) (p, h) = rw p (refs_complete evidence rs h)

evidence_accepted : (l : List Evidence) → validate_evidence l ≡ ok tt → All EvidenceValid l
unfolding validate_evidence
evidence_accepted [] h = tt
evidence_accepted (e ∷ l) h = ground (
  arith,
  eq_iff e.id "",
  eq_iff e.detector_id "",
  eq_iff e.method "",
  eq_iff e.family "",
  evidence_accepted l,
)

evidence_complete : (l : List Evidence) → All EvidenceValid l → validate_evidence l ≡ ok tt
unfolding validate_evidence
evidence_complete [] h = refl
evidence_complete (e ∷ l) (p, h) =
    rw
      (
        given_test e.id p.id_given,
        given_test e.detector_id p.detector_given,
        given_test e.method p.method_given,
        given_test e.family p.family_given,
      )
      (evidence_complete l h)

confidence_accepted : (c : String) → validate_confidence c ≡ ok tt → is_confidence c ≡ true
unfolding validate_confidence
confidence_accepted c h = ground arith

entity_accepted :
    (evidence : List String) (e : Entity)
    → (e.id == "" || e.kind == "" || e.name == "") ≡ false
    → validate_entity evidence e ≡ ok tt
    → EntityValid evidence e
unfolding validate_entity
entity_accepted evidence e h v =
    let (a, v') = >>-eq-ok (wrap (in_entity e.id) (validate_confidence e.confidence)) _ v in
    let (c, d) = >>-eq-ok (wrap (in_entity e.id) (validate_fields e.attributes)) _ v' in
    record {
      id_given = given e.id (ground arith);
      kind_given = given e.kind (ground arith);
      name_given = given e.name (ground arith);
      confident = confidence_accepted e.confidence (wrap_ok (in_entity e.id) _ a);
      clean = fields_accepted e.attributes (wrap_ok (in_entity e.id) _ c);
      refs_known = refs_accepted evidence e.evidence_refs (wrap_ok (in_entity e.id) _ d);
    }

entity_complete :
    (evidence : List String) (e : Entity)
    → EntityValid evidence e
    → validate_entity evidence e ≡ ok tt
unfolding validate_entity
entity_complete evidence e v =
    rw
      (
        v.confident,
        fields_complete e.attributes v.clean,
        refs_complete evidence e.evidence_refs v.refs_known,
      )
      refl

-- The ids of the entities are new.
abbrev Fresh : List String → List Entity → Type 0
Fresh seen = All (λ e. contains seen (entity_id e) ≡ false)

Fresh-apart :
    (k : String) (seen : List String) (l : List Entity)
    → Fresh (k ∷ seen) l
    → (contains (map entity_id l) k ≡ false) × Fresh seen l
Fresh-apart k seen [] h = (refl, tt)
Fresh-apart k seen (e ∷ l) h = ground (arith, eq_iff k e.id, eq_iff e.id k, Fresh-apart k seen l)

Fresh-join :
    (k : String) (seen : List String) (l : List Entity)
    → contains (map entity_id l) k ≡ false
    → Fresh seen l
    → Fresh (k ∷ seen) l
Fresh-join k seen [] c h = tt
Fresh-join k seen (e ∷ l) c h = ground (arith, eq_iff k e.id, eq_iff e.id k, Fresh-join k seen l)

entities_accepted :
    (evidence seen : List String) (l : List Entity)
    → validate_entities evidence seen l ≡ ok tt
    → All (EntityValid evidence) l × Fresh seen l × Distinct (map entity_id l)
unfolding validate_entities
entities_accepted evidence seen [] h = (tt, tt, tt)
entities_accepted evidence seen (e ∷ l) h =
    let (a, h1) = >>-eq-ok (fail_if (e.id == "" || e.kind == "" || e.name == "") _) _ h in
    let (b, h2) = >>-eq-ok (fail_if (contains seen e.id) _) _ h1 in
    let (c, h3) = >>-eq-ok (validate_entity evidence e) _ h2 in
    let (valid, fresh, distinct) = entities_accepted evidence (e.id ∷ seen) l h3 in
    let (apart, fresh') = Fresh-apart e.id seen l fresh in
    (
      (entity_accepted evidence e (fail_if-ok _ _ a) c, valid),
      (fail_if-ok (contains seen e.id) _ b, fresh'),
      (apart, distinct),
    )

entities_complete :
    (evidence seen : List String) (l : List Entity)
    → All (EntityValid evidence) l
    → Fresh seen l
    → Distinct (map entity_id l)
    → validate_entities evidence seen l ≡ ok tt
unfolding validate_entities
entities_complete evidence seen [] v f d = refl
entities_complete evidence seen (e ∷ l) (p, v) (f, g) (a, d) =
    rw
      (
        given_test e.id p.id_given,
        given_test e.kind p.kind_given,
        given_test e.name p.name_given,
        f,
        entity_complete evidence e p,
      )
      (entities_complete evidence (e.id ∷ seen) l v (Fresh-join e.id seen l a g) d)

module _ (is_timestamp : String → Bool) where
  provenance_accepted :
      (s : Snapshot) (r : Relationship)
      → validate_provenance is_timestamp s r ≡ ok tt
      → HasProvenance is_timestamp s.source_type r
  unfolding validate_provenance
  provenance_accepted s r h = ground (arith, eq_iff r.surface s.source_type)

  provenance_complete :
      (s : Snapshot) (r : Relationship)
      → HasProvenance is_timestamp s.source_type r
      → validate_provenance is_timestamp s r ≡ ok tt
  unfolding validate_provenance
  provenance_complete s r h = ground (arith, eq_iff r.surface s.source_type)

  relationship_accepted :
      (s : Snapshot) (r : Relationship)
      → validate_relationship is_timestamp s r ≡ ok tt
      → RelationshipValid is_timestamp s r
  unfolding validate_relationship
  relationship_accepted s r h = ground (
    arith,
    eq_iff r.id "",
    eq_iff r.kind "",
    fields_accepted r.attributes,
    eq_iff s.schema_version current_schema_version,
    provenance_accepted s r,
    refs_accepted (map evidence_id s.evidence) r.evidence_refs,
  )

  relationship_complete :
      (s : Snapshot) (r : Relationship)
      → RelationshipValid is_timestamp s r
      → validate_relationship is_timestamp s r ≡ ok tt
  unfolding validate_relationship
  relationship_complete s r v = ground (
    arith,
    eq_iff r.id "",
    eq_iff r.kind "",
    fields_complete r.attributes,
    eq_iff s.schema_version current_schema_version,
    provenance_complete s r,
    refs_complete (map evidence_id s.evidence) r.evidence_refs,
  )

  relationships_accepted :
      (s : Snapshot) (l : List Relationship)
      → validate_relationships is_timestamp s l ≡ ok tt
      → All (RelationshipValid is_timestamp s) l
  unfolding validate_relationships
  relationships_accepted s [] h = tt
  relationships_accepted s (r ∷ l) h =
      let (a, b) = >>-eq-ok (validate_relationship is_timestamp s r) _ h in
      (relationship_accepted s r a, relationships_accepted s l b)

  relationships_complete :
      (s : Snapshot) (l : List Relationship)
      → All (RelationshipValid is_timestamp s) l
      → validate_relationships is_timestamp s l ≡ ok tt
  unfolding validate_relationships
  relationships_complete s [] v = refl
  relationships_complete s (r ∷ l) (p, v) =
      rw (relationship_complete s r p) (relationships_complete s l v)

  Fresh-nil : (l : List Entity) → Fresh [] l
  Fresh-nil [] = tt
  Fresh-nil (e ∷ l) = (refl, Fresh-nil l)

  validate_accepted : (s : Snapshot) → validate is_timestamp s ≡ ok tt → IsValid is_timestamp s
  unfolding validate
  validate_accepted s h = ground (
    arith,
    eq_iff s.snapshot_id "",
    eq_iff s.organization_id "",
    eq_iff s.source_id "",
    eq_iff s.target_id "",
    eq_iff s.schema_version legacy_schema_version,
    eq_iff s.source_type source_cloud,
    evidence_accepted s.evidence,
    entities_accepted (map evidence_id s.evidence) [] s.entities,
    relationships_accepted s s.relationships,
  )

  validate_complete : (s : Snapshot) → IsValid is_timestamp s → validate is_timestamp s ≡ ok tt
  unfolding validate
  validate_complete s v = ground (
    arith,
    eq_iff s.snapshot_id "",
    eq_iff s.organization_id "",
    eq_iff s.source_id "",
    eq_iff s.target_id "",
    eq_iff s.schema_version legacy_schema_version,
    eq_iff s.source_type source_cloud,
    evidence_complete s.evidence,
    Fresh-nil s.entities,
    entities_complete (map evidence_id s.evidence) [] s.entities,
    relationships_complete s s.relationships,
  )

  -- `Validate` returns no error exactly if the snapshot is well formed: its schema version, source
  -- type and time of observation are known and its ids given; evidence and entities are complete,
  -- the ids of the entities distinct; attributes hold no sensitive key and no long text at any
  -- depth; every reference names evidence of the snapshot; and every relationship joins two of its
  -- entities and, under schema 1.3, has a surface, a time and a state of observation.
  pub validate-ok_iff : (s : Snapshot) → (validate is_timestamp s ≡ ok tt) ↔ IsValid is_timestamp s
  validate-ok_iff s = (validate_accepted s, validate_complete s)
