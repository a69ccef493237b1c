-- ===== src/Probe/Applying/Steps.antt =====
-- The steps of `Apply` keep a snapshot valid (internal/probe/probe.go).
use barrikade_lens.Common.{
  Bool, true, String, List, [], ◌∷◌, ◌++◌, map, ◌==◌, ◌≡◌, ◌≢◌, refl, sym, subst, arith, eq_iff,
  All, All-append, All-map_of, contains, ne_of_test, Bool-cases, inl, inr,
}
use barrikade_lens.Discovery.Types.{
  Entity, Evidence, Snapshot, entity_id, evidence_id, kind_mcp_server,
}
use barrikade_lens.Discovery.Privacy.{trim_space}
use barrikade_lens.Discovery.Validation.Accepted.{IsValid, EntityValid, EvidenceValid}
use barrikade_lens.Discovery.Merge.Refs.{EntityValid-mono}
use barrikade_lens.Scanner.Builder.Refill.{end-contains, RelationshipValid-grow, IsValid-refill}
use barrikade_lens.Probe.{ProbeResult}
use barrikade_lens.Probe.Applying.{
  touch, method_of, family_of, probe_evidence, with_evidence, with_entity,
}
use barrikade_lens.Probe.Applying.Touched.{touch-contains, touch-Distinct, touch-All}

-- Neither the name nor what is left of it without the blanks around it is empty.
abbrev pub IsNamed : Entity → Type 0
IsNamed e = trim_space e.name ≢ ""

module _ (is_timestamp : String → Bool) where
  -- A valid snapshot in which no entity has a blank name.
  pub record Fine (s : Snapshot) : Type 0 where
    pub valid : IsValid is_timestamp s
    pub named : All IsNamed s.entities

  given_method : (kind : String) → method_of kind ≢ ""
  unfolding method_of
  given_method kind = elim (Bool-cases (kind == kind_mcp_server)) [
    | inl e ↦ rw e (ne_of_test _ _ refl)
    | inr e ↦ rw e (ne_of_test _ _ refl)
  ]

  given_family : (kind : String) → family_of kind ≢ ""
  unfolding family_of
  given_family kind = elim (Bool-cases (kind == kind_mcp_server)) [
    | inl e ↦ rw e (ne_of_test _ _ refl)
    | inr e ↦ rw e (ne_of_test _ _ refl)
  ]

  evidence_appended :
      (s : Snapshot) (e : Evidence)
      → EvidenceValid e
      → Fine s
      → Fine (record s { evidence = s.evidence ++ e ∷ [] })
  evidence_appended s e v f = record {
    valid =
        IsValid-refill is_timestamp s s.entities s.relationships (s.evidence ++ e ∷ []) s.coverage
          s.errors f.valid (All-append EvidenceValid s.evidence (e ∷ []) f.valid.evidence (v, tt))
          (All-map_of _ _ (EntityValid-mono _ _ more) s.entities f.valid.entities) f.valid.distinct
          (All-map_of _ _
            (RelationshipValid-grow is_timestamp s s.entities s.relationships (s.evidence ++ e ∷ [])
              s.coverage s.errors (λ k h. h) more)
            s.relationships f.valid.relationships);
    named = f.named;
  }
    where
      more :
          (k : String)
          → contains (map evidence_id s.evidence) k ≡ true
          → contains (map evidence_id (s.evidence ++ e ∷ [])) k ≡ true
      more k h = ground (arith, end-contains evidence_id s.evidence e k)

  pub with_evidence-Fine :
      (result : ProbeResult) (id : String) (s : Snapshot)
      → id ≢ ""
      → Fine s
      → Fine (with_evidence result id s)
  unfolding with_evidence probe_evidence
  with_evidence-Fine result id s g f =
      elim (Bool-cases (contains (map evidence_id s.evidence) id)) [
        | inl e ↦ rw e f
        | inr e ↦ rw e (
            evidence_appended s _
              (record {
                id_given = g;
                detector_given = ne_of_test _ _ refl;
                method_given = given_method result.kind;
                family_given = given_family result.kind;
              })
              f)
      ]

  pub with_evidence-contains :
      (result : ProbeResult) (id : String) (s : Snapshot)
      → contains (map evidence_id (with_evidence result id s).evidence) id ≡ true
  unfolding with_evidence probe_evidence
  with_evidence-contains result id s =
      elim (Bool-cases (contains (map evidence_id s.evidence) id)) [
        | inl e ↦ rw e e
        | inr e ↦ rw e (
            ground (
              arith,
              end-contains evidence_id s.evidence (probe_evidence s result id) id,
              eq_iff id id,
            ))
      ]

  pub with_entity-Fine :
      (change : Entity → Entity) (new : Entity) (s : Snapshot)
      → ((e : Entity) → (change e).id ≡ e.id)
      → ((e : Entity) → (change e).name ≡ e.name)
      → ((e : Entity)
          → EntityValid (map evidence_id s.evidence) e
          → EntityValid (map evidence_id s.evidence) (change e))
      → EntityValid (map evidence_id s.evidence) new
      → IsNamed new
      → Fine s
      → Fine (with_entity change new s)
  unfolding with_entity
  with_entity-Fine change new s same_id same_name kept v n f = record {
    valid =
        IsValid-refill is_timestamp s es s.relationships s.evidence s.coverage s.errors f.valid
          f.valid.evidence
          (touch-All entity_id new.id change new _ kept v s.entities f.valid.entities)
          (touch-Distinct entity_id new.id change new same_id refl s.entities f.valid.distinct)
          (All-map_of _ _
            (RelationshipValid-grow is_timestamp s es s.relationships s.evidence s.coverage s.errors
              more (λ k h. h))
            s.relationships f.valid.relationships);
    named =
        touch-All entity_id new.id change new IsNamed
          (λ e h. subst (λ t. trim_space t ≢ "") (sym (same_name e)) h) n s.entities f.named;
  }
    where
      es : List Entity
      es = touch entity_id new.id change new s.entities

      more :
          (k : String)
          → contains (map entity_id s.entities) k ≡ true
          → contains (map entity_id (touch entity_id new.id change new s.entities)) k ≡ true
      more k h =
          ground (arith, touch-contains entity_id new.id change new same_id refl s.entities k)
