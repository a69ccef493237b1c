-- ===== src/Probe/Applying/Valid.antt =====
-- `Apply` keeps a snapshot valid (internal/probe/probe.go).
use barrikade_lens.Common.{
  Bool, true, ◌||◌, String, List, [], ◌∷◌, map, ◌==◌, ◌≡◌, ◌≢◌, refl, arith, eq_iff, All, contains,
  ok, Bool-cases, inl, inr, ◌∙◌,
}
use barrikade_lens.Discovery.Types.{Entity, Snapshot, entity_id, evidence_id, kind_mcp_server}
use barrikade_lens.Discovery.Privacy.{trim_space}
use barrikade_lens.Discovery.Validation.{validate}
use barrikade_lens.Discovery.Validation.Attributes.{FieldsClean}
use barrikade_lens.Discovery.Validation.Accepted.{validate-ok_iff}
use barrikade_lens.Scanner.Builder.Refill.{normalize-IsValid}
use barrikade_lens.Probe.{ProbeResult}
use barrikade_lens.Probe.Applying.{
  with_evidence, confirmed_entity, probed_entity, found_entity, with_entity, found_tool,
  found_relationship, with_relationship, with_tools, applied, apply,
}
use barrikade_lens.Probe.Applying.Touched.{touch-contains}
use barrikade_lens.Probe.Applying.Steps.{
  IsNamed, Fine, with_evidence-Fine, with_evidence-contains, with_entity-Fine,
}
use barrikade_lens.Probe.Applying.Found.{
  confirmed_entity-EntityValid, probed_entity-EntityValid, with_relationship-Fine,
  found_relationship-RelationshipValid, found_tool-EntityValid, found_entity-EntityValid,
}

module _ (is_timestamp : String → Bool) where
  -- The snapshot has the evidence and the server that the tools of a result refer to.
  record Ready (server evidence : String) (s : Snapshot) : Type 0 where
    fine : Fine is_timestamp s
    has_server : contains (map entity_id s.entities) server ≡ true
    has_evidence : contains (map evidence_id s.evidence) evidence ≡ true

  with_entity-contains :
      (change : Entity → Entity) (new : Entity) (s : Snapshot) (k : String)
      → ((e : Entity) → (change e).id ≡ e.id)
      → contains (map entity_id (with_entity change new s).entities) k
        ≡ (contains (map entity_id s.entities) k || k == new.id)
  unfolding with_entity
  with_entity-contains change new s k same =
      touch-contains entity_id new.id change new same refl s.entities k

  tool_step :
      (server evidence : String) (s : Snapshot) (tool key name relation : String)
      → tool ≢ ""
      → relation ≢ ""
      → trim_space name ≢ ""
      → Ready server evidence s
      → Ready server evidence (
          with_relationship evidence
            (found_relationship s relation server tool evidence)
            (with_entity (confirmed_entity evidence) (found_tool s tool key name evidence) s))
  unfolding with_entity with_relationship found_relationship confirmed_entity found_tool
  tool_step server evidence s tool key name relation g k n r = record {
    fine =
        with_relationship-Fine is_timestamp evidence _ grown r.has_evidence
          (found_relationship-RelationshipValid is_timestamp grown relation server tool evidence k
            (ground (arith, ids server, r.has_server)) (ground (arith, ids tool, eq_iff tool tool))
            r.has_evidence r.fine.valid.timed)
          (with_entity-Fine is_timestamp (confirmed_entity evidence) added s (λ e. refl) (λ e. refl)
            (λ e v. confirmed_entity-EntityValid is_timestamp _ evidence e r.has_evidence v)
            (found_tool-EntityValid is_timestamp s tool key name evidence g n r.has_evidence
              r.fine.valid.source_known)
            n r.fine);
    has_server = ground (arith, ids server, r.has_server);
    has_evidence = r.has_evidence;
  }
    where
      added : Entity
      added = found_tool s tool key name evidence

      grown : Snapshot
      grown = with_entity (confirmed_entity evidence) added s

      ids :
          (k : String)
          → contains (map entity_id (with_entity (confirmed_entity evidence) added s).entities) k
            ≡ (contains (map entity_id s.entities) k || k == added.id)
      ids k = with_entity-contains (confirmed_entity evidence) added s k (λ e. refl)

  probed-Ready :
      (result : ProbeResult) (id evidence : String) (s : Snapshot)
      → id ≢ ""
      → evidence ≢ ""
      → result.kind ≢ ""
      → trim_space result.name ≢ ""
      → FieldsClean result.attributes
      → Fine is_timestamp s
      → Ready id evidence (
          with_entity
            (probed_entity result evidence)
            (found_entity result id evidence)
            (with_evidence result evidence s))
  unfolding with_entity probed_entity confirmed_entity found_entity
  probed-Ready result id evidence s g h k n c f =
      let known = with_evidence-contains is_timestamp result evidence s in
      record {
        fine =
            with_entity-Fine is_timestamp (probed_entity result evidence)
              (found_entity result id evidence) (with_evidence result evidence s) (λ e. refl)
              (λ e. refl)
              (λ e v. probed_entity-EntityValid is_timestamp result _ evidence e c known v)
              (found_entity-EntityValid is_timestamp result _ id evidence g k n c known) n
              (with_evidence-Fine is_timestamp result evidence s h f);
        has_server =
            with_entity-contains (probed_entity result evidence) (found_entity result id evidence)
              (with_evidence result evidence s) id (λ e. refl)
            ∙ ground (arith, eq_iff id id);
        has_evidence = known;
      }

  module _ (to_lower : String → String) (stable : List String → String)
      (given : (parts : List String) → stable parts ≢ "") where
    with_tools-Ready :
        (canonical server evidence : String) (names : List String) (s : Snapshot)
        → All (λ name. trim_space name ≢ "") names
        → Ready server evidence s
        → Ready server evidence (with_tools to_lower stable canonical server evidence names s)
    unfolding with_tools
    with_tools-Ready canonical server evidence [] s n r = r
    with_tools-Ready canonical server evidence (name ∷ names) s (n, ns) r =
        with_tools-Ready canonical server evidence names _ ns
          (tool_step server evidence s _ _ name _ (given _) (given _) n r)

    applied-Fine :
        (result : ProbeResult) (s : Snapshot)
        → result.kind ≢ ""
        → trim_space result.name ≢ ""
        → FieldsClean result.attributes
        → All (λ name. trim_space name ≢ "") result.tools
        → Fine is_timestamp s
        → Fine is_timestamp (applied to_lower stable result s)
    unfolding applied
    applied-Fine result s k n c ts f =
        let ready = probed-Ready result _ _ s (given _) (given _) k n c f in
        elim (Bool-cases (result.kind == kind_mcp_server)) [
          | inl e ↦ rw e (with_tools-Ready _ _ _ result.tools _ ts ready).fine
          | inr e ↦ rw e ready.fine
        ]

    -- Let a result have a kind, a name, clean attributes and no blank name of a tool. Then Apply makes
    -- of a valid snapshot without blank names a valid snapshot.
    pub validate-apply :
        (result : ProbeResult) (s : Snapshot)
        → result.kind ≢ ""
        → trim_space result.name ≢ ""
        → FieldsClean result.attributes
        → All (λ name. trim_space name ≢ "") result.tools
        → All IsNamed s.entities
        → validate is_timestamp s ≡ ok tt
        → validate is_timestamp (apply to_lower stable result s) ≡ ok tt
    unfolding apply
    validate-apply result s k n c ts names v =
        let fine =
          applied-Fine result s k n c ts
            (record { valid = (validate-ok_iff is_timestamp s).0 v; named = names }) in
        (validate-ok_iff is_timestamp _).1 (normalize-IsValid is_timestamp _ fine.valid fine.named)
