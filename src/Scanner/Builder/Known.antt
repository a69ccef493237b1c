-- ===== src/Scanner/Builder/Known.antt =====
-- Which ids the snapshot of a builder has (internal/scanner/builder/builder.go).
use barrikade_lens.Common.{
  ℕ, true, false, ◌||◌, String, List, [], ◌∷◌, map, Option, none, some, ◌==◌, ◌≡◌, refl, sym, ap,
  ◌∙◌, arith, eq_iff, contains, Bool-cases, Option-cases, inl, inr,
}
use barrikade_lens.Discovery.Values.{Fields}
use barrikade_lens.Discovery.Types.{Snapshot, entity_id, evidence_id}
use barrikade_lens.Scanner.Builder.{
  Builder, Observation, lookup, add_entity, add_relationship, place_entity, place_relationship,
  new_entity, grown_entity, add_evidence, place_evidence, add_error, new_builder,
}
use barrikade_lens.Scanner.Builder.Parts.{map-update_at}
use barrikade_lens.Scanner.Builder.Refill.{end-contains}
use barrikade_lens.Scanner.Builder.Built.{
  Built, begun, evidence_added, entity_added, relationship_added, error_added,
}

-- The ids of the entities and of the evidence.
abbrev pub entities_of : Builder → List String
entities_of b = map entity_id b.snapshot.entities

abbrev pub evidence_ids : Builder → List String
evidence_ids b = map evidence_id b.snapshot.evidence

module _ (stable : List String → String) where
  place_entity-ids :
      (b : Builder) (id kind key name : String) (attributes : Fields) (refs : List String)
      (at : Option ℕ) (k : String)
      → contains (entities_of (place_entity stable b id kind key name attributes refs at)) k
        ≡ (contains (entities_of b) k || elim at [ none ↦ k == id | some i ↦ false ])
  unfolding place_entity new_entity
  place_entity-ids b id kind key name attributes refs (some i) k =
      ap (λ l. contains l k)
        (map-update_at entity_id i (grown_entity stable b attributes refs) b.snapshot.entities
          (λ e. refl))
      ∙ ground arith
  place_entity-ids b id kind key name attributes refs none k =
      end-contains entity_id b.snapshot.entities _ k

  place_entity-evidence :
      (b : Builder) (id kind key name : String) (attributes : Fields) (refs : List String)
      (at : Option ℕ)
      → evidence_ids (place_entity stable b id kind key name attributes refs at) ≡ evidence_ids b
  unfolding place_entity
  place_entity-evidence b id kind key name attributes refs (some i) = refl
  place_entity-evidence b id kind key name attributes refs none = refl

  place_relationship-ids :
      (b : Builder) (id kind from to : String) (attributes : Fields) (refs : List String)
      (at : Option ℕ)
      → (entities_of (place_relationship stable b id kind from to attributes refs at)
          ≡ entities_of b)
        × (evidence_ids (place_relationship stable b id kind from to attributes refs at)
            ≡ evidence_ids b)
        × ((place_relationship stable b id kind from to attributes refs at).entity_index
            ≡ b.entity_index)
  unfolding place_relationship
  place_relationship-ids b id kind from to attributes refs (some i) = (refl, refl, refl)
  place_relationship-ids b id kind from to attributes refs none = (refl, refl, refl)

  -- The index has only entities of the snapshot.
  abbrev Indexed : Builder → Type 0
  Indexed b =
      (k : String) (i : ℕ) → lookup k b.entity_index ≡ some i → contains (entities_of b) k ≡ true

  place_entity-Indexed :
      (b : Builder) (id kind key name : String) (attributes : Fields) (refs : List String)
      (at : Option ℕ)
      → Indexed b
      → Indexed (place_entity stable b id kind key name attributes refs at)
  unfolding place_entity lookup
  place_entity-Indexed b id kind key name attributes refs (some i) h k j e =
      place_entity-ids b id kind key name attributes refs (some i) k ∙ ground (arith, h k j e)
  place_entity-Indexed b id kind key name attributes refs none h k j e =
      place_entity-ids b id kind key name attributes refs none k ∙ elim (Bool-cases (k == id)) [
        | inl q ↦ ground (arith, q)
        | inr q ↦ ground (arith, h k j (rw (q, lookup) at e))
      ]

  place_evidence-entities :
      (b : Builder) (o : Observation) (id : String) (at : Option ℕ)
      → entities_of (place_evidence stable b id o at) ≡ entities_of b
  unfolding place_evidence
  place_evidence-entities b o id (some i) = refl
  place_evidence-entities b o id none = refl

  place_evidence-index :
      (b : Builder) (o : Observation) (id : String) (at : Option ℕ)
      → (place_evidence stable b id o at).entity_index ≡ b.entity_index
  unfolding place_evidence
  place_evidence-index b o id (some i) = refl
  place_evidence-index b o id none = refl

  Built-Indexed : (s : Snapshot) (b : Builder) → Built stable s b → Indexed b
  unfolding new_builder add_evidence add_entity add_relationship add_error lookup
  Built-Indexed s _ begun k i e = ground (arith, e)
  Built-Indexed s _ (evidence_added {b} o d m f h) k i e =
      ap (λ l. contains l k) (place_evidence-entities b o _ _)
      ∙ Built-Indexed s b h k i (ap (lookup k) (sym (place_evidence-index b o _ _)) ∙ e)
  Built-Indexed s _ (entity_added {b} kind key name attributes refs g n c r h) k i e =
      place_entity-Indexed b _ kind key name attributes refs _ (Built-Indexed s b h) k i e
  Built-Indexed s _ (relationship_added {b} kind from to attributes refs g f t c r h) k i e =
      let (same, evidence, index) = place_relationship-ids b _ kind from to attributes refs _ in
      ap (λ l. contains l k) same ∙ Built-Indexed s b h k i (ap (lookup k) (sym index) ∙ e)
  Built-Indexed s _ (error_added {b} id code message retryable h) k i e = Built-Indexed s b h k i e

  -- An entity that is added is there.
  pub add_entity-contains :
      (s : Snapshot) (b : Builder) (kind key name : String) (attributes : Fields)
      (refs : List String)
      → Built stable s b
      → contains
          (entities_of (add_entity stable kind key name attributes refs b).1)
          (add_entity stable kind key name attributes refs b).0
        ≡ true
  unfolding add_entity
  add_entity-contains s b kind key name attributes refs h =
      place_entity-ids b id kind key name attributes refs (lookup id b.entity_index) id
      ∙ elim (Option-cases (lookup id b.entity_index)) [
        | inl e ↦ rw e (ground (arith, eq_iff id id))
        | inr (i, e) ↦ rw e (ground (arith, Built-Indexed s b h id i e))
      ]
    where
      id : String
      id = stable ("entity" ∷ b.snapshot.organization_id ∷ kind ∷ key ∷ [])

  -- The entities that were there stay, and so does the evidence.
  pub add_entity-kept :
      (b : Builder) (kind key name : String) (attributes : Fields) (refs : List String) (k : String)
      → contains (entities_of b) k ≡ true
      → contains (entities_of (add_entity stable kind key name attributes refs b).1) k ≡ true
  unfolding add_entity
  add_entity-kept b kind key name attributes refs k h =
      place_entity-ids b _ kind key name attributes refs _ k ∙ ground (arith, h)

  pub add_entity-evidence :
      (b : Builder) (kind key name : String) (attributes : Fields) (refs : List String)
      → evidence_ids (add_entity stable kind key name attributes refs b).1 ≡ evidence_ids b
  unfolding add_entity
  add_entity-evidence b kind key name attributes refs =
      place_entity-evidence b _ kind key name attributes refs _

  -- A relationship changes neither.
  pub add_relationship-ids :
      (b : Builder) (kind from to : String) (attributes : Fields) (refs : List String)
      → (entities_of (add_relationship stable kind from to attributes refs b).1 ≡ entities_of b)
        × (evidence_ids (add_relationship stable kind from to attributes refs b).1 ≡ evidence_ids b)
  unfolding add_relationship
  add_relationship-ids b kind from to attributes refs =
      let (same, evidence, index) = place_relationship-ids b _ kind from to attributes refs _ in
      (same, evidence)
