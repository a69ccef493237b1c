-- ===== src/Scanner/Builder/Built.antt =====
-- A whole scan with internal/scanner/builder/builder.go, from `New` to `Finish`.
use barrikade_lens.Common.{Bool, true, String, List, [], map, ◌≡◌, ◌≢◌, refl, contains, ok}
use barrikade_lens.Discovery.Values.{Fields}
use barrikade_lens.Discovery.Types.{Snapshot, entity_id, evidence_id}
use barrikade_lens.Discovery.Privacy.{trim_space}
use barrikade_lens.Discovery.Validation.{validate}
use barrikade_lens.Discovery.Validation.Attributes.{FieldsClean}
use barrikade_lens.Discovery.Validation.Accepted.{RefsKnown, validate-ok_iff}
use barrikade_lens.Scanner.Builder.{
  Builder, Observation, new_builder, add_evidence, add_entity, add_relationship, add_error, finish,
}
use barrikade_lens.Scanner.Builder.Refill.{Sound, normalize-IsValid}
use barrikade_lens.Scanner.Builder.Steps.{
  place_evidence-Sound, place_entity-Sound, place_relationship-Sound, add_error-Sound,
}

-- The builders that come from `s` by calls whose arguments are in order: evidence is complete;
-- entities have a kind, a name and clean attributes, and refer to evidence that was added before;
-- relationships join entities that were added before.
pub data Built (stable : List String → String) (s : Snapshot) : Builder → Type 0 where
  begun : Built stable s (new_builder s)
  evidence_added :
      {b : Builder} (o : Observation)
      → o.detector_id ≢ ""
      → o.method ≢ ""
      → o.family ≢ ""
      → Built stable s b
      → Built stable s (add_evidence stable o b).1
  entity_added :
      {b : Builder} (kind canonical_key name : String) (attributes : Fields) (refs : List String)
      → kind ≢ ""
      → trim_space name ≢ ""
      → FieldsClean attributes
      → RefsKnown (map evidence_id b.snapshot.evidence) refs
      → Built stable s b
      → Built stable s (add_entity stable kind canonical_key name attributes refs b).1
  relationship_added :
      {b : Builder} (kind from to : String) (attributes : Fields) (refs : List String)
      → kind ≢ ""
      → contains (map entity_id b.snapshot.entities) from ≡ true
      → contains (map entity_id b.snapshot.entities) to ≡ true
      → FieldsClean attributes
      → RefsKnown (map evidence_id b.snapshot.evidence) refs
      → Built stable s b
      → Built stable s (add_relationship stable kind from to attributes refs b).1
  error_added :
      {b : Builder} (detector_id code message : String) (retryable : Bool)
      → Built stable s b
      → Built stable s (add_error detector_id code message retryable b)

module _ (is_timestamp : String → Bool) (stable : List String → String)
    (given : (parts : List String) → stable parts ≢ "") where
  Built-Sound :
      (s : Snapshot) (b : Builder)
      → validate is_timestamp s ≡ ok tt
      → s.entities ≡ []
      → Built stable s b
      → Sound is_timestamp b
  unfolding new_builder add_evidence add_entity add_relationship
  Built-Sound s _ v e begun = record {
    valid = (validate-ok_iff is_timestamp s).0 v;
    named = rw e tt;
    indexed = λ k h. rw e refl;
  }
  Built-Sound s _ v e (evidence_added {b} o d m f h) =
      place_evidence-Sound is_timestamp stable given b o _ _ (given _) d m f (Built-Sound s b v e h)
  Built-Sound s _ v e (entity_added {b} kind key name attributes refs k n c r h) =
      place_entity-Sound is_timestamp stable given b _ kind key name attributes refs _ refl
        (given _) k n c r (Built-Sound s b v e h)
  Built-Sound s _ v e (relationship_added {b} kind from to attributes refs k f t c r h) =
      place_relationship-Sound is_timestamp stable given b _ kind from to attributes refs _
        (given _) k f t c r (Built-Sound s b v e h)
  Built-Sound s _ v e (error_added {b} id code message retryable h) =
      add_error-Sound is_timestamp stable given id code message retryable b (Built-Sound s b v e h)

  -- Let a builder begin with a valid snapshot without entities, and let every call have its
  -- arguments in order. Then `Finish` gives a valid snapshot, whatever the order of the calls.
  pub finish-Built :
      (s : Snapshot) (b : Builder)
      → validate is_timestamp s ≡ ok tt
      → s.entities ≡ []
      → Built stable s b
      → (finish is_timestamp b).1 ≡ ok tt
  unfolding finish
  finish-Built s b v e h =
      let sound = Built-Sound s b v e h in
      (validate-ok_iff is_timestamp _).1
        (normalize-IsValid is_timestamp b.snapshot sound.valid sound.named)
