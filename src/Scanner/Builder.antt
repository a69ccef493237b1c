-- ===== src/Scanner/Builder.antt =====
-- internal/scanner/builder/builder.go, and the ids of pkg/discovery/identity.go. The hash `stable` of
-- an id's parts is a parameter. A map from ids to positions is an association list.
pub mod Parts
pub mod Refill
pub mod Steps
pub mod Built
pub mod Known
pub mod Confidence
use barrikade_lens.Common.{
  ℕ, zero, suc, ◌+◌, Bool, true, false, ◌||◌, not, String, List, [], ◌∷◌, ◌++◌, Option, none, some,
  ◌==◌, leb, eqb, contains, length, if◌then◌else◌,
}
use barrikade_lens.Common.Sorting.{sort_by}
use barrikade_lens.Discovery.Values.{Value, Fields, bool, texts, end, field, get, put}
use barrikade_lens.Discovery.Types.{
  Entity, Relationship, Evidence, Snapshot, confidence_confirmed, confidence_likely,
  confidence_possible, observation_declared, observation_discovered, observation_observed,
}
use barrikade_lens.Discovery.Privacy.{trim_space}
use barrikade_lens.Discovery.Validation.{Checked, validate}
use barrikade_lens.Discovery.Merge.{normalize}

pub record Builder : Type 0 where
  pub snapshot : Snapshot
  pub entity_index : List (String × ℕ)
  pub evidence_index : List (String × ℕ)
  pub evidence_authority : List (String × Bool)
  pub relation_index : List (String × ℕ)

pub record Observation : Type 0 where
  pub detector_id : String
  pub detector_version : String
  pub method : String
  pub family : String
  pub specificity : String
  pub locator : String
  pub content_hash : String
  pub authoritative : Bool

-- New
unfoldable pub new_builder : Snapshot → Builder
new_builder s = record {
  snapshot = s;
  entity_index = [];
  evidence_index = [];
  evidence_authority = [];
  relation_index = [];
}

-- m[k], with the second result
pub lookup {ℓ} : {A : Type ℓ} → String → List (String × A) → Option A
lookup k [] = none
lookup k ((j, a) ∷ m) = if k == j then some a else lookup k m

-- The item at a position, `none` out of range.
pub item_at {ℓ} : {A : Type ℓ} → ℕ → List A → Option A
item_at i [] = none
item_at zero (x ∷ xs) = some x
item_at (suc i) (x ∷ xs) = item_at i xs

-- The item at a position is changed in place.
pub update_at {ℓ} : {A : Type ℓ} → ℕ → (A → A) → List A → List A
update_at i f [] = []
update_at zero f (x ∷ xs) = f x ∷ xs
update_at (suc i) f (x ∷ xs) = x ∷ update_at i f xs

is_true : Option Bool → Bool
is_true none = false
is_true (some b) = b

-- evidenceAuthority[ref], which is false for a missing key
unfoldable pub authority : Builder → String → Bool
unfolding lookup is_true
authority b ref = is_true (lookup ref b.evidence_authority)

at_position : Option ℕ → List Evidence → Option Evidence
unfolding item_at
at_position none l = none
at_position (some i) l = item_at i l

-- The evidence that `evidenceIndex` gives for a reference.
unfoldable pub evidence_of : Builder → String → Option Evidence
unfolding at_position lookup
evidence_of b ref = at_position (lookup ref b.evidence_index) b.snapshot.evidence

-- The texts that are not blank, once.
pub given_once : List String → List String
given_once [] = []
given_once (item ∷ rest) =
    let seen = given_once rest in
    if trim_space item == "" || contains seen item then seen else item ∷ seen

pub union : List String → List String → List String
unfolding given_once
union existing additions = sort_by (λ item. item) (given_once (existing ++ additions))

-- The value of a key that both maps have, if it changes.
pub both_values : Value → Value → Option Value
unfolding union
both_values (bool a) (bool b) = some (bool (a || b))
both_values (texts a) (texts b) = some (texts (union a b))
both_values _ _ = none

pub merge_attribute : Fields → String → Value → Option Value → Fields
unfolding both_values
merge_attribute target key value none = put key value target
merge_attribute target key value (some current) = elim (both_values current value) [
  | none ↦ target
  | some joined ↦ put key joined target
]

pub merge_attributes : Fields → Fields → Fields
unfolding merge_attribute
merge_attributes target end = target
merge_attributes target (field key value rest) =
    merge_attributes (merge_attribute target key value (get key target)) rest

-- The variables of the loop in `confidence`.
pub record Tally : Type 0 where
  pub families : List String
  pub authoritative : Bool
  pub high : ℕ

pub count_family : Evidence → Tally → Tally
count_family e t =
    if e.specificity == "high"
    then if contains t.families e.family
      then t
      else record t { families = e.family ∷ t.families; high = t.high + 1 }
    else t

pub count_evidence : Builder → String → Option Evidence → Tally → Tally
unfolding count_family authority
count_evidence b ref none t = t
count_evidence b ref (some e) t =
    count_family e (record t { authoritative = authority b ref || t.authoritative })

pub tally : Builder → List String → Tally → Tally
unfolding count_evidence evidence_of
tally b [] t = t
tally b (ref ∷ refs) t = tally b refs (count_evidence b ref (evidence_of b ref) t)

pub level : Tally → String
level t =
    if t.authoritative || leb 2 t.high
    then confidence_confirmed
    else if eqb t.high 1
    then confidence_likely
    else confidence_possible

abbrev pub nothing_seen : Tally
nothing_seen = record { families = []; authoritative = false; high = 0 }

-- Builder.confidence
pub confidence : Builder → List String → String
unfolding tally level
confidence b refs = level (tally b refs nothing_seen)

pub is_observed_method : String → Bool
is_observed_method m = m == "system" || m == "process" || m == "listener" || m == "workload_uid"

pub is_declared_method : String → Bool
is_declared_method m =
    m == "descriptor"
    || m == "skill_descriptor"
    || m == "agent_descriptor"
    || m == "config_shape"
    || m == "config_file"
    || m == "manifest"

-- The loop of `observationState`, with `result` so far.
pub state_from : Builder → String → List String → String
unfolding evidence_of is_observed_method is_declared_method
state_from b result [] = result
state_from b result (ref ∷ refs) = elim (evidence_of b ref) [
  | none ↦ state_from b result refs
  | some e ↦
      let rest =
        state_from b (if is_declared_method e.method then observation_declared else result) refs in
      if is_observed_method e.method then observation_observed else rest
]

pub observation_state : Builder → List String → String
unfolding state_from
observation_state b refs = state_from b observation_discovered refs

-- Builder.Error
pub add_error : String → String → String → Bool → Builder → Builder
add_error detector_id code message retryable b = record b {
  snapshot = record b.snapshot {
    errors =
        b.snapshot.errors
        ++ record {
          detector_id = detector_id;
          code = code;
          message = message;
          retryable = retryable;
        }
          ∷ [];
    coverage = record b.snapshot.coverage {
      detectors_failed = b.snapshot.coverage.detectors_failed + 1;
      partial = true;
    };
  };
}

module _ (stable : List String → String) where
  pub observation_id : Builder → Observation → String
  observation_id b o = stable (
      "evidence" ∷ b.snapshot.source_id ∷ o.detector_id ∷ o.method ∷ o.locator ∷ o.content_hash
      ∷ [])

  pub new_evidence : Builder → String → Observation → Evidence
  new_evidence b id o = record {
    id = id;
    detector_id = o.detector_id;
    detector_version = o.detector_version;
    method = o.method;
    family = o.family;
    specificity = o.specificity;
    locator = o.locator;
    content_hash = o.content_hash;
    observed_at = b.snapshot.observed_at;
  }

  unfoldable pub place_evidence : Builder → String → Observation → Option ℕ → Builder
  unfolding authority new_evidence
  place_evidence b id o (some i) = record b {
    evidence_authority = (id, authority b id || o.authoritative) ∷ b.evidence_authority;
  }
  place_evidence b id o none = record b {
    evidence_index = (id, length b.snapshot.evidence) ∷ b.evidence_index;
    evidence_authority = (id, o.authoritative) ∷ b.evidence_authority;
    snapshot = record b.snapshot { evidence = b.snapshot.evidence ++ new_evidence b id o ∷ [] };
  }

  -- Builder.AddEvidence
  unfoldable pub add_evidence : Observation → Builder → String × Builder
  unfolding place_evidence lookup observation_id
  add_evidence o b =
      let id = observation_id b o in (id, place_evidence b id o (lookup id b.evidence_index))

  pub grown_entity : Builder → Fields → List String → Entity → Entity
  unfolding union confidence merge_attributes
  grown_entity b attributes refs e = record e {
    attributes = merge_attributes e.attributes attributes;
    evidence_refs = union e.evidence_refs refs;
    confidence = confidence b (union e.evidence_refs refs);
  }

  pub new_entity : Builder → String → String → String → String → Fields → List String → Entity
  unfolding union confidence
  new_entity b id kind canonical_key name attributes refs = record {
    id = id;
    kind = kind;
    canonical_key = canonical_key;
    name = name;
    attributes = attributes;
    confidence = confidence b refs;
    evidence_refs = union [] refs;
    provenance = [];
  }

  pub place_entity :
      Builder → String → String → String → String → Fields → List String → Option ℕ → Builder
  unfolding grown_entity new_entity update_at
  place_entity b id kind canonical_key name attributes refs (some i) = record b {
    snapshot = record b.snapshot {
      entities = update_at i (grown_entity b attributes refs) b.snapshot.entities;
    };
  }
  place_entity b id kind canonical_key name attributes refs none = record b {
    entity_index = (id, length b.snapshot.entities) ∷ b.entity_index;
    snapshot = record b.snapshot {
      entities =
          b.snapshot.entities ++ new_entity b id kind canonical_key name attributes refs ∷ [];
    };
  }

  -- Builder.AddEntity
  pub add_entity : String → String → String → Fields → List String → Builder → String × Builder
  unfolding place_entity lookup
  add_entity kind canonical_key name attributes refs b =
      let id = stable ("entity" ∷ b.snapshot.organization_id ∷ kind ∷ canonical_key ∷ []) in
      (id, place_entity b id kind canonical_key name attributes refs (lookup id b.entity_index))

  pub grown_relationship : Builder → Fields → List String → Relationship → Relationship
  unfolding union confidence observation_state merge_attributes
  grown_relationship b attributes refs r = record r {
    attributes = merge_attributes r.attributes attributes;
    evidence_refs = union r.evidence_refs refs;
    confidence = confidence b (union r.evidence_refs refs);
    observation_state = observation_state b (union r.evidence_refs refs);
  }

  pub new_relationship :
      Builder → String → String → String → String → Fields → List String → Relationship
  unfolding union confidence observation_state
  new_relationship b id kind from to attributes refs = record {
    id = id;
    kind = kind;
    from = from;
    to = to;
    attributes = attributes;
    confidence = confidence b refs;
    evidence_refs = union [] refs;
    surface = b.snapshot.source_type;
    observed_at = b.snapshot.observed_at;
    observation_state = observation_state b refs;
  }

  pub place_relationship :
      Builder → String → String → String → String → Fields → List String → Option ℕ → Builder
  unfolding grown_relationship new_relationship update_at
  place_relationship b id kind from to attributes refs (some i) = record b {
    snapshot = record b.snapshot {
      relationships = update_at i (grown_relationship b attributes refs) b.snapshot.relationships;
    };
  }
  place_relationship b id kind from to attributes refs none = record b {
    relation_index = (id, length b.snapshot.relationships) ∷ b.relation_index;
    snapshot = record b.snapshot {
      relationships =
          b.snapshot.relationships ++ new_relationship b id kind from to attributes refs ∷ [];
    };
  }

  -- Builder.AddRelationship
  pub add_relationship :
      String → String → String → Fields → List String → Builder → String × Builder
  unfolding place_relationship lookup
  add_relationship kind from to attributes refs b =
      let id = stable ("relationship" ∷ b.snapshot.organization_id ∷ kind ∷ from ∷ to ∷ []) in
      (id, place_relationship b id kind from to attributes refs (lookup id b.relation_index))

-- Builder.Finish
pub finish : (String → Bool) → Builder → Snapshot × Checked
finish is_timestamp b = let s = normalize b.snapshot in (s, validate is_timestamp s)
