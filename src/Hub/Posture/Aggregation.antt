-- ===== src/Hub/Posture/Aggregation.antt =====
-- internal/hub/posture.go: the aggregation of the observations of an entity or a relationship, from the
-- rows of its query in their order. A row whose attributes are not JSON has none. Values are decoded
-- JSON, so a clone is the value; the canonical encoder and reflect.DeepEqual are parameters.
pub mod Joined
use barrikade_lens.Common.{
  ℕ, Bool, true, false, ◌||◌, not, String, List, [], ◌∷◌, ◌++◌, map, Option, none, some, ◌==◌, ltb,
  contains, if◌then◌else◌, Result, ok, err, ◌>>=◌,
}
use barrikade_lens.Common.Sorting.{sort_by, sort_texts}
use barrikade_lens.Discovery.Values.{
  Value, Values, Fields, bool, items, nil, cons, field, end, get, put,
}

pub record AggregateEntity : Type 0 where
  pub name : String
  pub kind : String
  pub canonical_key : String
  pub attributes : Fields
  pub confidence : String
  pub provenance : List String

-- `observation`, whose time only the order of the rows uses
pub record ObservationRow : Type 0 where
  pub source_id : String
  pub name : String
  pub kind : String
  pub canonical : String
  pub attributes : Option Fields
  pub confidence : String
  pub provenance : List String

pub record AggregateRelationship : Type 0 where
  pub kind : String
  pub from : String
  pub to : String
  pub attributes : Fields
  pub confidence : String
  pub surfaces : List String
  pub observation_states : List String

pub record RelationshipRow : Type 0 where
  pub kind : String
  pub from : String
  pub to : String
  pub attributes : Option Fields
  pub confidence : String
  pub surface : String
  pub observation_state : String

pub data AggregateError : Type 0 where
  no_rows : AggregateError
  bad_attributes : AggregateError

-- confidenceRank
unfoldable pub confidence_rank : String → ℕ
confidence_rank c = if c == "confirmed" then 3 else if c == "likely" then 2 else 1

-- The keys of a set of texts, as they come.
unfoldable pub texts_once : List String → List String
texts_once [] = []
texts_once (t ∷ ts) = let rest = texts_once ts in if contains rest t then rest else t ∷ rest

unfoldable pub given_texts : List String → List String
given_texts [] = []
given_texts (t ∷ ts) = let rest = given_texts ts in if t == "" then rest else t ∷ rest

-- seen[key] = value
pub note_value : String → Value → List (String × Value) → List (String × Value)
note_value key v [] = (key, v) ∷ []
note_value key v ((k, w) ∷ rest) =
    let later = note_value key v rest in if key == k then (key, v) ∷ rest else (k, w) ∷ later

abbrev value_key : String × Value → String
value_key (k, v) = k

append_values : Values → Values → Values
append_values nil ws = ws
append_values (cons v vs) ws = cons v (append_values vs ws)

noted_values : List (String × Value) → Values
noted_values [] = nil
noted_values ((k, v) ∷ rest) = cons v (noted_values rest)

module _ (canonical_json : Value → String) where
  note_values : Values → List (String × Value) → List (String × Value)
  unfolding note_value
  note_values nil seen = seen
  note_values (cons v vs) seen = note_values vs (note_value (canonical_json v) v seen)

  -- mergeJSONArrays
  unfoldable pub merge_json_arrays : Value → Value → Option Value
  unfolding note_values append_values noted_values
  merge_json_arrays (items vs) (items ws) =
      some (items (noted_values (sort_by value_key (note_values (append_values vs ws) []))))
  merge_json_arrays left right = none

  -- The value for a key that both have, if there is one.
  unfoldable pub joined_value : Value → Value → Option Value
  joined_value (bool left) (bool right) = some (bool (left || right))
  joined_value current value = merge_json_arrays current value

  -- The loop over the attributes of a later row.
  unfoldable pub join_attributes : Fields → Fields → Fields
  join_attributes target end = target
  join_attributes target (field key value rest) =
      join_attributes
        (elim (get key target) [
          | none ↦ put key value target
          | some current ↦ elim (joined_value current value) [
            | none ↦ target
            | some joined ↦ put key joined target
          ]
        ])
        rest

  -- The rows after the first.
  unfoldable pub join_rows : Fields → List RelationshipRow → Result AggregateError Fields
  join_rows target [] = ok target
  join_rows target (row ∷ rows) = elim row.attributes [
    | none ↦ err bad_attributes
    | some attributes ↦ join_rows (join_attributes target attributes) rows
  ]

  -- aggregateRelationshipObservations
  unfoldable pub aggregate_relationship :
      List RelationshipRow → Result AggregateError AggregateRelationship
  aggregate_relationship [] = err no_rows
  aggregate_relationship (row ∷ rows) = elim row.attributes [
    | none ↦ err bad_attributes
    | some first ↦ join_rows first rows >>= λ attributes. ok (record {
      kind = row.kind;
      from = row.from;
      to = row.to;
      attributes = attributes;
      confidence = row.confidence;
      surfaces = sort_texts (texts_once (map (λ r. r.surface) (row ∷ rows)));
      observation_states = sort_texts (texts_once (map (λ r. r.observation_state) (row ∷ rows)));
    })
  ]

-- A value of a conflict, with its sources.
pub record ConflictValue : Type 0 where
  pub encoded : String
  pub value : Value
  pub sources : List String

-- What the loop over the observations has: the attributes, the source of each, and the conflicts.
pub record Gathered : Type 0 where
  pub attributes : Fields
  pub selected : List (String × String)
  pub conflicts : List (String × List ConflictValue)

unfoldable pub selected_source : String → List (String × String) → String
selected_source key [] = ""
selected_source key ((k, source) ∷ rest) =
    let later = selected_source key rest in if key == k then source else later

unfoldable pub add_source : String → Value → String → List ConflictValue → List ConflictValue
add_source encoded value source [] =
    record { encoded = encoded; value = value; sources = source ∷ [] } ∷ []
add_source encoded value source (c ∷ cs) =
    let later = add_source encoded value source cs in
    if c.encoded == encoded
    then record c { sources = if contains c.sources source then c.sources else source ∷ c.sources }
      ∷ cs
    else c ∷ later

unfoldable pub update_conflict :
    String
    → (List ConflictValue → List ConflictValue)
    → List (String × List ConflictValue)
    → List (String × List ConflictValue)
update_conflict key change [] = (key, change []) ∷ []
update_conflict key change ((k, values) ∷ rest) =
    let later = update_conflict key change rest in
    if key == k then (k, change values) ∷ rest else (k, values) ∷ later

module _ (canonical_json : Value → String) (deep_equal : Value → Value → Bool) where
  unfoldable pub note_conflict : String → String → Value → Value → Gathered → Gathered
  note_conflict key source current value g = record g {
    conflicts =
        update_conflict key
          (λ values.
            add_source (canonical_json value) value source
              (add_source (canonical_json current) current (selected_source key g.selected) values))
          g.conflicts;
  }

  unfoldable pub gather_value : String → String → Value → Option Value → Gathered → Gathered
  gather_value key source value none g = record g {
    attributes = put key value g.attributes;
    selected = (key, source) ∷ g.selected;
  }
  gather_value key source value (some current) g =
      elim (joined_value canonical_json current value) [
        | some joined ↦ record g { attributes = put key joined g.attributes }
        | none ↦ if deep_equal current value then g else note_conflict key source current value g
      ]

  unfoldable pub gather_attributes : String → Fields → Gathered → Gathered
  gather_attributes source end g = g
  gather_attributes source (field key value rest) g =
      gather_attributes source rest (gather_value key source value (get key g.attributes) g)

  unfoldable pub gather_rows : List ObservationRow → Gathered → Result AggregateError Gathered
  gather_rows [] g = ok g
  gather_rows (row ∷ rows) g = elim row.attributes [
    | none ↦ err bad_attributes
    | some attributes ↦ gather_rows rows (gather_attributes row.source_id attributes g)
  ]

  unfoldable pub strongest : String → List ObservationRow → String
  strongest confidence [] = confidence
  strongest confidence (row ∷ rows) =
      strongest
        (if ltb (confidence_rank confidence) (confidence_rank row.confidence)
          then row.confidence
          else confidence)
        rows

  unfoldable pub all_provenance : List ObservationRow → List String
  all_provenance [] = []
  all_provenance (row ∷ rows) = row.provenance ++ all_provenance rows

  -- aggregateEntityObservations, with the conflicts that it stores
  unfoldable pub aggregate_entity :
      List ObservationRow
      → Result AggregateError (AggregateEntity × List (String × List ConflictValue))
  aggregate_entity [] = err no_rows
  aggregate_entity (row ∷ rows) =
      gather_rows (row ∷ rows) (record { attributes = end; selected = []; conflicts = [] }) >>= λ g.
      ok (
        record {
          name = row.name;
          kind = row.kind;
          canonical_key = row.canonical;
          attributes = g.attributes;
          confidence = strongest row.confidence (row ∷ rows);
          provenance = sort_texts (texts_once (given_texts (all_provenance (row ∷ rows))));
        },
        g.conflicts,
      )
