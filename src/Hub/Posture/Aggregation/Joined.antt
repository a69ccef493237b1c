-- ===== src/Hub/Posture/Aggregation/Joined.antt =====
-- What the aggregate of an entity keeps of its observations (internal/hub/posture.go).
use barrikade_lens.Common.{
  ℕ, ◌≤◌, Bool, true, ◌&&◌, ◌||◌, not, String, List, [], ◌∷◌, Option, none, some, ◌==◌, ◌≡◌, refl,
  sym, ap, ◌∙◌, subst, arith, eq_iff, ltb, contains, contains-append, Distinct, any, All,
  if◌then◌else◌, ok, ok-inj, err-ne-ok, >>=-eq-ok, Bool-cases, Option-cases, inl, inr,
}
use barrikade_lens.Common.Sorting.{
  IsSorted, sort_texts-contains, sort_texts-Distinct, sort_texts-IsSorted,
}
use barrikade_lens.Discovery.Values.{Value, Fields, field, end, get, keys, keys-put, get-missing}
use barrikade_lens.Hub.Posture.Aggregation.{
  AggregateEntity, ObservationRow, ConflictValue, Gathered, confidence_rank, texts_once,
  given_texts, joined_value, note_conflict, gather_value, gather_attributes, gather_rows, strongest,
  all_provenance, aggregate_entity,
}

abbrev pub keys_of : Option Fields → List String
keys_of none = []
keys_of (some m) = keys m

-- The aggregate of the rows: no row is more confident, and one is as confident; the provenance has the
-- given texts of all rows, sorted and once; and an attribute is there if a row has it.
pub record IsAggregate (rows : List ObservationRow) (a : AggregateEntity) : Type 0 where
  pub strongest : All (λ row. confidence_rank row.confidence ≤ confidence_rank a.confidence) rows
  pub confident : any (λ row. row.confidence == a.confidence) rows ≡ true
  pub provenance :
      (k : String)
      → contains a.provenance k ≡ (not (k == "") && any (λ row. contains row.provenance k) rows)
  pub sorted : IsSorted (λ k. k) a.provenance
  pub distinct : Distinct a.provenance
  pub attributes :
      (k : String)
      → contains (keys a.attributes) k ≡ any (λ row. contains (keys_of row.attributes) k) rows

texts_once-contains : (l : List String) (k : String) → contains (texts_once l) k ≡ contains l k
unfolding texts_once
texts_once-contains [] k = refl
texts_once-contains (t ∷ ts) k =
    ground (arith, texts_once-contains ts k, texts_once-contains ts t, eq_iff k t)

texts_once-Distinct : (l : List String) → Distinct (texts_once l)
unfolding texts_once
texts_once-Distinct [] = tt
texts_once-Distinct (t ∷ ts) = ground (arith, texts_once-Distinct ts)

given_texts-contains :
    (l : List String) (k : String) → contains (given_texts l) k ≡ (not (k == "") && contains l k)
unfolding given_texts
given_texts-contains [] k = ground arith
given_texts-contains (t ∷ ts) k =
    ground (arith, given_texts-contains ts k, eq_iff k t, eq_iff t "", eq_iff k "")

module _ (canonical_json : Value → String) (deep_equal : Value → Value → Bool) where
  all_provenance-contains :
      (rows : List ObservationRow) (k : String)
      → contains (all_provenance canonical_json deep_equal rows) k
        ≡ any (λ row. contains row.provenance k) rows
  unfolding all_provenance
  all_provenance-contains [] k = refl
  all_provenance-contains (row ∷ rows) k =
      contains-append row.provenance _ k
      ∙ ap (λ b. contains row.provenance k || b) (all_provenance-contains rows k)

  rank_step :
      (c d : String) (top : ℕ)
      → confidence_rank (if ltb (confidence_rank c) (confidence_rank d) then d else c) ≤ top
      → (confidence_rank c ≤ top) × (confidence_rank d ≤ top)
  rank_step c d top h = elim (Bool-cases (ltb (confidence_rank c) (confidence_rank d))) [
    | inl e ↦ let k = rw e at h in ground (arith, e, k)
    | inr e ↦ let k = rw e at h in ground (arith, e, k)
  ]

  strongest-All :
      (c : String) (rows : List ObservationRow) (top : ℕ)
      → confidence_rank (strongest canonical_json deep_equal c rows) ≤ top
      → (confidence_rank c ≤ top) × All (λ row. confidence_rank row.confidence ≤ top) rows
  unfolding strongest
  strongest-All c [] top h = (h, tt)
  strongest-All c (row ∷ rows) top h =
      let (p, ps) =
        strongest-All
          (if ltb (confidence_rank c) (confidence_rank row.confidence) then row.confidence else c)
          rows top h in
      let (q, r) = rank_step c row.confidence top p in (q, (r, ps))

  strongest_given :
      (c : String) (rows : List ObservationRow) (t : String)
      → strongest canonical_json deep_equal c rows ≡ t
      → (t == c || any (λ row. row.confidence == t) rows) ≡ true
  unfolding strongest
  strongest_given c [] t h = ground (arith, h, eq_iff t c)
  strongest_given c (row ∷ rows) t h =
      elim (Bool-cases (ltb (confidence_rank c) (confidence_rank row.confidence))) [
        | inl e ↦
            let k = strongest_given row.confidence rows t (rw e at h) in
            ground (arith, k, eq_iff t row.confidence, eq_iff row.confidence t)
        | inr e ↦ let k = strongest_given c rows t (rw e at h) in ground (arith, k)
      ]

  first_given :
      (row : ObservationRow) (rows : List ObservationRow) (t : String)
      → (t == row.confidence || any (λ r. r.confidence == t) (row ∷ rows)) ≡ true
      → any (λ r. r.confidence == t) (row ∷ rows) ≡ true
  first_given row rows t h = ground (arith, h, eq_iff t row.confidence, eq_iff row.confidence t)

  value_given :
      (key : String) (m : Fields) (v : Value) → get key m ≡ some v → contains (keys m) key ≡ true
  value_given key m v h = elim (Bool-cases (contains (keys m) key)) [
    | inl e ↦ e
    | inr e ↦ absurd (ground (arith, get-missing key m e, h))
  ]

  gather_value-keys :
      (key source : String) (value : Value) (g : Gathered) (k : String)
      → contains
          (keys
            (gather_value canonical_json deep_equal key source value
              (get key g.attributes)
              g).attributes)
          k
        ≡ (k == key || contains (keys g.attributes) k)
  unfolding gather_value note_conflict
  gather_value-keys key source value g k = elim (Option-cases (get key g.attributes)) [
    | inl e ↦ rw e (keys-put key k value g.attributes)
    | inr (current, e) ↦
        let here = value_given key g.attributes current e in
        elim (Option-cases (joined_value canonical_json current value)) [
          | inr (joined, j) ↦ rw (e, j, gather_value) (keys-put key k joined g.attributes)
          | inl j ↦ elim (Bool-cases (deep_equal current value)) [
            | inl d ↦ rw (e, j, d, gather_value) (ground (arith, here, eq_iff k key))
            | inr d ↦ rw (e, j, d, gather_value) (ground (arith, here, eq_iff k key))
          ]
        ]
  ]

  gather_attributes-keys :
      (source : String) (m : Fields) (g : Gathered) (k : String)
      → contains (keys (gather_attributes canonical_json deep_equal source m g).attributes) k
        ≡ (contains (keys m) k || contains (keys g.attributes) k)
  unfolding gather_attributes
  gather_attributes-keys source end g k = refl
  gather_attributes-keys source (field key v rest) g k =
      gather_attributes-keys source rest _ k
      ∙ ap (λ b. contains (keys rest) k || b) (gather_value-keys key source v g k)
      ∙ turned (contains (keys rest) k) (k == key) (contains (keys g.attributes) k)
    where
      turned : (a b c : Bool) → (a || (b || c)) ≡ ((b || a) || c)
      turned a b c = ground arith

  gather_rows-keys :
      (rows : List ObservationRow) (g r : Gathered) (k : String)
      → gather_rows canonical_json deep_equal rows g ≡ ok r
      → contains (keys r.attributes) k
        ≡ (any (λ row. contains (keys_of row.attributes) k) rows || contains (keys g.attributes) k)
  unfolding gather_rows
  gather_rows-keys [] g r k h = ap (λ x. contains (keys x.attributes) k) (sym (ok-inj h))
  gather_rows-keys (row ∷ rows) g r k h = elim (Option-cases row.attributes) [
    | inl e ↦ absurd (err-ne-ok (rw (e, gather_rows) at h))
    | inr (m, e) ↦
        let later = gather_rows-keys rows _ r k (rw (e, gather_rows) at h) in
        let here = gather_attributes-keys row.source_id m g k in
        rw e (
          later
          ∙ ap (λ b. any (λ row. contains (keys_of row.attributes) k) rows || b) here
          ∙ turned _ (contains (keys m) k) (contains (keys g.attributes) k))
  ]
    where
      turned : (a b c : Bool) → (a || (b || c)) ≡ ((b || a) || c)
      turned a b c = ground arith

  -- What is aggregated of the observations of an entity is the aggregate of all of them: the greatest
  -- confidence, the given provenance, and the keys of the attributes.
  pub aggregate_entity-IsAggregate :
      (rows : List ObservationRow) (a : AggregateEntity)
      (conflicts : List (String × List ConflictValue))
      → aggregate_entity canonical_json deep_equal rows ≡ ok (a, conflicts)
      → IsAggregate rows a
  unfolding aggregate_entity
  aggregate_entity-IsAggregate [] a conflicts h = absurd (err-ne-ok h)
  aggregate_entity-IsAggregate (row ∷ rows) a conflicts h =
      let (g, p, q) = >>=-eq-ok (gather_rows canonical_json deep_equal (row ∷ rows) _) _ h in
      let all = all_provenance canonical_json deep_equal (row ∷ rows) in
      subst (λ x. IsAggregate (row ∷ rows) x.0) (ok-inj q)
        (record {
          strongest = (strongest-All row.confidence (row ∷ rows) _ (ground arith)).1;
          confident = first_given row rows _ (strongest_given row.confidence (row ∷ rows) _ refl);
          provenance = λ k.
              sort_texts-contains (texts_once (given_texts all)) k
              ∙ texts_once-contains (given_texts all) k
              ∙ given_texts-contains all k
              ∙ ap (λ b. not (k == "") && b) (all_provenance-contains (row ∷ rows) k);
          sorted = sort_texts-IsSorted (texts_once (given_texts all));
          distinct = sort_texts-Distinct _ (texts_once-Distinct (given_texts all));
          attributes = λ k. gather_rows-keys (row ∷ rows) _ g k p ∙ ground arith;
        })
