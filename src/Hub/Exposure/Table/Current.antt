-- ===== src/Hub/Exposure/Table/Current.antt =====
-- What the findings table shows after a recompute (internal/hub/exposure.go), against a map from ids to
-- findings as the specification.
use barrikade_lens.Common.{
  ℕ, Bool, true, false, ◌&&◌, not, String, List, [], ◌∷◌, map, Option, none, some, ◌==◌, ◌≡◌, ◌≢◌,
  refl, sym, ◌∙◌, ap, arith, eq_iff, if◌then◌else◌, contains, Bool-cases, inl, inr,
}
use barrikade_lens.Discovery.Values.{Value, Fields}
use barrikade_lens.Hub.Exposure.{ExposureFinding}
use barrikade_lens.Hub.Exposure.Table.{
  FindingRow, Tables, is_row, renewed_row, first_row, upsert_finding, is_stale, resolved_row,
  resolve_stale, finding_key, add_entry, add_finding, add_resolved, mark_resolved,
}

-- What a recompute decides of a finding.
pub record Content : Type 0 where
  pub severity : String
  pub title : String
  pub explanation : String
  pub recommendation : String
  pub path : List Fields
  pub bases : List String

abbrev pub content : ExposureFinding → Content
content finding = record {
  severity = finding.severity;
  title = finding.title;
  explanation = finding.explanation;
  recommendation = finding.recommendation;
  path = finding.path;
  bases = finding.bases;
}

-- The specification: the last finding with an id, and `before` if there is none.
abbrev pub last_content : String → List ExposureFinding → Option Content → Option Content
last_content id [] before = before
last_content id (finding ∷ rest) before =
    last_content id rest (if finding.id == id then some (content finding) else before)

-- The row of a key.
abbrev pub find_row : String → String → List FindingRow → Option FindingRow
find_row org id [] = none
find_row org id (row ∷ rows) = if is_row org id row then some row else find_row org id rows

abbrev pub shown : Option FindingRow → Option Content
shown none = none
shown (some row) = if row.current then some (content row.finding) else none

abbrev pub first_seen : Option FindingRow → Option ℕ
first_seen none = none
first_seen (some row) = some row.first_seen_at

abbrev upserted : ℕ → String → ExposureFinding → Option FindingRow → Option FindingRow
upserted now org finding none = some (first_row now org finding)
upserted now org finding (some row) = some (renewed_row now finding row)

find_row-upsert_finding :
    (now : ℕ) (org o id : String) (finding : ExposureFinding) (rows : List FindingRow)
    → find_row o id (upsert_finding now org finding rows) ≡ (
        if org == o && finding.id == id
        then upserted now org finding (find_row o id rows)
        else find_row o id rows)
unfolding upsert_finding is_row first_row renewed_row
find_row-upsert_finding now org o id finding [] = ground arith
find_row-upsert_finding now org o id finding (row ∷ rows) = ground (
  arith,
  eq_iff org o,
  eq_iff finding.id id,
  eq_iff row.organization_id o,
  eq_iff row.organization_id org,
  eq_iff row.finding.id id,
  eq_iff row.finding.id finding.id,
  find_row-upsert_finding now org o id finding rows,
)

abbrev resolved : ℕ → String → List String → String → String → Option FindingRow → Option FindingRow
resolved now org ids o id none = none
resolved now org ids o id (some row) =
    if o == org && row.current && not (contains ids id)
    then some (resolved_row now row)
    else some row

stale_row :
    (org : String) (ids : List String) (o id : String) (row : FindingRow)
    → is_row o id row ≡ true
    → is_stale org ids row ≡ (o == org && row.current && not (contains ids id))
unfolding is_row is_stale
stale_row org ids o id row h =
    ground (arith, eq_iff row.organization_id o, eq_iff row.finding.id id)

found_first :
    (now : ℕ) (o id : String) (row : FindingRow) (s : Bool) (rest : List FindingRow)
    → find_row o id (if s then resolved_row now row ∷ rest else row ∷ rest) ≡ (
        if is_row o id row
        then if s then some (resolved_row now row) else some row
        else find_row o id rest)
unfolding is_row resolved_row
found_first now o id row true rest = refl
found_first now o id row false rest = refl

find_row-resolve_stale :
    (now : ℕ) (org : String) (ids : List String) (o id : String) (rows : List FindingRow)
    → find_row o id (resolve_stale now org ids rows)
      ≡ resolved now org ids o id (find_row o id rows)
unfolding resolve_stale
find_row-resolve_stale now org ids o id [] = refl
find_row-resolve_stale now org ids o id (row ∷ rows) =
    found_first now o id row (is_stale org ids row) (resolve_stale now org ids rows)
    ∙ elim (Bool-cases (is_row o id row)) [
      | inl e ↦ rw (e, stale_row org ids o id row e) refl
      | inr e ↦ rw e (find_row-resolve_stale now org ids o id rows)
    ]

-- The row of a key after the loop over the findings.
abbrev stored :
    ℕ → String → String → String → List ExposureFinding → Option FindingRow → Option FindingRow
stored now org o id [] row = row
stored now org o id (finding ∷ rest) row =
    stored now org o id rest
      (if org == o && finding.id == id then upserted now org finding row else row)

module _ (content_hash : String → String) (marshal : Value → String) (uuid : String → String) where
  -- What the statements of a recompute come to if none fails.
  unfoldable pub all_stored : ℕ → String → List ExposureFinding → Tables → Tables
  all_stored now org [] tables = tables
  all_stored now org (finding ∷ rest) tables = all_stored now org rest (
      add_finding content_hash marshal uuid now org finding
        (add_entry content_hash marshal uuid org finding tables))

  unfoldable pub all_replaced : ℕ → String → List ExposureFinding → Tables → Tables
  all_replaced now org findings tables =
      mark_resolved content_hash marshal uuid now org (map finding_key findings) (
        add_resolved content_hash marshal uuid org (map finding_key findings)
          (all_stored now org findings tables))

  find_row-all_stored :
      (now : ℕ) (org o id : String) (findings : List ExposureFinding) (tables : Tables)
      → find_row o id (all_stored now org findings tables).findings
        ≡ stored now org o id findings (find_row o id tables.findings)
  unfolding all_stored add_finding add_entry
  find_row-all_stored now org o id [] tables = refl
  find_row-all_stored now org o id (finding ∷ rest) tables =
      find_row-all_stored now org o id rest _
      ∙ ap (stored now org o id rest) (find_row-upsert_finding now org o id finding tables.findings)

  find_row-all_replaced :
      (now : ℕ) (org o id : String) (findings : List ExposureFinding) (tables : Tables)
      → find_row o id (all_replaced now org findings tables).findings
        ≡ resolved now org
            (map finding_key findings)
            o
            id
            (stored now org o id findings (find_row o id tables.findings))
  unfolding all_replaced mark_resolved add_resolved
  find_row-all_replaced now org o id findings tables =
      find_row-resolve_stale now org (map finding_key findings) o id _
      ∙ ap (resolved now org (map finding_key findings) o id)
          (find_row-all_stored now org o id findings tables)

shown-stored :
    (now : ℕ) (org id : String) (findings : List ExposureFinding) (row : Option FindingRow)
    → shown (stored now org org id findings row) ≡ last_content id findings (shown row)
unfolding renewed_row first_row
shown-stored now org id [] row = refl
shown-stored now org id (finding ∷ rest) row =
    shown-stored now org id rest _ ∙ ap (last_content id rest) (ground (arith, eq_iff org org))

last_content-any :
    (id : String) (findings : List ExposureFinding) (a b : Option Content)
    → contains (map finding_key findings) id ≡ true
    → last_content id findings a ≡ last_content id findings b
last_content-any id [] a b h = ground arith
last_content-any id (finding ∷ rest) a b h = elim (Bool-cases (finding.id == id)) [
  | inl e ↦ rw e refl
  | inr e ↦
      rw e
        (last_content-any id rest a b (ground (arith, eq_iff finding.id id, eq_iff id finding.id)))
]

last_content-missing :
    (id : String) (findings : List ExposureFinding) (a : Option Content)
    → contains (map finding_key findings) id ≡ false
    → last_content id findings a ≡ a
last_content-missing id [] a h = refl
last_content-missing id (finding ∷ rest) a h =
    ground (arith, eq_iff finding.id id, eq_iff id finding.id, last_content-missing id rest a)

shown-resolved :
    (now : ℕ) (org : String) (ids : List String) (id : String) (row : Option FindingRow)
    → shown (resolved now org ids org id row) ≡ (if contains ids id then shown row else none)
unfolding resolved_row
shown-resolved now org ids id none = ground arith
shown-resolved now org ids id (some row) = ground (arith, eq_iff org org)

module _ (content_hash : String → String) (marshal : Value → String) (uuid : String → String) where
  -- After a recompute without a fault the table shows, for the organization and each id, the last of
  -- the findings with that id, and nothing where there is none, whatever it held before.
  pub all_replaced-shown :
      (now : ℕ) (org id : String) (findings : List ExposureFinding) (tables : Tables)
      → shown (
          find_row org id (all_replaced content_hash marshal uuid now org findings tables).findings)
        ≡ last_content id findings none
  all_replaced-shown now org id findings tables =
      ap shown (find_row-all_replaced content_hash marshal uuid now org org id findings tables)
      ∙ shown-resolved now org (map finding_key findings) id _
      ∙ elim (Bool-cases (contains (map finding_key findings) id)) [
        | inl e ↦ rw e (shown-stored now org id findings _ ∙ last_content-any id findings _ none e)
        | inr e ↦ rw e (sym (last_content-missing id findings none e))
      ]

  stored_other :
      (now : ℕ) (org o id : String) (findings : List ExposureFinding) (row : Option FindingRow)
      → org ≢ o
      → stored now org o id findings row ≡ row
  stored_other now org o id [] row n = refl
  stored_other now org o id (finding ∷ rest) row n =
      stored_other now org o id rest _ n ∙ ground (arith, n, eq_iff org o)

  resolved_other :
      (now : ℕ) (org : String) (ids : List String) (o id : String) (row : Option FindingRow)
      → org ≢ o
      → resolved now org ids o id row ≡ row
  resolved_other now org ids o id none n = refl
  resolved_other now org ids o id (some row) n =
      ground (arith, n, eq_iff o org, λ (e : o ≡ org). n (sym e))

  -- A recompute without a fault changes no row of another organization.
  pub all_replaced_other :
      (now : ℕ) (org o id : String) (findings : List ExposureFinding) (tables : Tables)
      → org ≢ o
      → find_row o id (all_replaced content_hash marshal uuid now org findings tables).findings
        ≡ find_row o id tables.findings
  all_replaced_other now org o id findings tables n =
      find_row-all_replaced content_hash marshal uuid now org o id findings tables
      ∙ resolved_other now org (map finding_key findings) o id _ n
      ∙ stored_other now org o id findings _ n

first_seen-resolved :
    (now : ℕ) (org : String) (ids : List String) (o id : String) (row : Option FindingRow)
    → first_seen (resolved now org ids o id row) ≡ first_seen row
unfolding resolved_row
first_seen-resolved now org ids o id none = refl
first_seen-resolved now org ids o id (some row) = ground arith

-- An upsert keeps the time at which a stored finding was first seen, and so does resolving.
pub first_seen-upsert_finding :
    (now : ℕ) (org o id : String) (finding : ExposureFinding) (rows : List FindingRow) {at : ℕ}
    → first_seen (find_row o id rows) ≡ some at
    → first_seen (find_row o id (upsert_finding now org finding rows)) ≡ some at
unfolding renewed_row
first_seen-upsert_finding now org o id finding rows {at} h =
    ap first_seen (find_row-upsert_finding now org o id finding rows)
    ∙ renewed (find_row o id rows) (org == o && finding.id == id) h
  where
    renewed :
        (row : Option FindingRow) (b : Bool)
        → first_seen row ≡ some at
        → first_seen (if b then upserted now org finding row else row) ≡ some at
    renewed none b h = ground arith
    renewed (some row) true h = h
    renewed (some row) false h = h

pub first_seen-resolve_stale :
    (now : ℕ) (org : String) (ids : List String) (o id : String) (rows : List FindingRow)
    → first_seen (find_row o id (resolve_stale now org ids rows)) ≡ first_seen (find_row o id rows)
first_seen-resolve_stale now org ids o id rows =
    ap first_seen (find_row-resolve_stale now org ids o id rows)
    ∙ first_seen-resolved now org ids o id (find_row o id rows)
