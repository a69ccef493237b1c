-- ===== src/Hub/Exposure/Table.antt =====
-- internal/hub/exposure.go: how `recomputeOrganizationExposures` stores its findings, with the tables
-- exposure_findings and exposure_finding_history as lists. The primary key of both is the
-- organization with the id.
pub mod Current
use Prim.Native.String as Str
use barrikade_lens.Common.{
  ℕ, Bool, true, false, ◌&&◌, not, String, List, [], ◌∷◌, ◌++◌, map, Option, none, some, ◌==◌,
  if◌then◌else◌, contains,
}
use barrikade_lens.Discovery.Values.{
  Value, Values, Fields, null, text, texts, items, object, nil, cons, field, end,
}
use barrikade_lens.Hub.Exposure.{ExposureFinding, exposure_rule_version}

-- A row of exposure_findings.
pub record FindingRow : Type 0 where
  pub organization_id : String
  pub rule_version : String
  pub finding : ExposureFinding
  pub current : Bool
  pub first_seen_at : ℕ
  pub last_seen_at : ℕ
  pub resolved_at : Option ℕ

-- A row of exposure_finding_history.
pub record HistoryRow : Type 0 where
  pub id : String
  pub organization_id : String
  pub finding_id : String
  pub state : String
  pub finding : Value

pub record Tables : Type 0 where
  pub findings : List FindingRow
  pub history : List HistoryRow

abbrev pub finding_key : ExposureFinding → String
finding_key finding = finding.id

-- nullString, as the JSON encoder sees it
null_text : String → Value
null_text s = if s == "" then null else text s

path_items : List Fields → Values
path_items [] = nil
path_items (step ∷ path) = cons (object step) (path_items path)

-- historyValue, and jsonb_build_object of a row
unfoldable pub history_value : String → ExposureFinding → Value
unfolding null_text path_items
history_value rule_version finding = object (
    field "id" (text finding.id) (
      field "root_entity_id" (text finding.root_id) (
        field "destination_entity_id" (null_text finding.destination_id) (
          field "rule_id" (text finding.rule_id) (
            field "rule_version" (text rule_version) (
              field "severity" (text finding.severity) (
                field "title" (text finding.title) (
                  field "explanation" (text finding.explanation) (
                    field "recommended_next_step" (text finding.recommendation) (
                      field "path" (items (path_items finding.path))
                        (field "evidence_bases" (texts finding.bases) end)))))))))))

-- organization_id = $1 AND id = $2
unfoldable pub is_row : String → String → FindingRow → Bool
is_row org id row = row.organization_id == org && row.finding.id == id

-- ON CONFLICT(organization_id,id) DO UPDATE; the rule, the root and the destination stay.
pub renewed_row : ℕ → ExposureFinding → FindingRow → FindingRow
renewed_row now finding row = record row {
  finding = record row.finding {
    severity = finding.severity;
    title = finding.title;
    explanation = finding.explanation;
    recommendation = finding.recommendation;
    path = finding.path;
    bases = finding.bases;
  };
  current = true;
  last_seen_at = now;
  resolved_at = none;
}

pub first_row : ℕ → String → ExposureFinding → FindingRow
first_row now org finding = record {
  organization_id = org;
  rule_version = exposure_rule_version;
  finding = finding;
  current = true;
  first_seen_at = now;
  last_seen_at = now;
  resolved_at = none;
}

-- INSERT INTO exposure_findings ... ON CONFLICT(organization_id,id) DO UPDATE
pub upsert_finding : ℕ → String → ExposureFinding → List FindingRow → List FindingRow
upsert_finding now org finding [] = first_row now org finding ∷ []
upsert_finding now org finding (row ∷ rows) =
    let rest = upsert_finding now org finding rows in
    if is_row org finding.id row then renewed_row now finding row ∷ rows else row ∷ rest

-- INSERT INTO exposure_finding_history ... ON CONFLICT(organization_id,id) DO NOTHING
unfoldable pub insert_history : HistoryRow → List HistoryRow → List HistoryRow
insert_history entry [] = entry ∷ []
insert_history entry (row ∷ rows) =
    let rest = insert_history entry rows in
    if row.organization_id == entry.organization_id && row.id == entry.id
    then row ∷ rows
    else row ∷ rest

-- organization_id=$1 AND current=true AND NOT(id=ANY($2))
pub is_stale : String → List String → FindingRow → Bool
is_stale org ids row =
    row.organization_id == org && row.current && not (contains ids row.finding.id)

pub resolved_row : ℕ → FindingRow → FindingRow
resolved_row now row = record row { current = false; resolved_at = some now; last_seen_at = now }

pub resolve_stale : ℕ → String → List String → List FindingRow → List FindingRow
resolve_stale now org ids [] = []
resolve_stale now org ids (row ∷ rows) =
    let rest = resolve_stale now org ids rows in
    if is_stale org ids row then resolved_row now row ∷ rest else row ∷ rest

-- `marshal` is json.Marshal, `uuid` what gen_random_uuid gives for each finding.
module _ (content_hash : String → String) (marshal : Value → String) (uuid : String → String) where
  unfoldable pub current_entry : String → ExposureFinding → HistoryRow
  current_entry org finding = record {
    id = content_hash (
        Str.◌++◌ "current\0" (
          Str.◌++◌ finding.id
            (Str.◌++◌ "\0" (marshal (history_value exposure_rule_version finding)))));
    organization_id = org;
    finding_id = finding.id;
    state = "current";
    finding = history_value exposure_rule_version finding;
  }

  unfoldable pub resolved_entry : FindingRow → HistoryRow
  resolved_entry row = record {
    id = uuid row.finding.id;
    organization_id = row.organization_id;
    finding_id = row.finding.id;
    state = "resolved";
    finding = history_value row.rule_version row.finding;
  }

  -- INSERT INTO exposure_finding_history, of a finding
  unfoldable pub add_entry : String → ExposureFinding → Tables → Tables
  add_entry org finding tables = record tables {
    history = insert_history (current_entry org finding) tables.history;
  }

  -- INSERT INTO exposure_findings
  unfoldable pub add_finding : ℕ → String → ExposureFinding → Tables → Tables
  add_finding now org finding tables = record tables {
    findings = upsert_finding now org finding tables.findings;
  }

  unfoldable pub resolved_entries : String → List String → List FindingRow → List HistoryRow
  resolved_entries org ids [] = []
  resolved_entries org ids (row ∷ rows) =
      let rest = resolved_entries org ids rows in
      if is_stale org ids row then resolved_entry row ∷ rest else rest

  -- INSERT INTO exposure_finding_history ... SELECT, of the findings that are resolved
  unfoldable pub add_resolved : String → List String → Tables → Tables
  add_resolved org ids tables = record tables {
    history = tables.history ++ resolved_entries org ids tables.findings;
  }

  -- UPDATE exposure_findings SET current=false
  unfoldable pub mark_resolved : ℕ → String → List String → Tables → Tables
  mark_resolved now org ids tables = record tables {
    findings = resolve_stale now org ids tables.findings;
  }
