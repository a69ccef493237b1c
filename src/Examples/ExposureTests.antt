-- ===== src/Examples/ExposureTests.antt =====
-- Tests of internal/hub/exposure.go, and instances of its theorems.
use barrikade_lens.Common.{
  true, false, ◌&&◌, ◌||◌, not, String, List, [], ◌∷◌, ◌++◌, Option, none, some, ◌==◌, ◌≡◌, ◌↔◌,
  refl, any, ok,
}
use barrikade_lens.Common.Sorting.{sort_texts}
use barrikade_lens.Discovery.Privacy.{trim_dot}
use barrikade_lens.Discovery.Values.{Value, bool, text, field, end}
use barrikade_lens.Hub.Exposure.{
  EntityContext, ExposureDestination, ExposureFinding, Address, attribute_string, has_suffix,
  is_public_destination, lower_severity, bool_value,
}
use barrikade_lens.Hub.Exposure.Rules.{
  Root, DestinationRow, Reads, destination_of, host_of, root_findings, evaluate, findings_of,
}
use barrikade_lens.Hub.Exposure.Rules.Sound.{raises, targeted, raises-root_findings}
use barrikade_lens.Hub.Exposure.Table.{FindingRow, Tables, is_row}
use barrikade_lens.Hub.Exposure.Table.Current.{find_row, shown, last_content}
use barrikade_lens.Hub.Exposure.Jobs.{
  ExposureJob, Database, is_due, earlier, next_job, enqueue, replace_findings, run_one,
}
use barrikade_lens.Hub.Exposure.Jobs.FirstSeen.{SeenAt, replace_findings-SeenAt}
use barrikade_lens.Hub.Exposure.Jobs.Outcome.{
  has_job, Evaluated, UndoneOr, run_one-Evaluated, run_one-shown,
}
use barrikade_lens.Hub.Exposure.Context.{validate_entity_context}
use barrikade_lens.Hub.Exposure.Context.Valid.{IsContext, validate_entity_context-ok_iff}

abbrev same : String → String
same s = s

abbrev no_address : String → Option Address
no_address s = none

abbrev no_host : String → Option String
no_host s = none

abbrev no_text : Value → String
no_text v = ""

abbrev unknown : EntityContext
unknown = record {
  owner_name = "";
  owner_type = "";
  environment = "";
  criticality = "";
  sensitivity = "";
  data_categories = [];
  trust_boundary = "";
  updated_by = "";
  updated_at = none;
}

abbrev agent : Root
agent = record { id = "r"; name = "agent"; state = "running"; attrs = end }

abbrev remote : DestinationRow
remote = record {
  id = "d";
  kind = "mcp_server";
  name = "remote";
  attributes = field "host" (text "api.example.com") (field "credential_present" (bool true) end);
}

abbrev reads : Reads String
reads = record {
  roots = ok (agent ∷ []);
  destination_rows = λ id. ok (remote ∷ []);
  catalog = λ id. none;
  context = λ id. unknown;
  declared_owner = λ id. false;
}

remote_destination : ExposureDestination
remote_destination = destination_of same no_address no_host (λ id. none) remote

is_remote : remote_destination.is_public && remote_destination.credential ≡ true
unfolding remote_destination destination_of host_of is_public_destination attribute_string
    bool_value has_suffix trim_dot
is_remote = refl

local_host : has_suffix ".local" "printer.local" ≡ true
unfolding has_suffix
local_host = refl

dotted : trim_dot "example.com." ≡ "example.com"
unfolding trim_dot
dotted = refl

lowered : lower_severity "critical" ≡ "high"
unfolding lower_severity
lowered = refl

raises-root_findings_example :
    raises "credentialed_external_connector" "d"
      (root_findings same (λ id. unknown) false agent (remote_destination ∷ []))
    ≡ (any
          (targeted (λ id. unknown) "credentialed_external_connector" "d" agent)
          (remote_destination ∷ [])
        || "" == ""
          && not false
          && "missing_owner" == "credentialed_external_connector"
          && "" == "d")
raises-root_findings_example =
    raises-root_findings same (λ id. unknown) false agent (remote_destination ∷ [])
      "credentialed_external_connector" "d"

abbrev old_finding : ExposureFinding
old_finding = record {
  id = "gone";
  root_id = "r";
  destination_id = "";
  rule_id = "missing_owner";
  severity = "low";
  title = "";
  explanation = "";
  recommendation = "";
  path = [];
  bases = [];
}

abbrev old_row : FindingRow
old_row = record {
  organization_id = "o";
  rule_version = "1";
  finding = old_finding;
  current = true;
  first_seen_at = 3;
  last_seen_at = 4;
  resolved_at = none;
}

abbrev tables : Tables
tables = record { findings = old_row ∷ []; history = [] }

abbrev job : ExposureJob
job = record {
  organization_id = "o";
  status = "pending";
  attempts = 0;
  next_attempt_at = 5;
  updated_at = 5;
}

abbrev database : Database
database = record { jobs = job ∷ []; tables = tables }

queued : enqueue 5 "o" [] ≡ job ∷ []
unfolding enqueue
queued = refl

due : next_job 9 database.jobs ≡ some job
unfolding next_job is_due earlier
due = refl

-- After the insertion into the history, that of the finding fails.
abbrev faults : List (Option String)
faults = none ∷ some "write" ∷ []

-- The job is taken and marked; the insertion of its finding fails.
abbrev late_faults : List (Option String)
late_faults = none ∷ none ∷ none ∷ none ∷ some "write" ∷ []

replace_findings-SeenAt_example :
    SeenAt "o" "gone" 3
      (replace_findings same no_text same same no_address no_host 9 "o"
        (old_finding ∷ [])
        (record { committed = database; working = database; faults = faults })).1.working
replace_findings-SeenAt_example =
    replace_findings-SeenAt same no_text same same no_address no_host 9 "o" "o" "gone" 3
      (old_finding ∷ []) (record { committed = database; working = database; faults = faults })
      (unfold is_row in refl)

run_one-Evaluated_example :
    UndoneOr same no_text same same no_address no_host database
      (Evaluated same no_text same same no_address no_host 9 (λ org. reads) database)
      (run_one same no_text same same no_address no_host 9
        (λ org. reads)
        "no rows"
        database
        late_faults)
run_one-Evaluated_example =
    run_one-Evaluated same no_text same same no_address no_host 9 (λ org. reads) "no rows" database
      late_faults

abbrev accepted : EntityContext
accepted = record unknown {
  owner_name = "Ada";
  owner_type = "person";
  sensitivity = "restricted";
  data_categories = "payment" ∷ "health" ∷ [];
}

validate_entity_context-ok_iff_example :
    (validate_entity_context accepted
      ≡ ok (record accepted { data_categories = sort_texts accepted.data_categories }))
    ↔ IsContext accepted
validate_entity_context-ok_iff_example = validate_entity_context-ok_iff accepted

abbrev found : List ExposureFinding
found = root_findings same (λ id. unknown) false agent (remote_destination ∷ []) ++ []

evaluated : evaluate same same no_address no_host reads ≡ ok found
unfolding evaluate findings_of remote_destination
evaluated = refl

run_one-shown_example :
    ((run_one same no_text same same no_address no_host 9 (λ org. reads) "no rows" database []).0
      ≡ ok tt)
    × (has_job "o"
          (run_one same no_text same same no_address no_host 9
            (λ org. reads)
            "no rows"
            database
            []).1.jobs
        ≡ false)
    × (shown (
          find_row "o" "gone"
            (run_one same no_text same same no_address no_host 9
              (λ org. reads)
              "no rows"
              database
              []).1.tables.findings)
        ≡ last_content "gone" found none)
run_one-shown_example =
    run_one-shown same no_text same same no_address no_host 9 (λ org. reads) "no rows" database []
      job found "gone" tt due evaluated
