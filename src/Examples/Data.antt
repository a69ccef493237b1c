-- ===== src/Examples/Data.antt =====
-- Snapshots for the tests.
use barrikade_lens.Common.{Bool, true, false, String, [], ◌∷◌, ◌==◌}
use barrikade_lens.Discovery.Values.{end, field, bool, text, items, object, nil, cons}
use barrikade_lens.Discovery.Types.{Entity, Relationship, Evidence, Snapshot}

abbrev pub any_time : String → Bool
any_time s = s == "2026-01-01T00:00:00Z"

abbrev pub now : String
now = "2026-01-01T00:00:00Z"

abbrev pub evidence_a : Evidence
evidence_a = record {
  id = "ev-a";
  detector_id = "lens.endpoint";
  detector_version = "1";
  method = "process";
  family = "runtime";
  specificity = "high";
  locator = "";
  content_hash = "";
  observed_at = now;
}

abbrev pub evidence_b : Evidence
evidence_b = record evidence_a { id = "ev-b"; method = "manifest"; family = "source" }

abbrev pub host : Entity
host = record {
  id = "en-host";
  kind = "endpoint";
  canonical_key = "";
  name = "laptop ";
  attributes = field "running_at_scan" (bool false) end;
  confidence = "likely";
  evidence_refs = "ev-a" ∷ [];
  provenance = [];
}

abbrev pub tool : Entity
tool = record host {
  id = "en-agent";
  kind = "agent";
  name = "agent";
  attributes = field "tools" (items (cons (object (field "name" (text "search") end)) nil)) end;
  evidence_refs = [];
}

abbrev pub runs_on : Relationship
runs_on = record {
  id = "re-1";
  kind = "runs_on";
  from = "en-agent";
  to = "en-host";
  attributes = end;
  confidence = "possible";
  evidence_refs = "ev-a" ∷ [];
  surface = "endpoint";
  observed_at = now;
  observation_state = "observed";
}

abbrev pub left : Snapshot
left = record {
  schema_version = "1.3";
  snapshot_id = "snap-1";
  organization_id = "org";
  source_id = "src";
  target_id = "target";
  source_type = "endpoint";
  collector = record { id = "lens"; name = "Lens"; version = "2"; mode = "managed" };
  observed_at = now;
  full = true;
  sequence = 7;
  scope = record { name = ""; attributes = [] };
  entities = tool ∷ host ∷ [];
  relationships = runs_on ∷ [];
  evidence = evidence_a ∷ [];
  coverage = record {
    detectors_run = 1;
    detectors_failed = 0;
    locations_checked = 2;
    locations_denied = 0;
    partial = false;
    notes = [];
  };
  errors = [];
}

abbrev pub right : Snapshot
right = record left {
  snapshot_id = "snap-2";
  entities =
      record host {
        attributes = field "running_at_scan" (bool true) end;
        confidence = "confirmed";
        evidence_refs = "ev-b" ∷ [];
      }
      ∷ [];
  relationships = [];
  evidence = evidence_b ∷ [];
}

-- A scan of a repository, with a relationship of its own.
abbrev pub repository : Snapshot
repository = record left {
  snapshot_id = "snap-3";
  source_type = "repository";
  relationships = record runs_on { id = "re-2"; surface = "repository" } ∷ [];
}
