-- ===== src/Managed/Profiles.antt =====
-- internal/managed/collector.go: `scanProfilesMode`. What endpoint.Scan gives for each profile is an
-- argument, with `none` for its error; strconv.Itoa is a parameter.
pub mod Names
pub mod Accepted
use barrikade_lens.Common.{
  ℕ, zero, suc, ◌+◌, Bool, true, false, ◌||◌, String, List, [], ◌∷◌, ◌++◌, Option, none, some, ◌==◌,
  eqb, Result, ok, err, if◌then◌else◌,
}
use barrikade_lens.Discovery.Types.{Snapshot}
use barrikade_lens.Discovery.Validation.{Problem, validate}
use barrikade_lens.Discovery.Merge.{MergeError, normalize, merge_snapshots}

pub data ScanFailure : Type 0 where
  no_profile_scanned : ScanFailure
  not_merged : MergeError → ScanFailure
  not_valid : Problem → ScanFailure

-- The variables of the loop; `combined` is `none` for the zero snapshot.
pub record Progress : Type 0 where
  pub combined : Option Snapshot
  pub failed : Bool
  pub scanned : ℕ

abbrev pub not_begun : Progress
not_begun = record { combined = none; failed = false; scanned = 0 }

pub replaced : Snapshot → Progress → Progress
replaced s p = record p { combined = some s; scanned = p.scanned + 1 }

pub merged_into : Progress → Result MergeError Snapshot → Result ScanFailure Progress
unfolding replaced
merged_into p (ok s) = ok (replaced s p)
merged_into p (err e) = err (not_merged e)

-- if combined.SnapshotID == "" { combined = snapshot } else { MergeSnapshots(&combined, snapshot) }
pub take_in : Snapshot → Option Snapshot → Progress → Result ScanFailure Progress
unfolding merged_into replaced
take_in s none p = ok (replaced s p)
take_in s (some c) p =
    if c.snapshot_id == "" then ok (replaced s p) else merged_into p (merge_snapshots c s)

pub scan_all : List (Option Snapshot) → Progress → Result ScanFailure Progress
unfolding take_in
scan_all [] p = ok p
scan_all (none ∷ rest) p = scan_all rest (record p { failed = true })
scan_all (some s ∷ rest) p = elim (take_in s p.combined p) [
  | err e ↦ err e
  | ok p' ↦ scan_all rest p'
]

-- m[k] = v
pub set_text : String → String → List (String × String) → List (String × String)
set_text k v [] = (k, v) ∷ []
set_text k v ((j, w) ∷ m) = if k == j then (j, v) ∷ m else (j, w) ∷ set_text k v m

module _ (is_timestamp : String → Bool) (itoa : ℕ → String) where
  -- What is written into the combined snapshot at the end.
  pub mark : String → String → Progress → Snapshot → Snapshot
  unfolding set_text
  mark mode version p s = normalize (record s {
    collector = record s.collector { mode = mode; version = version };
    scope = record s.scope {
      attributes = set_text "user_profiles_scanned" (itoa p.scanned) s.scope.attributes;
    };
    coverage = record s.coverage { partial = p.failed || s.coverage.partial };
    errors =
        if p.failed
        then s.errors
          ++ record {
            detector_id = "lens.endpoint.profiles";
            code = "profile_scan_failed";
            message = "One or more local user profiles could not be inspected";
            retryable = false;
          }
            ∷ []
        else s.errors;
  })

  pub checked : Snapshot → Result Problem (Unit {0}) → Result ScanFailure Snapshot
  checked s (ok _) = ok s
  checked s (err e) = err (not_valid e)

  pub conclude : String → String → Progress → Option Snapshot → Result ScanFailure Snapshot
  unfolding mark checked
  conclude mode version p none = err no_profile_scanned
  conclude mode version p (some s) =
      checked (mark mode version p s) (validate is_timestamp (mark mode version p s))

  pub after_scans : String → String → Result ScanFailure Progress → Result ScanFailure Snapshot
  unfolding conclude
  after_scans mode version (err e) = err e
  after_scans mode version (ok p) =
      if eqb p.scanned 0 then err no_profile_scanned else conclude mode version p p.combined

  -- scanProfilesMode
  pub scan_profiles_mode : String → String → List (Option Snapshot) → Result ScanFailure Snapshot
  unfolding after_scans scan_all
  scan_profiles_mode mode version scans = after_scans mode version (scan_all scans not_begun)
