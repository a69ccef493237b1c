-- ===== src/Managed/Quick.antt =====
-- internal/managed/collector.go: `RunQuick`, and `UploadTransient` and `ReportQuickFailure` of
-- internal/hubclient/client.go. The loaded pack, the home directory and the scan are arguments, with
-- `none` for their errors. The answer to a report is dropped, so only the report is kept.
use barrikade_lens.Common.{
  ℕ, ◌+◌, ◌^◌, ◌%◌, ◌≤◌, Bool, true, ◌||◌, ◌&&◌, not, String, List, ◌∷◌, Option, none, some, ◌==◌,
  ◌≡◌, ◌≢◌, eqb, arith, eq_iff, Result, ok, err, length, if◌then◌else◌,
}
use barrikade_lens.Discovery.Types.{Snapshot}
use barrikade_lens.Hubclient.{
  Config, Url, IngestionJob, ClientError, invalid_hub_url, World, validate_hub_url, post,
}

pub record QuickWorld : Type 0 where
  pub world : World
  pub reported : List String

pub record QuickScanResult : Type 0 where
  pub job_id : String
  pub partial : Bool
  pub entity_count : ℕ
  pub relation_count : ℕ

pub data QuickError : Type 0 where
  not_transient discovery_failed : QuickError
  quick_upload_failed : ClientError → QuickError

upload_at : Option String → Config → Snapshot → World → Result ClientError IngestionJob × World
unfolding post
upload_at none cfg snapshot w = (err invalid_hub_url, w)
upload_at (some base) cfg snapshot w = post base cfg.access_token snapshot w

quick_result : Snapshot → IngestionJob → QuickScanResult
quick_result s job = record {
  job_id = job.id;
  partial = s.coverage.partial || not (eqb (length s.errors) 0);
  entity_count = length s.entities;
  relation_count = length s.relationships;
}

-- The configuration of a quick scan; without a refresh token.
pub is_transient : Config → Bool
is_transient cfg =
    eqb cfg.config_version 2
    && not (cfg.target_id == "")
    && not (cfg.access_token == "")
    && cfg.refresh_token == ""

-- The snapshot as it is uploaded; the sequence number is a uint64.
abbrev pub numbered : Config → Snapshot → Snapshot
numbered cfg s = record s { sequence = (cfg.sequence + 1) % 2 ^ 64; full = true }

module _ (parse_url : String → Option Url) where
  -- Client.UploadTransient
  pub upload_transient : Config → Snapshot → World → Result ClientError IngestionJob × World
  unfolding upload_at
  upload_transient cfg snapshot w =
      upload_at (validate_hub_url parse_url cfg.hub_url) cfg snapshot w

  report_at : Option String → String → QuickWorld → QuickWorld
  report_at none failure q = q
  report_at (some base) failure q = record q { reported = failure ∷ q.reported }

  -- reportQuickFailure, by Client.ReportQuickFailure
  pub report_quick_failure : Config → String → QuickWorld → QuickWorld
  unfolding report_at
  report_quick_failure cfg failure q = report_at (validate_hub_url parse_url cfg.hub_url) failure q

  after_quick :
      Bool
      → Config
      → Snapshot
      → Result ClientError IngestionJob × World
      → QuickWorld
      → Result QuickError QuickScanResult × QuickWorld
  unfolding report_quick_failure quick_result
  after_quick interrupted cfg s (ok job, w) q = (ok (quick_result s job), record q { world = w })
  after_quick interrupted cfg s (err e, w) q = (
    err (quick_upload_failed e),
    report_quick_failure cfg (if interrupted then "interrupted" else "upload")
        (record q { world = w }),
  )

  after_quick_scan :
      Bool → Config → Option Snapshot → QuickWorld → Result QuickError QuickScanResult × QuickWorld
  unfolding after_quick report_quick_failure upload_transient
  after_quick_scan interrupted cfg none q =
      (err discovery_failed, report_quick_failure cfg "discovery" q)
  after_quick_scan interrupted cfg (some s) q =
      after_quick interrupted cfg (numbered cfg s) (upload_transient cfg (numbered cfg s) q.world) q

  -- Runner.RunQuick; `ready` tells that the pack and the home directory were found, and
  -- `interrupted` that an error of the upload is one of the context.
  pub run_quick :
      Bool
      → Bool
      → Config
      → Option Snapshot
      → QuickWorld
      → Result QuickError QuickScanResult × QuickWorld
  unfolding after_quick_scan report_quick_failure
  run_quick ready interrupted cfg scan q =
      if not (is_transient cfg)
      then (err not_transient, q)
      else if ready
      then after_quick_scan interrupted cfg scan q
      else (err discovery_failed, report_quick_failure cfg "discovery" q)

  upload_at_quiet :
      (base : Option String) (cfg : Config) (s : Snapshot) (w : World)
      → ((upload_at base cfg s w).1.stored ≡ w.stored)
        × ((upload_at base cfg s w).1.exchanged ≡ w.exchanged)
        × (length (upload_at base cfg s w).1.sent ≤ length w.sent + 1)
  unfolding upload_at
  upload_at_quiet base cfg s w = ground arith

  after_quick_quiet :
      (interrupted : Bool) (cfg : Config) (s : Snapshot) (r : Result ClientError IngestionJob)
      (w : World) (q : QuickWorld)
      → ((after_quick interrupted cfg s (r, w) q).1.world ≡ w)
        × (length (after_quick interrupted cfg s (r, w) q).1.reported ≤ length q.reported + 1)
  unfolding after_quick
  after_quick_quiet interrupted cfg s (ok job) w q = ground arith
  after_quick_quiet interrupted cfg s (err e) w q = ground arith

  -- A quick scan stores no configuration, exchanges no token, sends its snapshot at most once and
  -- reports at most one failure.
  pub run_quick_bounds :
      (ready interrupted : Bool) (cfg : Config) (scan : Option Snapshot) (q : QuickWorld)
      → let q' = (run_quick ready interrupted cfg scan q).1 in
        (q'.world.stored ≡ q.world.stored)
        × (q'.world.exchanged ≡ q.world.exchanged)
        × (length q'.world.sent ≤ length q.world.sent + 1)
        × (length q'.reported ≤ length q.reported + 1)
  unfolding run_quick
  run_quick_bounds ready interrupted cfg none q = ground arith
  run_quick_bounds ready interrupted cfg (some s) q = ground (
    arith,
    upload_at_quiet (validate_hub_url parse_url cfg.hub_url) cfg (numbered cfg s) q.world,
    after_quick_quiet interrupted cfg (numbered cfg s)
        (upload_at (validate_hub_url parse_url cfg.hub_url) cfg (numbered cfg s) q.world).0
        (upload_at (validate_hub_url parse_url cfg.hub_url) cfg (numbered cfg s) q.world).1 q,
  )

  -- A configuration with a refresh token is refused, and then nothing happens.
  pub run_quick_refused :
      (ready interrupted : Bool) (cfg : Config) (scan : Option Snapshot) (q : QuickWorld)
      → cfg.refresh_token ≢ ""
      → run_quick ready interrupted cfg scan q ≡ (err not_transient, q)
  unfolding run_quick is_transient
  run_quick_refused ready interrupted cfg scan q h = ground (arith, h, eq_iff cfg.refresh_token "")
