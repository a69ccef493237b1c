-- ===== src/Examples/ManagedTests.antt =====
-- Tests of internal/hubclient and internal/managed, and instances of their theorems.
use barrikade_lens.Common.{
  ℕ, ne_of_test, ◌+◌, ◌≤◌, true, false, String, [], ◌∷◌, Option, none, some, ◌≡◌, ◌⊎◌, refl, ok,
  err, length,
}
use barrikade_lens.Discovery.Types.{Snapshot}
use barrikade_lens.Discovery.Merge.{normalize}
use barrikade_lens.Discovery.Privacy.{trim_space}
use barrikade_lens.Discovery.Digest.{digest, digest_content}
use barrikade_lens.Hubclient.{
  Config, Url, IngestionJob, TokenResponse, http_error, World, post, exchange, save, upload,
  validate_hub_url, is_unauthorized, refresh, renewed,
}
use barrikade_lens.Hubclient.Uploading.{SameTarget, upload_bounds, upload_stored}
use barrikade_lens.Managed.Collector.{
  Timers, attempts, advance, collect_and_upload, after_scan, deliver, retry, after_attempt,
}
use barrikade_lens.Managed.Collector.Delivered.{IsDelivered, collect-IsDelivered}
use barrikade_lens.Managed.Collector.Uploads.{Bounded, collect_bounds}
use barrikade_lens.Managed.Collector.Requests.{Carries, collect-Carries}
use barrikade_lens.Managed.Events.{
  event, process_tick, idle, max_event_delay, run, deadline_kept, run-Together, Together,
}
use barrikade_lens.Managed.Quick.{QuickWorld, run_quick, run_quick_bounds}
use barrikade_lens.Managed.Profiles.{scan_profiles_mode}
use barrikade_lens.Managed.Profiles.Accepted.{AllFit, scan_profiles_mode_total}
use barrikade_lens.Discovery.Validation.{validate}
use barrikade_lens.Examples.DiscoveryTests.{left_valid, right_valid}
use barrikade_lens.Examples.Data.{any_time, right, now, left}

abbrev hub : String → Option Url
hub s = some (record {
  scheme = "https";
  host = "hub";
  is_localhost = false;
  loopback = false;
  has_user = false;
  raw_query = "";
  fragment = "";
  printed = "https://hub/";
})

abbrev config : Config
config = record {
  config_version = 1;
  hub_url = "https://hub";
  organization_id = "org";
  source_id = "src";
  target_id = "target";
  access_token = "old";
  access_token_expires_at = now;
  refresh_token = "refresh";
  sequence = 4;
}

abbrev job : IngestionJob
job = record { id = "job-1"; status = "queued" }

abbrev tokens : TokenResponse
tokens = record {
  hub_url = "";
  access_token = "new";
  access_token_expires_at = now;
  refresh_token = "refresh-2";
}

-- The first post is refused with 401, then the tokens are renewed.
abbrev expired : World
expired = record {
  posts = err (http_error 401) ∷ ok job ∷ [];
  tokens = ok tokens ∷ [];
  saves = true ∷ true ∷ [];
  sent = [];
  exchanged = [];
  stored = [];
}

abbrev read_only : World
read_only = record expired { saves = [] }

abbrev timers : Timers
timers = record { fires = []; waited = [] }

abbrev fingerprint : Snapshot → Option String
fingerprint s = some s.source_id

uploaded : (upload hub config left expired).0 ≡ ok job
unfolding upload refresh renewed validate_hub_url post exchange save is_unauthorized trim_space
uploaded = refl

upload_bounds_example :
    let (r, cfg', w') = upload hub config left expired in
    SameTarget config cfg'
    × (length w'.sent ≤ length expired.sent + 2)
    × (((w'.exchanged ≡ expired.exchanged) × (cfg' ≡ config))
        ⊎ (w'.exchanged ≡ config.refresh_token ∷ expired.exchanged))
upload_bounds_example = upload_bounds hub config left expired

upload_stored_example :
    ((upload hub config left expired).1 ≡ config)
    ⊎ ((upload hub config left expired).2.stored ≡ (upload hub config left expired).1 ∷ [])
upload_stored_example = upload_stored hub config left expired job uploaded

collect_bounds_example :
    Bounded attempts 31 ""
      (advance config)
      expired
      timers
      (collect_and_upload hub fingerprint true "" (some left) config expired timers)
collect_bounds_example = collect_bounds hub fingerprint true "" (some left) config expired timers

collect-Carries_example :
    Carries
      (advance config).sequence
      true
      (collect_and_upload hub fingerprint true "" (some left) config expired timers).world
collect-Carries_example =
    collect-Carries hub fingerprint true "" (some left) config expired timers refl

-- The upload goes through with the renewed token.
delivered :
    (collect_and_upload hub fingerprint true "" (some left) config expired timers).failure ≡ none
unfolding collect_and_upload after_scan deliver retry after_attempt digest digest_content normalize
    upload refresh renewed validate_hub_url post exchange save is_unauthorized trim_space
delivered = refl

collect-IsDelivered_example :
    (scanned : Snapshot) × (some left ≡ some scanned)
    × IsDelivered hub fingerprint true ""
        (record scanned { sequence = (advance config).sequence; full = true })
        expired
        (collect_and_upload hub fingerprint true "" (some left) config expired timers)
collect-IsDelivered_example =
    collect-IsDelivered hub fingerprint true "" (some left) config expired timers delivered

deadline_kept_example :
    (run idle (event true 100 ∷ event true 105 ∷ process_tick ∷ [])).0.deadline
    ≡ some (100 + max_event_delay)
deadline_kept_example = deadline_kept (event true 105 ∷ process_tick ∷ []) 100 (tt, (tt, tt))

run-Together_example :
    Together (run idle (event true 100 ∷ [])).0.debounce (run idle (event true 100 ∷ [])).0.deadline
run-Together_example = run-Together idle (event true 100 ∷ []) tt

abbrev itoa : ℕ → String
itoa n = "2"

scans-AllFit : AllFit any_time left (some left ∷ none ∷ some right ∷ [])
unfolding trim_space
scans-AllFit = (
  record {
    valid = left_valid;
    named = (ne_of_test _ _ refl, (ne_of_test _ _ refl, tt));
    organization = refl;
    source = refl;
    schema = refl;
  },
  (
    record {
      valid = right_valid;
      named = (ne_of_test _ _ refl, tt);
      organization = refl;
      source = refl;
      schema = refl;
    },
    tt,
  ),
)

scan_profiles_mode_total_example :
    (s : Snapshot) × (scan_profiles_mode any_time itoa "managed" "2"
        (some left ∷ none ∷ some right ∷ [])
      ≡ ok s)
    × (validate any_time s ≡ ok tt)
    × (s.collector.mode ≡ "managed")
    × (s.collector.version ≡ "2")
scan_profiles_mode_total_example =
    scan_profiles_mode_total any_time itoa "managed" "2" left (some left ∷ none ∷ some right ∷ [])
      scans-AllFit tt

abbrev quick : QuickWorld
quick = record { world = expired; reported = [] }

abbrev quick_config : Config
quick_config = record config { config_version = 2; refresh_token = "" }

run_quick_bounds_example :
    let q = (run_quick hub true false quick_config (some left) quick).1 in
    (q.world.stored ≡ quick.world.stored)
    × (q.world.exchanged ≡ quick.world.exchanged)
    × (length q.world.sent ≤ length quick.world.sent + 1)
    × (length q.reported ≤ length quick.reported + 1)
run_quick_bounds_example = run_quick_bounds hub true false quick_config (some left) quick
