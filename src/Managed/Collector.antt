-- ===== src/Managed/Collector.antt =====
-- internal/managed/collector.go: `collectAndUpload` and its retries. The scan is an argument, with
-- `none` for its error; a wait ends by its timer (true) or by the end of the context (false).
pub mod Uploads
pub mod Requests
pub mod Delivered
use barrikade_lens.Common.{
  ℕ, zero, suc, ◌+◌, ◌-◌, ◌^◌, ◌%◌, Bool, true, false, ◌&&◌, not, String, List, [], ◌∷◌, Option,
  none, some, ◌==◌, Result, ok, err, tail, if◌then◌else◌,
}
use barrikade_lens.Discovery.Types.{Snapshot}
use barrikade_lens.Discovery.Digest.{digest}
use barrikade_lens.Hubclient.{
  Config, Url, ClientError, transport_error, IngestionJob, World, save, upload,
}

pub data CollectError : Type 0 where
  config_not_saved scan_failed digest_failed : CollectError
  interrupted : CollectError
  upload_failed : ClientError → CollectError

-- The waits to come, and those that were made, in seconds, newest first.
pub record Timers : Type 0 where
  pub fires : List Bool
  pub waited : List ℕ

pub record Outcome : Type 0 where
  pub failure : Option CollectError
  pub last_digest : String
  pub config : Config
  pub world : World
  pub timers : Timers

abbrev pub attempts : ℕ
attempts = 5

pub next_fires : List Bool → Bool
next_fires [] = false
next_fires (b ∷ bs) = b

-- The wait after a failed attempt, and `again` for the next round.
pub after_failure :
    (ClientError → Config → World → Timers → Outcome)
    → ℕ
    → String
    → ClientError
    → Config
    → World
    → Timers
    → Outcome
unfolding next_fires
after_failure again attempt last_digest e cfg w t =
    let t' : Timers = record { fires = tail t.fires; waited = 2 ^ attempt ∷ t.waited } in
    elim (next_fires t.fires) [
      | true ↦ again e cfg w t'
      | false ↦ record {
        failure = some interrupted;
        last_digest = last_digest;
        config = cfg;
        world = w;
        timers = t';
      }
    ]

unfoldable pub after_attempt :
    (ClientError → Config → World → Timers → Outcome)
    → ℕ
    → String
    → String
    → Result ClientError IngestionJob × Config × World
    → Timers
    → Outcome
unfolding after_failure
after_attempt again attempt last_digest new_digest (ok job, cfg, w) t = record {
  failure = none;
  last_digest = new_digest;
  config = cfg;
  world = w;
  timers = t;
}
after_attempt again attempt last_digest new_digest (err e, cfg, w) t =
    after_failure again attempt last_digest e cfg w t

-- `cfg.Sequence++` on a uint64.
abbrev pub advance : Config → Config
advance cfg = record cfg { sequence = (cfg.sequence + 1) % 2 ^ 64 }

module _ (parse_url : String → Option Url) (fingerprint : Snapshot → Option String) where
  -- The loop over `attempt`, with the number of rounds left; `failed` is `uploadErr`.
  unfoldable pub retry :
      ℕ → ℕ → String → String → Snapshot → ClientError → Config → World → Timers → Outcome
  unfolding after_attempt
  retry zero attempt last_digest new_digest snapshot failed cfg w t = record {
    failure = some (upload_failed failed);
    last_digest = last_digest;
    config = cfg;
    world = w;
    timers = t;
  }
  retry (suc left) attempt last_digest new_digest snapshot failed cfg w t =
      after_attempt (retry left (attempt + 1) last_digest new_digest snapshot) attempt last_digest
        new_digest (upload parse_url cfg snapshot w) t

  pub abandoned : CollectError → String → Config → World → Timers → Outcome
  abandoned e last_digest cfg w t = record {
    failure = some e;
    last_digest = last_digest;
    config = cfg;
    world = w;
    timers = t;
  }

  unfoldable pub deliver :
      Bool → String → Snapshot → Option String → Config → World → Timers → Outcome
  unfolding abandoned
  deliver full last_digest snapshot none cfg w t = abandoned digest_failed last_digest cfg w t
  deliver full last_digest snapshot (some new_digest) cfg w t =
      if new_digest == last_digest && not full
      then record { failure = none; last_digest = last_digest; config = cfg; world = w; timers = t }
      else retry attempts 0 last_digest new_digest snapshot transport_error cfg w t

  unfoldable pub after_scan : Bool → String → Option Snapshot → Config → World → Timers → Outcome
  unfolding deliver abandoned
  after_scan full last_digest none cfg w t = abandoned scan_failed last_digest cfg w t
  after_scan full last_digest (some scanned) cfg w t =
      let snapshot = record scanned { sequence = cfg.sequence; full = full } in
      deliver full last_digest snapshot (digest fingerprint snapshot) cfg w t

  -- collectAndUpload
  unfoldable pub collect_and_upload :
      Bool → String → Option Snapshot → Config → World → Timers → Outcome
  unfolding after_scan abandoned
  collect_and_upload full last_digest scan cfg w t =
      let (stored, w') = save (advance cfg) w in
      if stored
      then after_scan full last_digest scan (advance cfg) w' t
      else abandoned config_not_saved last_digest (advance cfg) w' t
