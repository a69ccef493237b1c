-- ===== src/Managed/Collector/Uploads.antt =====
-- What one collection uploads, and what it leaves behind (internal/managed/collector.go).
use barrikade_lens.Common.{
  ℕ, zero, suc, ◌+◌, ◌*◌, ◌^◌, ◌≤◌, Bool, String, List, [], ◌∷◌, Option, none, some, ◌≡◌, ◌⊎◌,
  arith, Result, ok, err, length, tail,
}
use barrikade_lens.Discovery.Types.{Snapshot}
use barrikade_lens.Discovery.Digest.{digest}
use barrikade_lens.Hubclient.{
  Config, Url, ClientError, transport_error, IngestionJob, World, save, upload,
}
use barrikade_lens.Hubclient.Uploading.{SameTarget, upload_bounds}
use barrikade_lens.Managed.Collector.{
  Timers, Outcome, attempts, after_attempt, retry, deliver, after_scan, advance, collect_and_upload,
}

abbrev pub sum : List ℕ → ℕ
sum [] = 0
sum (n ∷ ns) = n + sum ns

-- What holds after some rounds of the retry loop.
pub record Bounded (rounds delay : ℕ) (last_digest : String) (cfg : Config) (w : World) (t : Timers)
    (o : Outcome) : Type 0 where
  pub target : SameTarget cfg o.config
  pub sent : length o.world.sent ≤ length w.sent + 2 * rounds
  pub waited : sum o.timers.waited ≤ sum t.waited + delay
  pub remembered : (o.failure ≡ none) ⊎ (o.last_digest ≡ last_digest)

-- The delay of `left` rounds that begin with 2 ^ attempt.
abbrev pub total_delay : ℕ → ℕ → ℕ
total_delay zero attempt = 0
total_delay (suc left) attempt = 2 ^ attempt + total_delay left (attempt + 1)

after_attempt-Bounded :
    (again : ClientError → Config → World → Timers → Outcome) (rounds delay attempt : ℕ)
    (last_digest new_digest : String) (r : Result ClientError IngestionJob) (cfg : Config)
    (w : World) (t : Timers)
    → ((e : ClientError) (t' : Timers)
        → Bounded rounds delay last_digest cfg w t' (again e cfg w t'))
    → Bounded rounds
        (2 ^ attempt + delay)
        last_digest
        cfg
        w
        t
        (after_attempt again attempt last_digest new_digest (r, cfg, w) t)
unfolding after_attempt
after_attempt-Bounded again rounds delay attempt last_digest new_digest (ok job) cfg w t h =
    ground arith
after_attempt-Bounded again rounds delay attempt last_digest new_digest (err e) cfg w t h =
    ground (arith, h e (record { fires = tail t.fires; waited = 2 ^ attempt ∷ t.waited }))

module _ (parse_url : String → Option Url) (fingerprint : Snapshot → Option String) where
  retry-Bounded :
      (left attempt : ℕ) (last_digest new_digest : String) (snapshot : Snapshot)
      (failed : ClientError) (cfg : Config) (w : World) (t : Timers)
      → Bounded left
          (total_delay left attempt)
          last_digest
          cfg
          w
          t
          (retry parse_url fingerprint left attempt last_digest new_digest snapshot failed cfg w t)
  unfolding retry
  retry-Bounded zero attempt last_digest new_digest snapshot failed cfg w t = ground arith
  retry-Bounded (suc left) attempt last_digest new_digest snapshot failed cfg w t =
      let (r, cfg', w') = upload parse_url cfg snapshot w in
      ground (
        arith,
        upload_bounds parse_url cfg snapshot w,
        after_attempt-Bounded
            (retry parse_url fingerprint left (attempt + 1) last_digest new_digest snapshot) left
            (total_delay left (attempt + 1)) attempt last_digest new_digest r cfg' w' t
            (λ e t'. retry-Bounded left (attempt + 1) last_digest new_digest snapshot e cfg' w' t'),
      )

  after_scan-Bounded :
      (full : Bool) (last_digest : String) (scan : Option Snapshot) (cfg : Config) (w : World)
      (t : Timers)
      → Bounded attempts 31 last_digest cfg w t
          (after_scan parse_url fingerprint full last_digest scan cfg w t)
  unfolding after_scan
  after_scan-Bounded full last_digest none cfg w t = ground arith
  after_scan-Bounded full last_digest (some scanned) cfg w t =
      by_digest (digest fingerprint snapshot)
    where
      snapshot : Snapshot
      snapshot = record scanned { sequence = cfg.sequence; full = full }

      by_digest :
          (d : Option String)
          → Bounded attempts 31 last_digest cfg w t
              (deliver parse_url fingerprint full last_digest snapshot d cfg w t)
      by_digest none = ground arith
      by_digest (some new_digest) =
          ground (
            arith,
            retry-Bounded attempts 0 last_digest new_digest snapshot transport_error cfg w t,
          )

  -- A collection makes at most ten requests with its snapshot and waits at most 31 seconds. It keeps
  -- the target, takes the next sequence number (modulo 2 ^ 64), and remembers a new digest only
  -- if it ends without an error.
  pub collect_bounds :
      (full : Bool) (last_digest : String) (scan : Option Snapshot) (cfg : Config) (w : World)
      (t : Timers)
      → Bounded attempts 31 last_digest
          (advance cfg)
          w
          t
          (collect_and_upload parse_url fingerprint full last_digest scan cfg w t)
  unfolding collect_and_upload save
  collect_bounds full last_digest scan cfg w t =
      ground
        (arith, after_scan-Bounded full last_digest scan (advance cfg) (save (advance cfg) w).1 t)
