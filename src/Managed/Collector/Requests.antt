-- ===== src/Managed/Collector/Requests.antt =====
-- Which snapshots one collection sends (internal/managed/collector.go).
use barrikade_lens.Common.{
  ℕ, zero, suc, ◌+◌, Bool, false, ◌&&◌, not, String, [], Option, none, some, ◌==◌, ◌≡◌, refl, inl,
  inr, arith, Result, ok, err, All, Bool-cases,
}
use barrikade_lens.Discovery.Types.{Snapshot}
use barrikade_lens.Discovery.Digest.{digest}
use barrikade_lens.Hubclient.{
  Config, Url, ClientError, transport_error, IngestionJob, World, save, upload,
}
use barrikade_lens.Hubclient.Uploading.{upload_sends}
use barrikade_lens.Managed.Collector.{
  Timers, Outcome, config_not_saved, attempts, after_failure, after_attempt, next_fires, retry,
  deliver, after_scan, advance, collect_and_upload,
}

-- Every request carries a snapshot of this sequence number and kind.
abbrev pub Carries : ℕ → Bool → World → Type 0
Carries sequence full w =
    All (λ q. (q.snapshot.sequence ≡ sequence) × (q.snapshot.full ≡ full)) w.sent

after_attempt-Carries :
    (sequence : ℕ) (full : Bool) (again : ClientError → Config → World → Timers → Outcome)
    (attempt : ℕ) (last_digest new_digest : String) (r : Result ClientError IngestionJob)
    (cfg : Config) (w : World) (t : Timers)
    → Carries sequence full w
    → ((e : ClientError) (t' : Timers) → Carries sequence full (again e cfg w t').world)
    → Carries sequence full (after_attempt again attempt last_digest new_digest (r, cfg, w) t).world
unfolding after_attempt
after_attempt-Carries sequence full again attempt last_digest new_digest (ok job) cfg w t c h = c
after_attempt-Carries sequence full again attempt last_digest new_digest (err e) cfg w t c h =
    elim (Bool-cases (next_fires t.fires)) [
      | inl b ↦ rw (b, after_failure) (h e _)
      | inr b ↦ rw (b, after_failure) c
    ]

module _ (parse_url : String → Option Url) (fingerprint : Snapshot → Option String) where
  retry-Carries :
      (left attempt : ℕ) (last_digest new_digest : String) (snapshot : Snapshot)
      (failed : ClientError) (cfg : Config) (w : World) (t : Timers)
      → Carries snapshot.sequence snapshot.full w
      → Carries snapshot.sequence snapshot.full
          (retry parse_url fingerprint left attempt last_digest new_digest snapshot failed cfg w
            t).world
  unfolding retry
  retry-Carries zero attempt last_digest new_digest snapshot failed cfg w t c = c
  retry-Carries (suc left) attempt last_digest new_digest snapshot failed cfg w t c =
      let (r, cfg', w') = upload parse_url cfg snapshot w in
      let sent =
        upload_sends parse_url (λ s. (s.sequence ≡ snapshot.sequence) × (s.full ≡ snapshot.full))
          cfg snapshot w (refl, refl) c in
      after_attempt-Carries snapshot.sequence snapshot.full
        (retry parse_url fingerprint left (attempt + 1) last_digest new_digest snapshot) attempt
        last_digest new_digest r cfg' w' t sent
        λ e t'. retry-Carries left (attempt + 1) last_digest new_digest snapshot e cfg' w' t' sent

  after_scan-Carries :
      (full : Bool) (last_digest : String) (scan : Option Snapshot) (cfg : Config) (w : World)
      (t : Timers)
      → Carries cfg.sequence full w
      → Carries cfg.sequence full
          (after_scan parse_url fingerprint full last_digest scan cfg w t).world
  unfolding after_scan
  after_scan-Carries full last_digest none cfg w t c = c
  after_scan-Carries full last_digest (some scanned) cfg w t c =
      by_digest (digest fingerprint snapshot)
    where
      snapshot : Snapshot
      snapshot = record scanned { sequence = cfg.sequence; full = full }

      by_digest :
          (d : Option String)
          → Carries cfg.sequence full
              (deliver parse_url fingerprint full last_digest snapshot d cfg w t).world
      by_digest none = c
      by_digest (some new_digest) = elim (Bool-cases (new_digest == last_digest && not full)) [
        | inl b ↦ rw b c
        | inr b ↦
            rw b
              (retry-Carries attempts 0 last_digest new_digest snapshot transport_error cfg w t c)
      ]

  sent-save : (cfg : Config) (w : World) → (save cfg w).1.sent ≡ w.sent
  unfolding save
  sent-save cfg w = ground arith

  -- Each request of a collection, the first of its world, carries the sequence number after that of
  -- the configuration (modulo 2 ^ 64) and the kind of the scan.
  pub collect-Carries :
      (full : Bool) (last_digest : String) (scan : Option Snapshot) (cfg : Config) (w : World)
      (t : Timers)
      → w.sent ≡ []
      → Carries
          (advance cfg).sequence
          full
          (collect_and_upload parse_url fingerprint full last_digest scan cfg w t).world
  unfolding collect_and_upload
  collect-Carries full last_digest scan cfg w t e =
      let none_yet : Carries (advance cfg).sequence full (save (advance cfg) w).1 =
        ground (arith, sent-save (advance cfg) w, e) in
      elim (Bool-cases (save (advance cfg) w).0) [
        | inl b ↦
            rw (b, collect_and_upload)
              (after_scan-Carries full last_digest scan (advance cfg) (save (advance cfg) w).1 t
                none_yet)
        | inr b ↦ rw (b, collect_and_upload) none_yet
      ]

  -- If the configuration cannot be stored, nothing is sent, and the error is reported.
  pub collect_unsaved :
      (full : Bool) (last_digest : String) (scan : Option Snapshot) (cfg : Config) (w : World)
      (t : Timers)
      → (save (advance cfg) w).0 ≡ false
      → let o = collect_and_upload parse_url fingerprint full last_digest scan cfg w t in
        (o.failure ≡ some config_not_saved) × (o.world.sent ≡ w.sent) × (o.world.stored ≡ w.stored)
  unfolding collect_and_upload save
  collect_unsaved full last_digest scan cfg w t h = ground arith
