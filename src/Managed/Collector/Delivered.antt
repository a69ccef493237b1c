-- ===== src/Managed/Collector/Delivered.antt =====
-- That a collection of internal/managed/collector.go reports a success only of what the Hub has.
use barrikade_lens.Common.{
  ℕ, zero, suc, ◌+◌, Bool, false, ◌&&◌, not, String, Option, none, some, ◌==◌, ◌≡◌, ◌⊎◌, refl, sym,
  ◌∙◌, arith, eq_iff, inl, inr, Result, ok, err, Bool-cases, none-ne-some,
}
use barrikade_lens.Discovery.Types.{Snapshot}
use barrikade_lens.Discovery.Digest.{digest}
use barrikade_lens.Hubclient.{
  Config, Url, ClientError, transport_error, IngestionJob, World, save, upload,
}
use barrikade_lens.Hubclient.Delivered.{last_sent, upload_last}
use barrikade_lens.Managed.Collector.{
  Timers, Outcome, attempts, after_failure, after_attempt, next_fires, retry, deliver, after_scan,
  abandoned, advance, collect_and_upload,
}

-- The digest is remembered, and the last request carried the snapshot.
abbrev pub Sent : String → Snapshot → Outcome → Type 0
Sent new_digest snapshot o = (o.last_digest ≡ new_digest) × (last_sent o.world.sent ≡ some snapshot)

after_attempt-Sent :
    (snapshot : Snapshot) (again : ClientError → Config → World → Timers → Outcome) (attempt : ℕ)
    (last_digest new_digest : String) (r : Result ClientError IngestionJob) (cfg : Config)
    (w : World) (t : Timers)
    → ((job : IngestionJob) → r ≡ ok job → last_sent w.sent ≡ some snapshot)
    → ((e : ClientError) (t' : Timers)
        → (again e cfg w t').failure ≡ none
        → Sent new_digest snapshot (again e cfg w t'))
    → (after_attempt again attempt last_digest new_digest (r, cfg, w) t).failure ≡ none
    → Sent new_digest snapshot (after_attempt again attempt last_digest new_digest (r, cfg, w) t)
unfolding after_attempt
after_attempt-Sent snapshot again attempt last_digest new_digest (ok job) cfg w t l a h =
    (refl, l job refl)
after_attempt-Sent snapshot again attempt last_digest new_digest (err e) cfg w t l a h =
    elim (Bool-cases (next_fires t.fires)) [
      | inl b ↦ rw (b, after_failure) (a e _ (rw (b, after_failure, after_attempt) at h))
      | inr b ↦ absurd (none-ne-some (sym (rw (b, after_failure, after_attempt) at h)))
    ]

module _ (parse_url : String → Option Url) (fingerprint : Snapshot → Option String) where
  retry-Sent :
      (left attempt : ℕ) (last_digest new_digest : String) (snapshot : Snapshot)
      (failed : ClientError) (cfg : Config) (w : World) (t : Timers)
      → (retry parse_url fingerprint left attempt last_digest new_digest snapshot failed cfg w
          t).failure
        ≡ none
      → Sent new_digest snapshot
          (retry parse_url fingerprint left attempt last_digest new_digest snapshot failed cfg w t)
  unfolding retry
  retry-Sent zero attempt last_digest new_digest snapshot failed cfg w t h =
      absurd (none-ne-some (sym h))
  retry-Sent (suc left) attempt last_digest new_digest snapshot failed cfg w t h =
      let (r, cfg', w') = upload parse_url cfg snapshot w in
      after_attempt-Sent snapshot
        (retry parse_url fingerprint left (attempt + 1) last_digest new_digest snapshot) attempt
        last_digest new_digest r cfg' w' t (upload_last parse_url cfg snapshot w)
        (λ e t'. retry-Sent left (attempt + 1) last_digest new_digest snapshot e cfg' w' t') h

  -- What a success of a collection with the numbered snapshot means: its digest is remembered; and it
  -- was sent, or the scan is incremental, its digest was the last one, and nothing was sent.
  abbrev pub IsDelivered : Bool → String → Snapshot → World → Outcome → Type 0
  IsDelivered full last_digest snapshot w o =
      (digest fingerprint snapshot ≡ some o.last_digest)
      × ((last_sent o.world.sent ≡ some snapshot)
          ⊎ ((full ≡ false) × (o.last_digest ≡ last_digest) × (o.world.sent ≡ w.sent)))

  deliver-IsDelivered :
      (full : Bool) (last_digest : String) (snapshot : Snapshot) (d : Option String) (cfg : Config)
      (w : World) (t : Timers)
      → digest fingerprint snapshot ≡ d
      → (deliver parse_url fingerprint full last_digest snapshot d cfg w t).failure ≡ none
      → IsDelivered full last_digest snapshot w
          (deliver parse_url fingerprint full last_digest snapshot d cfg w t)
  unfolding deliver abandoned
  deliver-IsDelivered full last_digest snapshot none cfg w t e h = absurd (none-ne-some (sym h))
  deliver-IsDelivered full last_digest snapshot (some new_digest) cfg w t e h =
      elim (Bool-cases (new_digest == last_digest && not full)) [
        | inl b ↦
            let same : new_digest ≡ last_digest =
              ground (arith, b, eq_iff new_digest last_digest) in
            rw b (rw (sym same) e, inr (ground (arith, b), refl, refl))
        | inr b ↦
            let (d, l) =
              retry-Sent attempts 0 last_digest new_digest snapshot transport_error cfg w t
                (rw (b, deliver) at h) in
            rw b (rw d e, inl l)
      ]

  -- A collection that ends without an error had a scan. It remembers the digest of the scan's snapshot,
  -- numbered with the next sequence number; and that snapshot is what the last request carried, or the
  -- scan is incremental, its digest was the last one, and nothing was sent.
  pub collect-IsDelivered :
      (full : Bool) (last_digest : String) (scan : Option Snapshot) (cfg : Config) (w : World)
      (t : Timers)
      → (collect_and_upload parse_url fingerprint full last_digest scan cfg w t).failure ≡ none
      → (scanned : Snapshot) × (scan ≡ some scanned)
        × IsDelivered full last_digest
            (record scanned { sequence = (advance cfg).sequence; full = full })
            w
            (collect_and_upload parse_url fingerprint full last_digest scan cfg w t)
  unfolding collect_and_upload after_scan abandoned
  collect-IsDelivered full last_digest none cfg w t h = elim (Bool-cases (save (advance cfg) w).0) [
    | inl b ↦ absurd (none-ne-some (sym (rw (b, collect_and_upload) at h)))
    | inr b ↦ absurd (none-ne-some (sym (rw (b, collect_and_upload) at h)))
  ]
  collect-IsDelivered full last_digest (some scanned) cfg w t h =
      elim (Bool-cases (save (advance cfg) w).0) [
        | inr b ↦ absurd (none-ne-some (sym (rw (b, collect_and_upload) at h)))
        | inl b ↦
            let (d, s) =
              deliver-IsDelivered full last_digest
                (record scanned { sequence = (advance cfg).sequence; full = full }) _ (advance cfg)
                (save (advance cfg) w).1 t refl (rw (b, collect_and_upload, after_scan) at h) in
            (
              scanned,
              refl,
              rw (b, collect_and_upload)
                  (
                    d,
                    elim s [
                      | inl l ↦ inl l
                      | inr (f, same, kept) ↦ inr (f, same, kept ∙ sent-save w)
                    ],
                  ),
            )
      ]
    where
      sent-save : (v : World) → (save (advance cfg) v).1.sent ≡ v.sent
      sent-save v = unfold save in ground arith
