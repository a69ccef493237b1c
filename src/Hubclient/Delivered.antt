-- ===== src/Hubclient/Delivered.antt =====
-- What a successful upload of internal/hubclient/client.go has sent.
use barrikade_lens.Common.{
  String, List, [], ◌∷◌, Option, none, some, ◌==◌, ◌≡◌, refl, Result, ok, err, err-ne-ok,
  Bool-cases, inl, inr, not, ◌&&◌,
}
use barrikade_lens.Discovery.Types.{Snapshot}
use barrikade_lens.Hubclient.{
  Config, Url, IngestionJob, ClientError, Request, World, validate_hub_url, refresh, upload,
  upload_to, after_refresh, after_post, is_unauthorized, post,
}

-- The snapshot of the last request.
abbrev pub last_sent : List Request → Option Snapshot
last_sent [] = none
last_sent (request ∷ earlier) = some request.snapshot

module _ (parse_url : String → Option Url) where
  after_refresh_last :
      (base : String) (snapshot : Snapshot) (r : Option ClientError × Config × World)
      (job : IngestionJob)
      → (after_refresh parse_url base snapshot r).0 ≡ ok job
      → last_sent (after_refresh parse_url base snapshot r).2.sent ≡ some snapshot
  unfolding after_refresh post
  after_refresh_last base snapshot (none, cfg, w) job h = refl
  after_refresh_last base snapshot (some e, cfg, w) job h = absurd (err-ne-ok h)

  after_post_last :
      (base : String) (cfg : Config) (snapshot : Snapshot) (r : Result ClientError IngestionJob)
      (w : World) (job : IngestionJob)
      → last_sent w.sent ≡ some snapshot
      → (after_post parse_url base cfg snapshot r w).0 ≡ ok job
      → last_sent (after_post parse_url base cfg snapshot r w).2.sent ≡ some snapshot
  unfolding after_post
  after_post_last base cfg snapshot (ok j) w job l h = l
  after_post_last base cfg snapshot (err e) w job l h =
      elim (Bool-cases (is_unauthorized e && not (cfg.refresh_token == ""))) [
        | inl b ↦ rw b (
            after_refresh_last base snapshot (refresh parse_url cfg w) job
              (rw (b, after_post) at h))
        | inr b ↦ absurd (err-ne-ok (rw (b, after_post) at h))
      ]

  upload_to_last :
      (base : Option String) (cfg : Config) (snapshot : Snapshot) (w : World) (job : IngestionJob)
      → (upload_to parse_url base cfg snapshot w).0 ≡ ok job
      → last_sent (upload_to parse_url base cfg snapshot w).2.sent ≡ some snapshot
  unfolding upload_to post
  upload_to_last none cfg snapshot w job h = absurd (err-ne-ok h)
  upload_to_last (some base) cfg snapshot w job h =
      after_post_last base cfg snapshot (post base cfg.access_token snapshot w).0
        (post base cfg.access_token snapshot w).1 job refl h

  -- When an upload succeeds, its last request carried the snapshot.
  pub upload_last :
      (cfg : Config) (snapshot : Snapshot) (w : World) (job : IngestionJob)
      → (upload parse_url cfg snapshot w).0 ≡ ok job
      → last_sent (upload parse_url cfg snapshot w).2.sent ≡ some snapshot
  unfolding upload
  upload_last cfg snapshot w job h =
      upload_to_last (validate_hub_url parse_url cfg.hub_url) cfg snapshot w job h
