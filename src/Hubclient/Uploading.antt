-- ===== src/Hubclient/Uploading.antt =====
-- What one upload does to the configuration and to the world (internal/hubclient/client.go).
use barrikade_lens.Common.{
  ◌≤◌, ◌+◌, String, ◌∷◌, Option, none, some, ◌==◌, ◌≡◌, ◌⊎◌, inl, inr, arith, Result, ok, err,
  length, All, Bool-cases, ◌&&◌, not,
}
use barrikade_lens.Discovery.Types.{Snapshot}
use barrikade_lens.Hubclient.{
  Config, Url, IngestionJob, ClientError, World, validate_hub_url, refresh, upload, upload_to,
  after_refresh, is_unauthorized, after_post, post,
}

-- The same target, and the same position in its sequence of snapshots.
pub record SameTarget (c d : Config) : Type 0 where
  pub version : d.config_version ≡ c.config_version
  pub organization : d.organization_id ≡ c.organization_id
  pub source : d.source_id ≡ c.source_id
  pub target : d.target_id ≡ c.target_id
  pub sequence : d.sequence ≡ c.sequence

module _ (parse_url : String → Option Url) where
  refresh_target :
      (cfg : Config) (w : World)
      → SameTarget cfg (refresh parse_url cfg w).1
        × ((refresh parse_url cfg w).2.sent ≡ w.sent)
        × ((refresh parse_url cfg w).2.exchanged ≡ cfg.refresh_token ∷ w.exchanged)
  unfolding refresh
  refresh_target cfg w = ground arith

  refresh_stored :
      (cfg : Config) (w : World)
      → (refresh parse_url cfg w).0 ≡ none
      → (refresh parse_url cfg w).2.stored ≡ (refresh parse_url cfg w).1 ∷ w.stored
  unfolding refresh
  refresh_stored cfg w h = ground arith

  after_post_bounds :
      (base : String) (cfg : Config) (snapshot : Snapshot) (r : Result ClientError IngestionJob)
      (w : World)
      → let (r', cfg', w') = after_post parse_url base cfg snapshot r w in
        SameTarget cfg cfg'
        × (length w'.sent ≤ length w.sent + 1)
        × (((w'.exchanged ≡ w.exchanged) × (cfg' ≡ cfg))
            ⊎ (w'.exchanged ≡ cfg.refresh_token ∷ w.exchanged))
  unfolding after_post
  after_post_bounds base cfg snapshot r w = ground (arith, refresh_target cfg w)

  after_post_stored :
      (base : String) (cfg : Config) (snapshot : Snapshot) (r : Result ClientError IngestionJob)
      (w : World) (job : IngestionJob)
      → (after_post parse_url base cfg snapshot r w).0 ≡ ok job
      → ((after_post parse_url base cfg snapshot r w).1 ≡ cfg)
        ⊎ ((after_post parse_url base cfg snapshot r w).2.stored
            ≡ (after_post parse_url base cfg snapshot r w).1 ∷ w.stored)
  unfolding after_post
  after_post_stored base cfg snapshot r w job h = ground (arith, refresh_stored cfg w)

  upload_to_bounds :
      (base : Option String) (cfg : Config) (snapshot : Snapshot) (w : World)
      → let (r, cfg', w') = upload_to parse_url base cfg snapshot w in
        SameTarget cfg cfg'
        × (length w'.sent ≤ length w.sent + 2)
        × (((w'.exchanged ≡ w.exchanged) × (cfg' ≡ cfg))
            ⊎ (w'.exchanged ≡ cfg.refresh_token ∷ w.exchanged))
  unfolding upload_to
  upload_to_bounds none cfg snapshot w = ground arith
  upload_to_bounds (some base) cfg snapshot w = ground (
    arith,
    after_post_bounds base cfg snapshot (post base cfg.access_token snapshot w).0
        (post base cfg.access_token snapshot w).1,
  )

  -- An upload keeps the target and the sequence number. It sends the snapshot at most twice and
  -- exchanges the refresh token at most once, and without an exchange the configuration stays as it
  -- is.
  pub upload_bounds :
      (cfg : Config) (snapshot : Snapshot) (w : World)
      → let (r, cfg', w') = upload parse_url cfg snapshot w in
        SameTarget cfg cfg'
        × (length w'.sent ≤ length w.sent + 2)
        × (((w'.exchanged ≡ w.exchanged) × (cfg' ≡ cfg))
            ⊎ (w'.exchanged ≡ cfg.refresh_token ∷ w.exchanged))
  unfolding upload
  upload_bounds cfg snapshot w =
      upload_to_bounds (validate_hub_url parse_url cfg.hub_url) cfg snapshot w

  upload_to_stored :
      (base : Option String) (cfg : Config) (snapshot : Snapshot) (w : World) (job : IngestionJob)
      → (upload_to parse_url base cfg snapshot w).0 ≡ ok job
      → ((upload_to parse_url base cfg snapshot w).1 ≡ cfg)
        ⊎ ((upload_to parse_url base cfg snapshot w).2.stored
            ≡ (upload_to parse_url base cfg snapshot w).1 ∷ w.stored)
  unfolding upload_to
  upload_to_stored none cfg snapshot w job h = cc
  upload_to_stored (some base) cfg snapshot w job h =
      after_post_stored base cfg snapshot (post base cfg.access_token snapshot w).0
        (post base cfg.access_token snapshot w).1 job h

  -- When an upload succeeds, the configuration is unchanged or the renewed one has been stored.
  pub upload_stored :
      (cfg : Config) (snapshot : Snapshot) (w : World) (job : IngestionJob)
      → (upload parse_url cfg snapshot w).0 ≡ ok job
      → ((upload parse_url cfg snapshot w).1 ≡ cfg)
        ⊎ ((upload parse_url cfg snapshot w).2.stored
            ≡ (upload parse_url cfg snapshot w).1 ∷ w.stored)
  unfolding upload
  upload_stored cfg snapshot w job h =
      upload_to_stored (validate_hub_url parse_url cfg.hub_url) cfg snapshot w job h

module _ {ℓ} (parse_url : String → Option Url) (P : Snapshot → Type ℓ) where
  after_refresh_sends :
      (base : String) (snapshot : Snapshot) (r : Option ClientError × Config × World)
      → P snapshot
      → All (λ q. P q.snapshot) r.2.sent
      → All (λ q. P q.snapshot) (after_refresh parse_url base snapshot r).2.sent
  unfolding after_refresh
  after_refresh_sends base snapshot (none, cfg, w) p h = (p, h)
  after_refresh_sends base snapshot (some e, cfg, w) p h = h

  after_post_sends :
      (base : String) (cfg : Config) (snapshot : Snapshot) (r : Result ClientError IngestionJob)
      (w : World)
      → P snapshot
      → All (λ q. P q.snapshot) w.sent
      → All (λ q. P q.snapshot) (after_post parse_url base cfg snapshot r w).2.sent
  unfolding after_post
  after_post_sends base cfg snapshot (ok job) w p h = h
  after_post_sends base cfg snapshot (err e) w p h =
      elim (Bool-cases (is_unauthorized e && not (cfg.refresh_token == ""))) [
        | inl b ↦ rw b (
            after_refresh_sends base snapshot (refresh parse_url cfg w) p
              (rw ((refresh_target parse_url cfg w).1) h))
        | inr b ↦ rw b h
      ]

  upload_to_sends :
      (base : Option String) (cfg : Config) (snapshot : Snapshot) (w : World)
      → P snapshot
      → All (λ q. P q.snapshot) w.sent
      → All (λ q. P q.snapshot) (upload_to parse_url base cfg snapshot w).2.sent
  unfolding upload_to
  upload_to_sends none cfg snapshot w p h = h
  upload_to_sends (some base) cfg snapshot w p h =
      after_post_sends base cfg snapshot (post base cfg.access_token snapshot w).0
        (post base cfg.access_token snapshot w).1 p (p, h)

  -- An upload sends nothing but its snapshot.
  pub upload_sends :
      (cfg : Config) (snapshot : Snapshot) (w : World)
      → P snapshot
      → All (λ q. P q.snapshot) w.sent
      → All (λ q. P q.snapshot) (upload parse_url cfg snapshot w).2.sent
  unfolding upload
  upload_sends cfg snapshot w =
      upload_to_sends (validate_hub_url parse_url cfg.hub_url) cfg snapshot w
