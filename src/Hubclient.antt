-- ===== src/Hubclient.antt =====
-- internal/hubclient/client.go: `Upload`, `refresh` and `validateHubURL`; `Config` of
-- internal/config/config.go. The network and the file system are a script of answers in `World`,
-- which keeps what was sent and stored, newest first.
pub mod Uploading
pub mod Delivered
use Prim.Native.Char.{code}
use barrikade_lens.Common.{
  ℕ, ◌+◌, Bool, true, false, ◌&&◌, ◌||◌, not, String, List, [], ◌∷◌, Option, none, some, ◌==◌, eqb,
  leb, Result, ok, err, tail, if◌then◌else◌,
}
use barrikade_lens.Discovery.Types.{Snapshot}
use barrikade_lens.Discovery.Privacy.{trim_space}

pub record Config : Type 0 where
  pub config_version : ℕ
  pub hub_url : String
  pub organization_id : String
  pub source_id : String
  pub target_id : String
  pub access_token : String
  pub access_token_expires_at : String
  pub refresh_token : String
  pub sequence : ℕ

-- What the code reads of a `url.URL`; `loopback` is net.ParseIP(host).IsLoopback().
pub record Url : Type 0 where
  pub scheme : String
  pub host : String
  pub is_localhost : Bool
  pub loopback : Bool
  pub has_user : Bool
  pub raw_query : String
  pub fragment : String
  pub printed : String

pub record IngestionJob : Type 0 where
  pub id : String
  pub status : String

pub record TokenResponse : Type 0 where
  pub hub_url : String
  pub access_token : String
  pub access_token_expires_at : String
  pub refresh_token : String

pub data ClientError : Type 0 where
  invalid_hub_url : ClientError
  http_error : ℕ → ClientError  -- the status of an answer outside 200 to 299
  transport_error : ClientError
  incomplete_credentials : ClientError
  save_failed : ClientError

-- A request for POST /v1/discovery/snapshots.
pub record Request : Type 0 where
  pub endpoint : String
  pub bearer : String
  pub snapshot : Snapshot

pub record World : Type 0 where
  pub posts : List (Result ClientError IngestionJob)
  pub tokens : List (Result ClientError TokenResponse)
  pub saves : List Bool
  pub sent : List Request
  pub exchanged : List String
  pub stored : List Config

pub trim_slash : String → String
trim_slash String.[] = ""
trim_slash (String.◌∷◌ c s) =
    let rest = trim_slash s in if eqb (code c) b'/' && s == "" then "" else String.◌∷◌ c rest

-- `parse_url` is url.Parse, `none` being its error.
unfoldable pub validate_hub_url : (String → Option Url) → String → Option String
unfolding trim_slash
validate_hub_url parse_url raw = elim (parse_url (trim_space raw)) [
  | none ↦ none
  | some u ↦
      if u.host == ""
      then none
      else if u.has_user || not (u.raw_query == "") || not (u.fragment == "")
      then none
      else if not (u.scheme == "https")
          && (not (u.scheme == "http") || not (u.is_localhost || u.loopback))
      then none
      else some (trim_slash u.printed)
]

pub next_post : List (Result ClientError IngestionJob) → Result ClientError IngestionJob
next_post [] = err transport_error
next_post (r ∷ rs) = r

-- doJSON for a snapshot.
unfoldable pub post : String → String → Snapshot → World → Result ClientError IngestionJob × World
unfolding next_post
post base bearer snapshot w = (
  next_post w.posts,
  record w {
    posts = tail w.posts;
    sent = record { endpoint = base; bearer = bearer; snapshot = snapshot } ∷ w.sent;
  },
)

pub next_token : List (Result ClientError TokenResponse) → Result ClientError TokenResponse
next_token [] = err transport_error
next_token (r ∷ rs) = r

-- doJSON for POST /v1/collector/token.
unfoldable pub exchange : String → World → Result ClientError TokenResponse × World
unfolding next_token
exchange refresh_token w = (
  next_token w.tokens,
  record w { tokens = tail w.tokens; exchanged = refresh_token ∷ w.exchanged },
)

pub next_save : List Bool → Bool
next_save [] = false
next_save (b ∷ bs) = b

-- lensconfig.Save: the file is replaced as a whole, or not at all.
unfoldable pub save : Config → World → Bool × World
unfolding next_save
save cfg w =
    let rest = tail w.saves in
    if next_save w.saves
    then (true, record w { saves = rest; stored = cfg ∷ w.stored })
    else (false, record w { saves = rest })

unfoldable pub is_unauthorized : ClientError → Bool
is_unauthorized (http_error status) = eqb status 401
is_unauthorized _ = false

module _ (parse_url : String → Option Url) where
  pub refreshed_url : Config → TokenResponse → String
  unfolding validate_hub_url
  refreshed_url cfg r =
      if r.hub_url == ""
      then cfg.hub_url
      else elim (validate_hub_url parse_url r.hub_url) [ none ↦ cfg.hub_url | some u ↦ u ]

  unfoldable pub renewed : Config → TokenResponse → Config
  unfolding refreshed_url
  renewed cfg r = record cfg {
    access_token = r.access_token;
    access_token_expires_at = r.access_token_expires_at;
    refresh_token = r.refresh_token;
    hub_url = refreshed_url cfg r;
  }

  pub store_renewed : Config → World → Option ClientError × Config × World
  unfolding save
  store_renewed cfg w =
      let (done, w') = save cfg w in (if done then none else some save_failed, cfg, w')

  pub after_exchange :
      Config → Result ClientError TokenResponse → World → Option ClientError × Config × World
  unfolding store_renewed renewed
  after_exchange cfg (err e) w = (some e, cfg, w)
  after_exchange cfg (ok r) w =
      if r.access_token == "" || r.refresh_token == ""
      then (some incomplete_credentials, cfg, w)
      else store_renewed (renewed cfg r) w

  -- Client.refresh
  unfoldable pub refresh : Config → World → Option ClientError × Config × World
  unfolding after_exchange exchange
  refresh cfg w = let (r, w') = exchange cfg.refresh_token w in after_exchange cfg r w'

  pub after_refresh :
      String
      → Snapshot
      → Option ClientError × Config × World
      → Result ClientError IngestionJob × Config × World
  unfolding post
  after_refresh base snapshot (some e, cfg, w) = (err e, cfg, w)
  after_refresh base snapshot (none, cfg, w) =
      let (r, w') = post base cfg.access_token snapshot w in (r, cfg, w')

  pub after_post :
      String
      → Config
      → Snapshot
      → Result ClientError IngestionJob
      → World
      → Result ClientError IngestionJob × Config × World
  unfolding after_refresh is_unauthorized
  after_post base cfg snapshot (ok job) w = (ok job, cfg, w)
  after_post base cfg snapshot (err e) w =
      if is_unauthorized e && not (cfg.refresh_token == "")
      then after_refresh base snapshot (refresh cfg w)
      else (err e, cfg, w)

  pub upload_to :
      Option String → Config → Snapshot → World → Result ClientError IngestionJob × Config × World
  unfolding after_post post
  upload_to none cfg snapshot w = (err invalid_hub_url, cfg, w)
  upload_to (some base) cfg snapshot w =
      let (r, w') = post base cfg.access_token snapshot w in after_post base cfg snapshot r w'

  -- Client.Upload
  unfoldable pub upload :
      Config → Snapshot → World → Result ClientError IngestionJob × Config × World
  unfolding upload_to
  upload cfg snapshot w = upload_to (validate_hub_url parse_url cfg.hub_url) cfg snapshot w
