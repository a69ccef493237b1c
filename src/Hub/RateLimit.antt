-- ===== src/Hub/RateLimit.antt =====
-- internal/hub/rate_limit.go. Times are nanoseconds; the table request_rate_limits is a list of rows with
-- the key (scope, key_digest, window_start). net.SplitHostPort and the hash are parameters; a query that
-- fails leaves the table as it was.
pub mod Admitted
use Prim.Native.String as Str
use barrikade_lens.Common.{
  ℕ, suc, ◌+◌, ◌-◌, ◌*◌, ◌/◌, ◌%◌, Bool, true, false, ◌&&◌, String, List, [], ◌∷◌, Option, none,
  some, ◌==◌, ltb, eqb, if◌then◌else◌,
}

pub record Principal : Type 0 where
  pub organization_id : String
  pub source_id : String

-- What the keys read of a request.
pub record HubRequest : Type 0 where
  pub remote_addr : String
  pub principal : Option Principal

pub record LimitRow : Type 0 where
  pub scope : String
  pub key_digest : String
  pub window_start : ℕ
  pub request_count : ℕ
  pub expires_at : ℕ

pub data Verdict : Type 0 where
  unavailable : Verdict
  limited : ℕ → Verdict  -- with Retry-After
  admitted : Verdict

-- remoteRequestKey
unfoldable pub remote_request_key : (String → Option String) → HubRequest → String
remote_request_key split_host request = elim (split_host request.remote_addr) [
  | none ↦ request.remote_addr
  | some host ↦ if host == "" then request.remote_addr else host
]

-- principalRequestKey
unfoldable pub principal_request_key : (String → Option String) → HubRequest → String
principal_request_key split_host request = elim request.principal [
  | none ↦ remote_request_key split_host request
  | some principal ↦
      if principal.source_id == ""
      then principal.organization_id
      else Str.◌++◌ principal.organization_id (Str.◌++◌ ":" principal.source_id)
]

-- now.Truncate(window)
unfoldable pub window_of : ℕ → ℕ → ℕ
window_of window now = now - now % window

unfoldable pub is_limit_row : String → String → ℕ → LimitRow → Bool
is_limit_row scope digest start row =
    row.scope == scope && row.key_digest == digest && eqb row.window_start start

-- INSERT ... ON CONFLICT DO UPDATE ... RETURNING request_count
unfoldable pub count_request : String → String → ℕ → ℕ → List LimitRow → ℕ × List LimitRow
count_request scope digest start window [] = (
  1,
  record {
    scope = scope;
    key_digest = digest;
    window_start = start;
    request_count = 1;
    expires_at = start + 2 * window;
  }
      ∷ [],
)
count_request scope digest start window (row ∷ rows) =
    let (count, rest) = count_request scope digest start window rows in
    if is_limit_row scope digest start row
    then (row.request_count + 1, record row { request_count = row.request_count + 1 } ∷ rows)
    else (count, row ∷ rest)

-- The whole seconds until the end of the window at a time, and one more; at least 1.
unfoldable pub retry_after : ℕ → ℕ → ℕ → ℕ
retry_after start window now = (start + window - now) / 1000000000 + 1

unfoldable pub decide : ℕ → ℕ → ℕ → ℕ → ℕ → Verdict
decide limit start window now count =
    if ltb limit count then limited (retry_after start window now) else admitted

-- A request as rateLimit handles it: the scope, the digest of the key, the time, the time at which a
-- refusal is written, and whether the database answers.
pub record LimitCall : Type 0 where
  pub scope : String
  pub digest : String
  pub now : ℕ
  pub refused_at : ℕ
  pub answered : Bool

-- rateLimit
unfoldable pub rate_limit : ℕ → ℕ → LimitCall → List LimitRow → Verdict × List LimitRow
rate_limit limit window call table =
    let start = window_of window call.now in
    let (count, after) = count_request call.scope call.digest start window table in
    if call.answered
    then (decide limit start window call.refused_at count, after)
    else (unavailable, table)
