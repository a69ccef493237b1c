-- ===== src/Discovery/RuntimeIdentity.antt =====
-- pkg/discovery/runtime_identity.go: `Validate` of an observation. A loop over a map literal takes
-- its entries in the order of the text.
pub mod Complete
use Prim.Native.String.{len}
use Prim.Native.Char.{code}
use barrikade_lens.Common.{
  ℕ, suc, ◌+◌, Bool, true, false, ◌&&◌, ◌||◌, not, String, List, [], ◌∷◌, map, Option, none, some,
  ◌==◌, ltb, leb, eqb, contains, ℤ, pos, negsuc, length, Result, ok, err, ◌>>=◌, ◌>>◌, fail_if,
  if◌then◌else◌,
}
use barrikade_lens.Discovery.Privacy.{codes, strip, trim_space}

abbrev pub runtime_identity_observation_version : String
runtime_identity_observation_version = "0.1.0-experimental"

pub record ProcessAncestor : Type 0 where
  pub pid : ℤ
  pub start_time : String
  pub executable_path_digest : String

pub record MacosSigningFacts : Type 0 where
  pub signature_verified : Bool
  pub hardened_runtime : Bool
  pub publisher_team_id : String
  pub signing_identifier : String
  pub cdhash : String
  pub designated_requirement_digest : String
  pub signing_metadata_evidence_digest : String

pub record RuntimeIdentityFact : Type 0 where
  pub fact : String
  pub method : String
  pub observed_at : String

pub record RuntimeIdentityObservation : Type 0 where
  pub schema_version : String
  pub observation_id : String
  pub target_id : String
  pub product_id : String
  pub platform : String
  pub observed_at : String
  pub pid : ℤ
  pub start_time : String
  pub parent_pid : ℤ
  pub ancestry : List ProcessAncestor
  pub effective_uid : ℤ
  pub version : String
  pub executable_path_digest : String
  pub executable_sha256 : String
  pub macos_signing : MacosSigningFacts
  pub evidence : List RuntimeIdentityFact

pub data IdentityError : Type 0 where
  wrong_version missing_identity bad_process_ids bad_version bad_time : IdentityError
  bad_ancestry_size bad_ancestor bad_ancestor_time bad_fact bad_fact_time : IdentityError
  bad_digest lacks_evidence : String → IdentityError

abbrev pub IdentityChecked : Type 0
IdentityChecked = Result IdentityError (Unit {0})

-- 0 < n and 0 <= n
pub is_positive : ℤ → Bool
is_positive (pos n) = ltb 0 n
is_positive (negsuc n) = false

pub is_nonnegative : ℤ → Bool
is_nonnegative (pos n) = true
is_nonnegative (negsuc n) = false

pub is_hex_digit : ℕ → Bool
is_hex_digit c = leb b'0' c && leb c b'9' || leb b'a' c && leb c b'f'

pub all_hex : List ℕ → Bool
unfolding is_hex_digit
all_hex [] = true
all_hex (c ∷ cs) = is_hex_digit c && all_hex cs

pub hex_after : Option (List ℕ) → Bool
unfolding all_hex
hex_after none = false
hex_after (some rest) = all_hex rest

-- validSHA256
unfoldable pub valid_sha256 : String → Bool
unfolding hex_after strip
valid_sha256 value =
    hex_after (strip (codes "sha256:") (codes value)) && eqb (len value) (len "sha256:" + 64)

module _ (is_timestamp : String → Bool) where
  -- The loop over the ancestry.
  pub validate_ancestry : List ProcessAncestor → IdentityChecked
  validate_ancestry [] = ok tt
  validate_ancestry (a ∷ rest) = do
    fail_if (not (is_positive a.pid) || not (valid_sha256 a.executable_path_digest)) bad_ancestor
    fail_if (not (is_timestamp a.start_time)) bad_ancestor_time
    validate_ancestry rest

  -- The loop over the evidence, which returns the keys of `facts`.
  pub collect_facts : List String → List RuntimeIdentityFact → Result IdentityError (List String)
  collect_facts facts [] = ok facts
  collect_facts facts (e ∷ rest) = do
    fail_if (e.fact == "" || e.method == "") bad_fact
    fail_if (not (is_timestamp e.observed_at)) bad_fact_time
    collect_facts (e.fact ∷ facts) rest

  pub require_facts : List String → List String → IdentityChecked
  require_facts facts [] = ok tt
  require_facts facts (required ∷ rest) = do
    fail_if (not (contains facts required)) (lacks_evidence required)
    require_facts facts rest

  abbrev pub required_facts : List String
  required_facts = "process" ∷ "ancestry" ∷ "executable" ∷ "macos_signing" ∷ []

  pub validate_digests : RuntimeIdentityObservation → IdentityChecked
  validate_digests o = do
    fail_if (not (valid_sha256 o.executable_path_digest)) (bad_digest "executable_path_digest")
    fail_if (not (valid_sha256 o.executable_sha256)) (bad_digest "executable_sha256")
    fail_if (not (valid_sha256 o.macos_signing.signing_metadata_evidence_digest))
        (bad_digest "signing_metadata_evidence_digest")
    fail_if
        (not (o.macos_signing.designated_requirement_digest == "")
          && not (valid_sha256 o.macos_signing.designated_requirement_digest))
        (bad_digest "designated_requirement_digest")

  -- RuntimeIdentityObservation.Validate
  pub validate_identity : RuntimeIdentityObservation → IdentityChecked
  validate_identity o = do
    fail_if (not (o.schema_version == runtime_identity_observation_version)) wrong_version
    fail_if
        (o.observation_id == ""
          || o.target_id == ""
          || o.product_id == ""
          || not (o.platform == "darwin"))
        missing_identity
    fail_if
        (not (is_positive o.pid)
          || not (is_nonnegative o.parent_pid)
          || not (is_nonnegative o.effective_uid))
        bad_process_ids
    fail_if (trim_space o.version == "" || ltb 128 (len o.version)) bad_version
    fail_if (not (is_timestamp o.observed_at) || not (is_timestamp o.start_time)) bad_time
    validate_digests o
    fail_if (eqb (length o.ancestry) 0 || ltb 64 (length o.ancestry)) bad_ancestry_size
    validate_ancestry o.ancestry
    facts ← collect_facts [] o.evidence
    require_facts facts required_facts
