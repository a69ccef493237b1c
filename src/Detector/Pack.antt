-- ===== src/Detector/Pack.antt =====
-- internal/detector/pack.go: the types of a pack and `Validate`. strings.ToLower and the hash of a
-- pack's JSON are parameters; a map is an association list.
pub mod Ids
pub mod Owners
use barrikade_lens.Common.{
  ℕ, Bool, true, false, ◌&&◌, ◌||◌, not, String, List, [], ◌∷◌, map, Option, none, some, ◌==◌, eqb,
  contains, ℤ, within, length, Result, ok, err, ◌>>=◌, ◌>>◌, fail_if, if◌then◌else◌,
}
use barrikade_lens.Discovery.Privacy.{trim_space}

pub record Config : Type 0 where
  pub path : String
  pub format : String
  pub scope : String

pub record Port : Type 0 where
  pub name : String
  pub port : ℤ

pub record RuntimeSignature : Type 0 where
  pub id : String
  pub name : String
  pub category : String
  pub processes : List String
  pub images : List String
  pub environment_keys : List String
  pub extension_ids : List String
  pub install_paths : List String
  pub paths : List String
  pub configs : List Config
  pub skill_roots : List String
  pub agent_roots : List String
  pub model_servers : List Port

pub record PackageSignature : Type 0 where
  pub id : String
  pub name : String
  pub packages : List String
  pub language_packages : List (String × List String)
  pub imports : List String
  pub language_imports : List (String × List String)

pub record ModelCache : Type 0 where
  pub id : String
  pub name : String
  pub paths : List String
  pub layout : String

pub record SkillRoot : Type 0 where
  pub id : String
  pub name : String
  pub paths : List String
  pub scope : String

pub record Listener : Type 0 where
  pub id : String
  pub name : String
  pub kind : String
  pub port : ℤ
  pub processes : List String

pub record Pack : Type 0 where
  pub schema_version : String
  pub id : String
  pub version : String
  pub checksum : String
  pub runtimes : List RuntimeSignature
  pub frameworks : List PackageSignature
  pub model_caches : List ModelCache
  pub skill_roots : List SkillRoot
  pub extension_roots : List String
  pub listeners : List Listener

pub data PackError : Type 0 where
  bad_header bad_runtime bad_framework bad_cache bad_root bad_listener : PackError
  empty_extension_root checksum_mismatch : PackError
  duplicate_detector : String → PackError
  empty_extension_id : String → PackError
  shared_extension : String → String → String → PackError
  bad_format bad_scope bad_server bad_languages bad_layout bad_kind : String → PackError

pub runtime_category : String → Bool
runtime_category value =
    value == "agent_tool"
    || value == "model_runtime"
    || value == "host_application"
    || value == "development_runtime"
    || value == "unclassified"

pub source_language : String → Bool
source_language value =
    value == "python"
    || value == "javascript"
    || value == "go"
    || value == "rust"
    || value == "jvm"
    || value == "dotnet"
    || value == "ruby"

pub is_scope : String → Bool
is_scope s = s == "user" || s == "project" || s == "system"

pub is_format : String → Bool
is_format s = s == "json" || s == "jsonc" || s == "yaml" || s == "yml" || s == "toml"

abbrev pub PackChecked : Type 0
PackChecked = Result PackError (Unit {0})

-- The loop over `runtime.Configs`.
pub validate_configs : String → List Config → PackChecked
unfolding is_scope is_format
validate_configs id [] = ok tt
validate_configs id (c ∷ rest) = do
  fail_if (not (is_format c.format)) (bad_format id)
  fail_if (not (is_scope c.scope)) (bad_scope id)
  validate_configs id rest

pub is_server : Port → Bool
is_server p = not (p.name == "") && within 1 65535 p.port

-- The loop over `runtime.ModelServers`.
pub validate_servers : String → List Port → PackChecked
unfolding is_server
validate_servers id [] = ok tt
validate_servers id (p ∷ rest) = do
  fail_if (not (is_server p)) (bad_server id)
  validate_servers id rest

-- A loop over `LanguagePackages` or `LanguageImports`.
pub validate_languages : String → List (String × List String) → PackChecked
unfolding source_language
validate_languages id [] = ok tt
validate_languages id ((language, packages) ∷ rest) = do
  fail_if (not (source_language language) || eqb (length packages) 0) (bad_languages id)
  validate_languages id rest

-- extensionOwners[k], with the second result
pub owner_of : String → List (String × String) → Option String
owner_of k [] = none
owner_of k ((j, a) ∷ m) = if k == j then some a else owner_of k m

-- owner, exists := extensionOwners[extensionID]; exists && owner != runtime.ID
pub check_owner : String → String → Option String → PackChecked
check_owner extension id none = ok tt
check_owner extension id (some owner) =
    fail_if (not (owner == id)) (shared_extension extension owner id)

-- The loops that share `seen`: for each item, the checks before its id is looked up, the id, and
-- the checks after it.
module _ {A : Type 0} (key : A → String) (before after : A → PackChecked) where
  unfoldable pub visit : List String → List A → Result PackError (List String)
  visit seen [] = ok seen
  visit seen (x ∷ xs) = do
    before x
    fail_if (contains seen (key x)) (duplicate_detector (key x))
    after x
    visit (key x ∷ seen) xs

pub framework_given : PackageSignature → PackChecked
framework_given f =
    fail_if
      (f.id == ""
        || f.name == ""
        || eqb (length f.packages) 0 && eqb (length f.language_packages) 0)
      bad_framework

pub framework_languages : PackageSignature → PackChecked
unfolding validate_languages
framework_languages f = do
  validate_languages f.id f.language_packages
  validate_languages f.id f.language_imports

pub cache_given : ModelCache → PackChecked
cache_given c = do
  fail_if (c.id == "" || c.name == "" || eqb (length c.paths) 0) bad_cache
  fail_if
      (not (
        c.layout == "huggingface"
        || c.layout == "ollama"
        || c.layout == "lm-studio"
        || c.layout == "directory"))
      (bad_layout c.id)

pub root_given : SkillRoot → PackChecked
unfolding is_scope
root_given r = do
  fail_if (r.id == "" || r.name == "" || eqb (length r.paths) 0) bad_root
  fail_if (not (is_scope r.scope)) (bad_scope r.id)

unfoldable pub listener_given : Listener → PackChecked
listener_given l = do
  fail_if (l.id == "" || l.name == "" || not (within 1 65535 l.port) || eqb (length l.processes) 0)
      bad_listener
  fail_if (not (l.kind == "model_server" || l.kind == "mcp_server" || l.kind == "api_service"))
      (bad_kind l.id)

abbrev pub no_check {ℓ} : {A : Type ℓ} → A → PackChecked
no_check x = ok tt

unfoldable pub validate_extension_roots : List String → PackChecked
validate_extension_roots [] = ok tt
validate_extension_roots (root ∷ rest) = do
  fail_if (trim_space root == "") empty_extension_root
  validate_extension_roots rest

abbrev pub framework_id : PackageSignature → String
framework_id f = f.id

abbrev pub cache_id : ModelCache → String
cache_id c = c.id

abbrev pub root_id : SkillRoot → String
root_id r = r.id

abbrev pub listener_id : Listener → String
listener_id l = l.id

module _ (to_lower : String → String) (hash_pack : Pack → String) where
  pub extension_id : String → String
  extension_id raw = to_lower (trim_space raw)

  -- The loop over `runtime.ExtensionIDs`, which returns `extensionOwners`.
  pub claim :
      String → List (String × String) → List String → Result PackError (List (String × String))
  unfolding extension_id check_owner owner_of
  claim id owners [] = ok owners
  claim id owners (raw ∷ rest) = do
    fail_if (extension_id raw == "") (empty_extension_id id)
    check_owner (extension_id raw) id (owner_of (extension_id raw) owners)
    claim id ((extension_id raw, id) ∷ owners) rest

  -- The loop over the runtimes, which returns `seen` and `extensionOwners`.
  unfoldable pub validate_runtimes :
      List String
      → List (String × String)
      → List RuntimeSignature
      → Result PackError (List String × List (String × String))
  unfolding runtime_category claim validate_configs validate_servers
  validate_runtimes seen owners [] = ok (seen, owners)
  validate_runtimes seen owners (r ∷ rest) = do
    fail_if (r.id == "" || r.name == "" || not (runtime_category r.category)) bad_runtime
    fail_if (contains seen r.id) (duplicate_detector r.id)
    owners' ← claim r.id owners r.extension_ids
    validate_configs r.id r.configs
    validate_servers r.id r.model_servers
    validate_runtimes (r.id ∷ seen) owners' rest

  -- Pack.CalculatedChecksum
  unfoldable pub calculated_checksum : Pack → String
  calculated_checksum p = hash_pack (record p { checksum = "" })

  -- Pack.Validate
  unfoldable pub validate_pack : Pack → PackChecked
  validate_pack p = do
    fail_if (not (p.schema_version == "2") || p.id == "" || p.version == "") bad_header
    (seen, owners) ← validate_runtimes [] [] p.runtimes
    seen' ← visit framework_id framework_given framework_languages seen p.frameworks
    seen'' ← visit cache_id cache_given no_check seen' p.model_caches
    seen''' ← visit root_id root_given no_check seen'' p.skill_roots
    validate_extension_roots p.extension_roots
    used ← visit listener_id listener_given no_check seen''' p.listeners
    fail_if (not (p.checksum == "") && not (p.checksum == calculated_checksum p)) checksum_mismatch
