-- ===== src/Hub/Exposure.antt =====
-- internal/hub/exposure.go: the rules for exposures, and the table of their findings. What the queries
-- read is a record of parameters; the table is a list of rows, and a time is a number. strings.ToLower,
-- net.ParseIP, url.Parse, the hash and the JSON encoder are parameters too. A statement that fails
-- ends the transaction (Session).
pub mod Session
pub mod Rules
pub mod Table
pub mod Jobs
pub mod Context
use Prim.Native.String as Str
use barrikade_lens.Common.{
  ℕ, Bool, true, false, ◌&&◌, ◌||◌, not, String, List, [], ◌∷◌, ◌++◌, map, Option, none, some, ◌==◌,
  if◌then◌else◌, contains, Result, ok, err, ◌>>=◌,
}
use barrikade_lens.Discovery.Values.{
  Value, Values, Fields, null, bool, text, texts, items, object, nil, cons, field, end, get,
}
use barrikade_lens.Discovery.Privacy.{trim_dot}
use barrikade_lens.Discovery.Types.{kind_api_service, kind_mcp_server}

abbrev pub exposure_rule_version : String
exposure_rule_version = "1"

pub record EntityContext : Type 0 where
  pub owner_name : String
  pub owner_type : String
  pub environment : String
  pub criticality : String
  pub sensitivity : String
  pub data_categories : List String
  pub trust_boundary : String
  pub updated_by : String
  pub updated_at : Option ℕ

pub record CatalogOperation : Type 0 where
  pub key : String
  pub id : String
  pub method : String
  pub path : String
  pub summary : String
  pub class : String
  pub tags : List String
  pub auth_schemes : List String
  pub auth_scopes : List String

pub record ExposureCatalog : Type 0 where
  pub entity_id : String
  pub api_id : String
  pub source_id : String
  pub name : String
  pub version : String
  pub match_basis : String
  pub operations : List CatalogOperation

pub record ExposureDestination : Type 0 where
  pub id : String
  pub kind : String
  pub name : String
  pub host : String
  pub attributes : Fields
  pub is_public : Bool
  pub credential : Bool
  pub catalog : Option ExposureCatalog

pub record ExposureFinding : Type 0 where
  pub id : String
  pub root_id : String
  pub destination_id : String
  pub rule_id : String
  pub severity : String
  pub title : String
  pub explanation : String
  pub recommendation : String
  pub path : List Fields
  pub bases : List String

-- The constants of the rules.
abbrev pub external_credential_title : String
external_credential_title = "External service connection uses a credential"

abbrev pub external_credential_explanation : String
external_credential_explanation =
    "This AI tool or agent is set up to connect to an external service using a credential. Lens did not read the credential or confirm what it can access."

abbrev pub sensitive_public_title : String
sensitive_public_title = "Sensitive AI use can connect to a public service"

abbrev pub sensitive_public_explanation : String
sensitive_public_explanation =
    "This AI tool or agent is marked as handling sensitive data and is set up to connect to a public address. Lens did not observe data being transferred or the service being used."

abbrev pub state_changing_api_title : String
state_changing_api_title = "Connected API may allow changes"

abbrev pub state_changing_api_explanation : String
state_changing_api_explanation =
    "This connection uses a credential and points to an API that includes actions to create, update, or delete data. Lens did not confirm the credential's permissions or observe the API being used."

abbrev pub missing_owner_title : String
missing_owner_title = "No owner assigned"

abbrev pub missing_owner_explanation : String
missing_owner_explanation =
    "No person or team is assigned to this AI tool or agent. A device account observed using it does not count as an owner."

text_of : Option Value → String
text_of (some (text s)) = s
text_of _ = ""

-- attributeString
unfoldable pub attribute_string : Fields → String → String
unfolding text_of get
attribute_string attrs key = text_of (get key attrs)

-- boolValue
unfoldable pub bool_value : Option Value → Bool
bool_value (some (bool b)) = b
bool_value _ = false

is_false : Option Value → Bool
is_false (some (bool b)) = not b
is_false _ = false

-- explicitlyDisabled
unfoldable pub explicitly_disabled : Fields → Bool
unfolding is_false get
explicitly_disabled attrs = is_false (get "enabled" attrs)

-- containsAny
unfoldable pub contains_any : List String → List String → Bool
contains_any [] candidates = false
contains_any (value ∷ values) candidates =
    contains candidates value || contains_any values candidates

-- lowerSeverity; a missing key gives the empty text
unfoldable pub lower_severity : String → String
lower_severity value =
    if value == "critical"
    then "high"
    else if value == "high"
    then "medium"
    else if value == "medium"
    then "low"
    else if value == "low"
    then "low"
    else ""

-- observedPath
unfoldable pub observed_path : String → String → ExposureDestination → List Fields
observed_path root_id root_name destination =
    field "entity_id" (text root_id) (
      field "name" (text root_name)
        (field "kind" (text "system") (field "basis" (text "observed") end)))
    ∷ field "entity_id" (text destination.id) (
        field "name" (text destination.name) (
          field "kind" (text destination.kind)
            (field "edge" (text "connects_to") (field "basis" (text "observed") end))))
    ∷ []

-- strings.HasSuffix
unfoldable pub has_suffix : String → String → Bool
has_suffix suffix Str.[] = suffix == ""
has_suffix suffix (Str.◌∷◌ c s) = suffix == Str.◌∷◌ c s || has_suffix suffix s

-- What net.IP tells of an address.
pub record Address : Type 0 where
  pub is_loopback : Bool
  pub is_private : Bool
  pub is_link_local_unicast : Bool
  pub is_unspecified : Bool

public_address : Option Address → Bool
public_address none = true
public_address (some ip) =
    not (ip.is_loopback || ip.is_private || ip.is_link_local_unicast || ip.is_unspecified)

module _ (to_lower : String → String) (parse_ip : String → Option Address) where
  public_host : String → Bool
  unfolding has_suffix public_address
  public_host host =
      if host == "" || host == "localhost" || has_suffix ".local" host
      then false
      else public_address (parse_ip host)

  -- isPublicDestination
  unfoldable pub is_public_destination : String → Fields → Bool
  unfolding public_host trim_dot attribute_string
  is_public_destination host attrs =
      let scope = attribute_string attrs "network_scope" in
      scope == "external" || scope == "network" || public_host (trim_dot (to_lower host))
