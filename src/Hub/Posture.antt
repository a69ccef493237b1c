-- ===== src/Hub/Posture.antt =====
-- internal/hub/posture.go: the classification of entities and relationships. strings.EqualFold is a
-- parameter; attributes are decoded JSON, where a missing key reads as nil.
pub mod Scopes
pub mod States
pub mod Aggregation
use barrikade_lens.Common.{
  ℕ, Bool, true, false, ◌&&◌, ◌||◌, not, String, List, [], ◌∷◌, Option, none, some, ◌==◌, ltb,
  if◌then◌else◌,
}
use barrikade_lens.Discovery.Values.{Value, Fields, bool, text, get}
use barrikade_lens.Discovery.Types.{
  kind_agent, kind_runtime, kind_model_server, kind_endpoint, kind_repository, kind_cluster,
  kind_model, kind_mcp_server, kind_api_service, relationship_owned_by, relationship_exposes,
  relationship_uses, relationship_connects_to, relationship_provides, relationship_invokes,
}

set : Option Value → Bool
set (some (bool b)) = b
set _ = false

reads : Option Value → String → Bool
reads (some (text s)) t = s == t
reads _ t = false

-- value, _ := attrs[key].(bool)
unfoldable pub flag : String → Fields → Bool
unfolding set get
flag key attrs = set (get key attrs)

-- attrs[key] == word
pub has_word : String → String → Fields → Bool
unfolding reads get
has_word key word attrs = reads (get key attrs) word

-- postureRole
unfoldable pub posture_role : String → Fields → String × String
unfolding has_word flag
posture_role kind attrs =
    if kind == kind_agent
    then if has_word "entity_role" "runtime_helper_definition" attrs
        || has_word "definition_format" "agent_markdown" attrs
          && has_word "source_surface" "endpoint" attrs
          && flag "defined" attrs
      then ("component", "")
      else ("system", "autonomous_agent")
    else if kind == kind_runtime
    then if has_word "product_category" "agent_tool" attrs
      then ("system", "agent_tool")
      else if has_word "product_category" "model_runtime" attrs
      then ("system", "model_runtime")
      else ("supporting", "")
    else if kind == kind_model_server
    then ("component", "")
    else if kind == kind_endpoint || kind == kind_repository || kind == kind_cluster
    then ("target", "")
    else if kind == kind_model
    then ("artifact", "")
    else ("component", "")

abbrev pub state_flags : List (String × String)
state_flags =
    ("running_at_scan", "running")
    ∷ ("deployed", "deployed")
    ∷ ("defined", "defined")
    ∷ ("configured", "configured")
    ∷ ("installed", "installed")
    ∷ ("state_present", "residual")
    ∷ ("cached", "cached")
    ∷ []

pub first_state : List (String × String) → Fields → String
first_state [] attrs = "observed"
first_state ((key, state) ∷ rest) attrs =
    let later = first_state rest attrs in if flag key attrs then state else later

-- discoveryState
unfoldable pub discovery_state : Fields → String
unfolding first_state
discovery_state attrs = first_state state_flags attrs

pub serves : (String → String → Bool) → Option Value → Bool
serves equal_fold (some (text s)) = equal_fold s "LoadBalancer" || equal_fold s "Ingress"
serves equal_fold _ = equal_fold "" "LoadBalancer" || equal_fold "" "Ingress"

-- networkScope
pub network_scope : (String → String → Bool) → String → Fields → String
unfolding serves has_word flag get
network_scope equal_fold kind attrs =
    if flag "external" attrs
    then "external"
    else if serves equal_fold (get "service_kind" attrs)
    then "external"
    else if has_word "binding" "loopback" attrs
    then "loopback"
    else if has_word "binding" "interface" attrs || has_word "binding" "all_interfaces" attrs
    then "network"
    else if (kind == kind_model_server || kind == kind_mcp_server || kind == kind_api_service)
        && flag "running_at_scan" attrs
    then "unknown"
    else "none"

-- The map `rank` of strongerNetworkScope; a missing key gives 0.
pub scope_rank : String → ℕ
scope_rank s =
    if s == "none"
    then 1
    else if s == "unknown"
    then 2
    else if s == "loopback"
    then 3
    else if s == "network"
    then 4
    else if s == "external"
    then 5
    else 0

-- strongerNetworkScope
pub stronger_network_scope : String → String → String
unfolding scope_rank
stronger_network_scope left right =
    if ltb (scope_rank left) (scope_rank right) then right else if left == "" then "none" else left

-- postureAttribute
unfoldable pub posture_attribute : String → Bool
posture_attribute key =
    key == "running_at_scan"
    || key == "deployed"
    || key == "defined"
    || key == "configured"
    || key == "installed"
    || key == "state_present"
    || key == "cached"
    || key == "enabled"

-- networkAttribute
unfoldable pub network_attribute : String → Bool
network_attribute key =
    key == "binding"
    || key == "host"
    || key == "hosts"
    || key == "port"
    || key == "ports"
    || key == "transport"
    || key == "endpoint"
    || key == "external"
    || key == "service_kind"

-- relationshipCategory
unfoldable pub relationship_category : String → String
relationship_category kind =
    if kind == relationship_owned_by
    then "attribution"
    else if kind == relationship_exposes
    then "network_scope"
    else if kind == relationship_uses
        || kind == relationship_connects_to
        || kind == relationship_provides
        || kind == relationship_invokes
    then "capability"
    else "metadata"

-- networkScopeTitle
unfoldable pub network_scope_title : String → String
network_scope_title value =
    if value == "network"
    then "Network accessible"
    else if value == "external"
    then "Externally accessible"
    else if value == "loopback"
    then "Loopback"
    else if value == "none"
    then "No listener"
    else "Unknown network scope"
