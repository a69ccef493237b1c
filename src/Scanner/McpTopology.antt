-- ===== src/Scanner/McpTopology.antt =====
-- internal/scanner/mcptopology/topology.go: `Add`, by way of the builder.
pub mod Clean
pub mod Kept
use Prim.Native.String as Str
use barrikade_lens.Common.{
  Bool, true, false, ◌||◌, String, List, [], ◌∷◌, ◌++◌, Option, none, some, ◌==◌, if◌then◌else◌,
}
use barrikade_lens.Discovery.Values.{Fields, bool, text, texts, field, end, put}
use barrikade_lens.Discovery.Urls.{UrlLibrary, sanitize_url, url_host, is_cloud_metadata_host}
use barrikade_lens.Discovery.Types.{
  kind_mcp_server, kind_tool, kind_api_service, relationship_connects_to, relationship_provides,
}
use barrikade_lens.Scanner.Builder.{Builder, add_entity, add_relationship}
use barrikade_lens.Scanner.McpConfig.{McpTool, McpServer}

pub record McpContext : Type 0 where
  pub local_canonical_prefix : String
  pub source_surface : String
  pub descriptor : String
  pub source : String

pub record TopologyResult : Type 0 where
  pub server_id : String
  pub tool_ids : List String
  pub destination_id : String

pub put_text : String → String → Fields → Fields
put_text key value attributes = if value == "" then attributes else put key (text value) attributes

pub put_enabled : Option Bool → Fields → Fields
put_enabled none attributes = attributes
put_enabled (some enabled) attributes = put "enabled" (bool enabled) attributes

pub put_endpoint : String → String → Bool → Fields → Fields
put_endpoint sanitized host true attributes =
    put "host" (text host) (put "endpoint" (text sanitized) attributes)
put_endpoint sanitized host false attributes = attributes

pub put_keys : List String → Fields → Fields
put_keys [] attributes = attributes
put_keys (key ∷ keys) attributes = put "environment_keys" (texts (key ∷ keys)) attributes

pub put_credential : Bool → Fields → Fields
put_credential true attributes = put "credential_present" (bool true) attributes
put_credential false attributes = attributes

abbrev pub declared_state : Fields
declared_state = field "capability_state" (text "declared") end

-- toolAttributes
pub tool_attributes : McpContext → McpTool → Fields
tool_attributes context tool = put_enabled tool.enabled (
    field "declared" (bool true) (
      field "capability_state" (text "declared")
        (field "source_surface" (text context.source_surface) end)))

-- destinationAttributes
pub destination_attributes : McpContext → String → String → Fields
destination_attributes context sanitized host = field "host" (text host) (
    field "endpoint" (text sanitized) (
      field "destination_kind" (text "service")
        (field "source_surface" (text context.source_surface) (field "sanitized" (bool true) end))))

abbrev pub direct_evidence : Fields
direct_evidence =
    field "direct_evidence" (bool true) (field "capability_state" (text "declared") end)

module _ (lib : UrlLibrary) (stable : List String → String) where
  -- The address without what is secret, if there is one that can be read.
  unfoldable pub address_of : McpServer → Option String
  address_of server = if server.url == "" then none else sanitize_url lib server.url

  unfoldable pub sanitized_of : McpServer → String
  sanitized_of server = elim (address_of server) [ none ↦ "" | some value ↦ value ]

  -- `attributes` of Add
  unfoldable pub server_attributes : McpContext → McpServer → Fields
  server_attributes context server = put_credential server.credential_present (
      put_keys server.environment_keys (
        put_enabled server.enabled (
          put_endpoint (sanitized_of server) (url_host lib (sanitized_of server))
            (elim (address_of server) [ none ↦ false | some value ↦ true ])
            (put_text "source" context.source (
              put_text "descriptor" context.descriptor (
                field "configured" (bool true) (
                  field "transport" (text server.transport) (
                    field "source_surface" (text context.source_surface)
                      (field "capability_state" (text "declared") end)))))))))

  unfoldable pub server_canonical : McpContext → McpServer → String
  server_canonical context server = elim (address_of server) [
    | some value ↦ Str.◌++◌ "mcp-endpoint:" value
    | none ↦ Str.◌++◌ context.local_canonical_prefix (Str.◌++◌ ":mcp:" (lib.to_lower server.name))
  ]

  unfoldable pub own_server : String → String → List String → Builder → Builder
  own_server owner server refs b =
      if owner == ""
      then b
      else (add_relationship stable relationship_connects_to owner server declared_state refs b).1

  unfoldable pub add_tool_entity :
      McpContext → String → String → List String → McpTool → Builder → String × Builder
  add_tool_entity context canonical server refs tool b =
      let (id, added) =
        add_entity stable kind_tool
          (Str.◌++◌ canonical (Str.◌++◌ ":tool:" (lib.to_lower tool.name))) tool.name
          (tool_attributes context tool) refs b in
      (id, (add_relationship stable relationship_provides server id declared_state refs added).1)

  -- The loop over the tools.
  unfoldable pub add_tools :
      McpContext → String → String → List String → List McpTool → Builder → List String × Builder
  add_tools context canonical server refs [] b = ([], b)
  add_tools context canonical server refs (tool ∷ tools) b =
      let (id, added) = add_tool_entity context canonical server refs tool b in
      let (ids, after) = add_tools context canonical server refs tools added in (id ∷ ids, after)

  unfoldable pub add_destination :
      McpContext → String → String → List String → Builder → String × Builder
  add_destination context server sanitized refs b =
      let host = url_host lib sanitized in
      let (id, added) =
        add_entity stable kind_api_service (Str.◌++◌ "api-host:" host) host
          (destination_attributes context sanitized host) refs b in
      let joined =
        (add_relationship stable relationship_connects_to server id direct_evidence refs added).1 in
      if host == "" || is_cloud_metadata_host lib host then ("", b) else (id, joined)

  -- Add
  unfoldable pub add :
      McpContext → String → McpServer → List String → Builder → TopologyResult × Builder
  add context owner server refs b =
      let canonical = server_canonical context server in
      let (id, added) =
        add_entity stable kind_mcp_server canonical server.name (server_attributes context server)
          refs b in
      let (tools, with_tools) =
        add_tools context canonical id refs server.tools (own_server owner id refs added) in
      let (destination, after) = add_destination context id (sanitized_of server) refs with_tools in
      (record { server_id = id; tool_ids = tools; destination_id = destination }, after)
