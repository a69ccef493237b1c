-- ===== src/Scanner/McpConfig/Servers.antt =====
-- internal/scanner/mcpconfig/parser.go: the servers of a document, `Find`.
use Prim.Native.String as Str
use barrikade_lens.Common.{
  Bool, false, ◌&&◌, ◌||◌, not, String, List, [], ◌∷◌, map, Option, none, some, ◌==◌, ltb,
  if◌then◌else◌,
}
use barrikade_lens.Common.Sorting.{text_le}
use barrikade_lens.Discovery.Values.{Value, Values, Fields, items, object, nil, cons, field, end}
use barrikade_lens.Discovery.Privacy.{trim_space, is_sensitive_key}
use barrikade_lens.Scanner.McpConfig.{
  McpServer, entry, set_entry, entry_value, union_texts, or_first, normalize_key, string_value,
  bool_in, map_in, normalize_transport, looks_like_server, looks_like_server_collection,
}
use barrikade_lens.Scanner.McpConfig.Tools.{declared_tools, merge_tools}

abbrev pub field_keys : Fields → List String
field_keys end = []
field_keys (field k v m) = k ∷ field_keys m

module _ (to_lower : String → String) (sprint : Value → String) where
  -- The loops over the environment and the headers.
  unfoldable pub has_credential : Fields → Bool
  has_credential end = false
  has_credential (field key value rest) =
      is_sensitive_key key && not (trim_space (sprint value) == "") || has_credential rest

  credential_in : Option Fields → Bool
  unfolding has_credential
  credential_in none = false
  credential_in (some m) = has_credential m

  keys_in : Option Fields → List String
  keys_in none = []
  keys_in (some m) = field_keys m

  unfoldable pub or_text : Option String → String → String
  or_text none t = t
  or_text (some s) t = s

  transport_of : Option String → Option String → String
  transport_of none none = "stdio"
  transport_of none (some url) = "http"
  transport_of (some transport) url = normalize_transport to_lower sprint transport

  -- `disabled` wins over `enabled`.
  enabled_of : Option Bool → Option Bool → Option Bool
  enabled_of enabled none = enabled
  enabled_of enabled (some disabled) = some (not disabled)

  -- serverFrom
  unfoldable pub server_from : String → Fields → McpServer
  unfolding credential_in keys_in or_text transport_of enabled_of
  server_from name config =
      let url =
        string_value to_lower sprint ("url" ∷ "endpoint" ∷ "serverUrl" ∷ "server_url" ∷ [])
          config in
      let environment = map_in to_lower sprint ("env" ∷ "environment" ∷ []) config in
      record {
        name = name;
        transport =
            transport_of (string_value to_lower sprint ("transport" ∷ "type" ∷ []) config) url;
        url = or_text url "";
        enabled =
            enabled_of (bool_in to_lower sprint ("enabled" ∷ []) config)
              (bool_in to_lower sprint ("disabled" ∷ []) config);
        environment_keys = union_texts [] (keys_in environment);
        credential_present =
            credential_in environment
            || credential_in
                (map_in to_lower sprint ("headers" ∷ "httpHeaders" ∷ "http_headers" ∷ []) config);
        tools = declared_tools to_lower sprint config;
      }

  unfoldable pub server_key : McpServer → String
  server_key server = Str.◌++◌ (to_lower server.name) (Str.◌++◌ "\0" server.url)

  unfoldable pub joined_server : Option McpServer → McpServer → McpServer
  joined_server none server = server
  joined_server (some current) server = record current {
    environment_keys = union_texts current.environment_keys server.environment_keys;
    credential_present = current.credential_present || server.credential_present;
    enabled = or_first current.enabled server.enabled;
    tools = merge_tools to_lower sprint current.tools server.tools;
  }

  -- addServer
  unfoldable pub add_server : McpServer → List (String × McpServer) → List (String × McpServer)
  unfolding server_key joined_server
  add_server server result =
      if server.name == "" || ltb 500 (Str.len server.name)
      then result
      else set_entry (server_key server) (joined_server (entry (server_key server) result) server)
          result

  unfoldable pub named_server :
      String → Value → List (String × McpServer) → List (String × McpServer)
  unfolding add_server
  named_server name (object config) result =
      if looks_like_server to_lower sprint config
      then add_server (server_from (trim_space name) config) result
      else result
  named_server name _ result = result

  unfoldable pub listed_server : Value → List (String × McpServer) → List (String × McpServer)
  unfolding or_text
  listed_server (object config) result =
      if looks_like_server to_lower sprint config
      then (add_server
          (server_from (or_text (string_value to_lower sprint ("name" ∷ "id" ∷ []) config) "")
            config)
          result)
      else result
  listed_server _ result = result

  unfoldable pub named_servers : Fields → List (String × McpServer) → List (String × McpServer)
  unfolding named_server
  named_servers end result = result
  named_servers (field name raw rest) result = named_servers rest (named_server name raw result)

  unfoldable pub listed_servers : Values → List (String × McpServer) → List (String × McpServer)
  unfolding listed_server
  listed_servers nil result = result
  listed_servers (cons raw rest) result = listed_servers rest (listed_server raw result)

  -- extractCollection
  unfoldable pub extract_collection : Value → List (String × McpServer) → List (String × McpServer)
  unfolding named_servers listed_servers
  extract_collection (object m) result = named_servers m result
  extract_collection (items vs) result = listed_servers vs result
  extract_collection _ result = result

  unfoldable pub is_collection : String → Value → Bool
  is_collection key child =
      normalize_key to_lower sprint key == "mcpservers"
      || normalize_key to_lower sprint key == "servers"
        && looks_like_server_collection to_lower sprint child

  -- `walk` of Find.
  unfoldable mutual
    unfolding is_collection

    pub walk : Value → List (String × McpServer) → List (String × McpServer)
    walk (object m) result = walk_fields m result
    walk (items vs) result = walk_values vs result
    walk _ result = result

    pub walk_fields : Fields → List (String × McpServer) → List (String × McpServer)
    walk_fields end result = result
    walk_fields (field key child rest) result =
        let inside = walk child result in
        walk_fields rest
          (if is_collection key child then extract_collection child result else inside)

    pub walk_values : Values → List (String × McpServer) → List (String × McpServer)
    walk_values nil result = result
    walk_values (cons child rest) result = walk_values rest (walk child result)

  -- The comparison of Find.
  unfoldable pub comes_first : McpServer → McpServer → Bool
  comes_first a b =
      if a.name == b.name
      then not (text_le b.url a.url)
      else not (text_le (to_lower b.name) (to_lower a.name))

  unfoldable pub insert_server : McpServer → List McpServer → List McpServer
  insert_server server [] = server ∷ []
  insert_server server (other ∷ rest) =
      let later = insert_server server rest in
      if comes_first other server then other ∷ later else server ∷ other ∷ rest

  unfoldable pub sort_servers : List McpServer → List McpServer
  sort_servers [] = []
  sort_servers (server ∷ rest) = insert_server server (sort_servers rest)

  -- Find
  unfoldable pub find : Value → List McpServer
  find document = sort_servers (map entry_value (walk document []))
