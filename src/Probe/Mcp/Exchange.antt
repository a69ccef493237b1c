-- ===== src/Probe/Mcp/Exchange.antt =====
-- internal/probe/mcp.go: the checks and the loops of `MCPHandshake`, and the whole of it.
use Prim.Native.Char.{code}
use Prim.Native.String as Str
use barrikade_lens.Common.{
  ℕ, zero, suc, ◌+◌, Bool, true, false, ◌&&◌, ◌||◌, not, String, List, [], ◌∷◌, Option, none, some,
  ◌==◌, ltb, leb, eqb, contains, length, if◌then◌else◌, Result, ok, err, ◌>>=◌, ◌>>◌, fail_if,
}
use barrikade_lens.Common.Sorting.{sort_texts}
use barrikade_lens.Discovery.Values.{bool, text, field, end}
use barrikade_lens.Discovery.Types.{kind_mcp_server}
use barrikade_lens.Discovery.Urls.{is_cloud_metadata_host}
use barrikade_lens.Discovery.Privacy.{trim_space}
use barrikade_lens.Probe.{
  ProbeConfig, ProbeResult, Target, ProbeError, not_absolute, not_allowlisted, unresolved,
  unsupported_version, capabilities_missing, no_tools, invalid_session, list_missing, list_invalid,
  too_many_names, pagination, allowed, effective_max_bytes,
}
use barrikade_lens.Probe.Targets.{
  sanitized_or_empty, Outside, is_http, read_target, has_parameters, client_for,
}
use barrikade_lens.Probe.Mcp.{
  RawObject, raw_at, raw_text, McpMessage, McpNetwork, Decoders, mcp_protocol_version,
  safe_mcp_tool_name, post,
}

module _ (decode : Decoders) (max_bytes : ℕ) where
  -- The loop over the tools of a page.
  unfoldable pub add_names : List String → List String → Result ProbeError (List String)
  add_names seen [] = ok seen
  add_names seen (item ∷ rest) =
      let name = trim_space item in
      let found = if contains seen name then seen else name ∷ seen in
      let skipped = add_names seen rest in
      let later = add_names found rest in
      if not (safe_mcp_tool_name decode name)
      then skipped
      else fail_if (ltb 100 (length found)) too_many_names >> later

  unfoldable pub page_names : List String → RawObject → Result ProbeError (List String)
  page_names seen listed =
      let tools = raw_text (raw_at "tools" listed) in
      fail_if (tools == "" || tools == "null") list_missing
      >> elim (decode.names tools) [ none ↦ err list_invalid | some names ↦ add_names seen names ]

  unfoldable pub next_cursor : RawObject → String
  next_cursor listed = raw_text (decode.string (raw_text (raw_at "nextCursor" listed)))

  unfoldable pub list_message : ℕ → String → String → String → McpMessage
  list_message page cursor version session = record {
    id = page + 2;
    method = "tools/list";
    cursor = cursor;
    version = version;
    session = session;
  }

  unfoldable pub page_result :
      List String
      → Result ProbeError (RawObject × String)
      → Result ProbeError (List String × String)
  page_result seen answer = answer >>= λ (listed, session).
      page_names seen listed >>= λ names. ok (names, next_cursor listed)

  -- The loop over the pages, of which `left` are left.
  unfoldable pub list_pages :
      ℕ
      → ℕ
      → String
      → String
      → String
      → List String
      → McpNetwork
      → Result ProbeError (List String) × McpNetwork
  list_pages zero page version session cursor seen network = (ok seen, network)
  list_pages (suc left) page version session cursor seen network =
      let (answer, after) =
        post decode max_bytes (list_message page cursor version session) network in
      elim (page_result seen answer) [
        | err e ↦ (err e, after)
        | ok (names, next) ↦
            let rest = list_pages left (page + 1) version session next names after in
            if next == ""
            then (ok names, after)
            else if ltb 256 (Str.len next) || next == cursor || eqb page 3
            then (err pagination, after)
            else rest
      ]

  unfoldable pub printable : String → Bool
  printable Str.[] = true
  printable (Str.◌∷◌ c s) = leb 33 (code c) && leb (code c) 126 && printable s

  abbrev pub initialize_message : McpMessage
  initialize_message = record {
    id = 1;
    method = "initialize";
    cursor = "";
    version = "";
    session = "";
  }

  abbrev pub initialized_message : String → String → McpMessage
  initialized_message version session = record {
    id = 0;
    method = "notifications/initialized";
    cursor = "";
    version = version;
    session = session;
  }

  supported : String → Bool
  supported version =
      version == mcp_protocol_version || version == "2025-06-18" || version == "2025-03-26"

  version_of : RawObject → Result ProbeError String
  unfolding supported
  version_of init = elim (decode.string (raw_text (raw_at "protocolVersion" init))) [
    | none ↦ err unsupported_version
    | some version ↦ fail_if (not (supported version)) unsupported_version >> ok version
  ]

  -- The checks after the first answer, which give the version of the protocol.
  unfoldable pub check_init : RawObject × String → Result ProbeError String
  unfolding version_of
  check_init (init, session) = version_of init >>= λ version.
      elim (decode.raw_object (raw_text (raw_at "capabilities" init))) [
        | none ↦ err capabilities_missing
        | some capabilities ↦
            fail_if (elim (raw_at "tools" capabilities) [ none ↦ true | some t ↦ false ]) no_tools
            >> (fail_if (ltb 256 (Str.len session) || not (printable session)) invalid_session
                >> ok version)
      ]

  unfoldable pub after_initialized :
      String
      → String
      → Result ProbeError (RawObject × String) × McpNetwork
      → Result ProbeError (List String) × McpNetwork
  after_initialized version session (err e, network) = (err e, network)
  after_initialized version session (ok answer, network) =
      list_pages 4 0 version session "" [] network

  unfoldable pub after_init :
      Result ProbeError (RawObject × String) × McpNetwork
      → Result ProbeError (RawObject × String × List String) × McpNetwork
  after_init (err e, network) = (err e, network)
  after_init (ok (init, session), network) = elim (check_init (init, session)) [
    | err e ↦ (err e, network)
    | ok version ↦
        let (tools, after) =
          after_initialized version session
            (post decode max_bytes (initialized_message version session) network) in
        (tools >>= λ seen. ok (init, version, sort_texts seen), after)
  ]

  -- The exchange of MCPHandshake: the first answer, the version and the names of the tools.
  unfoldable pub exchange_mcp :
      McpNetwork → Result ProbeError (RawObject × String × List String) × McpNetwork
  exchange_mcp network = after_init (post decode max_bytes initialize_message network)

module _ (outside : Outside) (decode : Decoders) where
  unfoldable pub mcp_target : String → ProbeConfig → Result ProbeError Target
  mcp_target raw config = elim (read_target outside.urls (trim_space raw)) [
    | none ↦ err not_absolute
    | some target ↦
        fail_if (not (is_http target) || has_parameters target) not_absolute
        >> (fail_if
              (is_cloud_metadata_host outside.urls (outside.urls.to_lower target.hostname)
                || not (
                    allowed outside.urls.to_lower (outside.urls.to_lower target.hostname)
                      config.allowed_hosts))
              not_allowlisted
            >> ok target)
  ]

  server_name : Target → RawObject → String
  server_name target init =
      let host = outside.urls.to_lower target.hostname in
      elim (decode.server_name (raw_text (raw_at "serverInfo" init))) [
        | none ↦ host
        | some name ↦ if safe_mcp_tool_name decode name then name else host
      ]

  unfoldable pub mcp_result : Target → RawObject × String × List String → ProbeResult
  unfolding server_name
  mcp_result target (init, version, tools) =
      let host = outside.urls.to_lower target.hostname in
      let sanitized = sanitized_or_empty outside.urls target.printed in
      record {
        kind = kind_mcp_server;
        name = server_name target init;
        endpoint = sanitized;
        host = host;
        content_hash = outside.content_hash (decode.marshal_tools version tools);
        attributes = field "running_at_scan" (bool true) (
            field "transport" (text "streamable_http") (
              field "protocol_version" (text version) (
                field "endpoint" (text sanitized)
                  (field "host" (text host) (field "capability_state" (text "observed") end)))));
        tools = tools;
      }

  unfoldable pub after_client :
      ProbeConfig
      → McpNetwork
      → Target
      → Option ProbeError
      → Result ProbeError ProbeResult × McpNetwork
  unfolding mcp_result
  after_client config network target (some e) = (err unresolved, network)
  after_client config network target none =
      let (answer, after) = exchange_mcp decode (effective_max_bytes config) network in
      (answer >>= λ found. ok (mcp_result target found), after)

  -- MCPHandshake
  unfoldable pub mcp_handshake :
      String → ProbeConfig → McpNetwork → Result ProbeError ProbeResult × McpNetwork
  unfolding mcp_target after_client
  mcp_handshake raw config network = elim (mcp_target raw config) [
    | err e ↦ (err e, network)
    | ok target ↦
        after_client config network target
          (elim (client_for outside target) [ err e ↦ some e | ok addresses ↦ none ])
  ]
