-- ===== src/Examples/ProbeTests.antt =====
-- Tests of internal/probe, and instances of its theorems.
use Prim.Native.Char.{code}
use barrikade_lens.Common.{
  ◌≤◌, true, false, not, String, List, [], ◌∷◌, Option, none, some, ◌==◌, ◌≡◌, refl, pos, eqb, All,
  length, if◌then◌else◌, ok, ne_of_test, arith,
}
use barrikade_lens.Discovery.Values.{bool, text, field, end}
use barrikade_lens.Discovery.Privacy.{trim_space, is_sensitive_key}
use barrikade_lens.Discovery.Urls.{UrlLibrary, sanitize_url, is_cloud_metadata_host}
use barrikade_lens.Probe.{
  ProbeConfig, ProbeResult, Target, ResolvedAddress, after_prefix, ends_with, matches, allowed,
  clamp, effective_max_bytes,
}
use barrikade_lens.Common.Sorting.{sort_by, insert_by, text_le}
use barrikade_lens.Discovery.Validation.{validate}
use barrikade_lens.Examples.Data.{any_time, left}
use barrikade_lens.Examples.DiscoveryTests.{left_valid}
use barrikade_lens.Probe.Applying.{apply}
use barrikade_lens.Probe.Applying.Valid.{validate-apply}
use barrikade_lens.Probe.Targets.{
  Outside, Answer, sanitized_or_empty, target_of, read_target, is_http, has_parameters, permitted,
  some_address, client_for, parsed, check_target, handshake,
}
use barrikade_lens.Probe.Targets.Asked.{Checked, handshake-Checked}
use barrikade_lens.Probe.Mcp.{
  RawObject, raw_at, raw_text, McpAnswer, McpNetwork, Decoders, is_int, bounded, safe_mcp_tool_name,
  raw_body, result_of, opened, after_answer, next_answer, post,
}
use barrikade_lens.Probe.Mcp.Exchange.{
  add_names, page_names, printable, list_message, next_cursor, page_result, list_pages, check_init,
  after_initialized, after_init, exchange_mcp, mcp_target, mcp_result, after_client, mcp_handshake,
}
use barrikade_lens.Probe.Mcp.Names.{Listed, mcp_handshake-Listed}
use barrikade_lens.Probe.Mcp.Sent.{is_listing, mcp_handshake_listing}

abbrev target : Target
target = record {
  scheme = "https";
  host = "mcp.example.com";
  hostname = "mcp.example.com";
  has_user = false;
  raw_query = "";
  fragment = "";
  printed = "https://mcp.example.com";
}

abbrev address : ResolvedAddress
address = record { printed = "192.0.2.1"; is_link_local_unicast = false; is_unspecified = false }

abbrev urls : UrlLibrary
urls = record {
  to_lower = λ s. s;
  parse_url = λ s. some (record {
    scheme = "https";
    opaque = "";
    user = none;
    host = "mcp.example.com";
    path = "";
    raw_path = "";
    omit_host = false;
    force_query = false;
    raw_query = "";
    fragment = "";
    raw_fragment = "";
  });
  print_url = λ url. "https://mcp.example.com";
  hostname = λ url. url.host;
  parse_ip = λ s.
      if s == "192.0.2.1"
      then some (record { printed = s; is_link_local_unicast = false })
      else none;
  same_ip = λ ip other. false;
}

abbrev outside : Outside
outside = record {
  urls = urls;
  lookup_addresses = λ s. some (address ∷ []);
  content_hash = λ s. s;
  decode_object = λ s. some end;
  itoa = λ n. "0";
}

abbrev config : ProbeConfig
config = record { allowed_hosts = "*.example.com" ∷ []; timeout = pos 0; max_bytes = pos 64 }

listed_host : allowed (λ s. s) "mcp.example.com" config.allowed_hosts ≡ true
unfolding allowed matches after_prefix ends_with trim_space
listed_host = refl

abbrev answer : Target → List ResolvedAddress → Option Answer
answer t addresses = some (record { status = 200; body = some "{}" })

dials : (handshake outside answer "https://mcp.example.com" config).1 ≡ some (target, address ∷ [])
unfolding read_target target_of is_cloud_metadata_host handshake check_target parsed is_http
    has_parameters client_for permitted some_address allowed matches after_prefix ends_with
    trim_space
dials = refl

handshake-Checked_example : Checked outside "https://mcp.example.com" config target (address ∷ [])
handshake-Checked_example =
    handshake-Checked outside answer "https://mcp.example.com" config target (address ∷ []) dials

raw_objects : String → Option RawObject
raw_objects s =
    if s == "init"
    then some (("id", "1") ∷ ("result", "started") ∷ [])
    else if s == "started"
    then some (("protocolVersion", "version") ∷ ("capabilities", "able") ∷ [])
    else if s == "able"
    then some (("tools", "{}") ∷ [])
    else if s == "list"
    then some (("id", "2") ∷ ("result", "page") ∷ [])
    else if s == "page"
    then some (("tools", "names") ∷ [])
    else none

abbrev decoders : Decoders
decoders = record {
  raw_object = raw_objects;
  int = λ s. some (if s == "1" then pos 1 else pos 2);
  id_of = λ s. none;
  string = λ s. if s == "version" then some "2025-11-25" else none;
  names = λ s. some ("b" ∷ "a" ∷ "b" ∷ "not safe" ∷ []);
  server_name = λ s. none;
  marshal_tools = λ version tools. version;
  is_letter = λ c. not (eqb (code c) 32);
  is_digit = λ c. false;
  is_control = λ c. false;
}

abbrev answered : String → Option McpAnswer
answered body = some (record {
  status = 200;
  media_type = some "application/json";
  body = some body;
  lines = none;
  session = "s";
})

abbrev network : McpNetwork
network = record {
  answers =
      answered "init"
      ∷ some (record { status = 202; media_type = none; body = none; lines = none; session = "" })
      ∷ answered "list"
      ∷ [];
  sent = [];
}

abbrev result : ProbeResult
result = record {
  kind = "mcp_server";
  name = "mcp.example.com";
  endpoint = "https://mcp.example.com";
  host = "mcp.example.com";
  content_hash = "2025-11-25";
  attributes = field "running_at_scan" (bool true) (
      field "transport" (text "streamable_http") (
        field "protocol_version" (text "2025-11-25") (
          field "endpoint" (text "https://mcp.example.com") (
            field "host" (text "mcp.example.com")
              (field "capability_state" (text "observed") end)))));
  tools = "a" ∷ "b" ∷ [];
}

shaken : (mcp_handshake outside decoders "https://mcp.example.com" config network).0 ≡ ok result
unfolding read_target target_of is_cloud_metadata_host sanitized_or_empty sanitize_url mcp_handshake
    mcp_target is_http has_parameters client_for permitted some_address allowed matches after_prefix
    ends_with trim_space after_client mcp_result exchange_mcp after_init post next_answer
    after_answer opened raw_body bounded result_of raw_at raw_text is_int raw_objects check_init
    after_initialized list_pages page_result page_names add_names safe_mcp_tool_name next_cursor
    effective_max_bytes clamp sort_by insert_by text_le printable list_message
shaken = refl

mcp_handshake-Listed_example : Listed outside decoders result.tools
mcp_handshake-Listed_example =
    mcp_handshake-Listed outside decoders "https://mcp.example.com" config network result shaken

mcp_handshake_listing_example :
    (length (mcp_handshake outside decoders "https://mcp.example.com" config network).1.sent ≤ 6)
    × All
        (λ m. is_listing m.method ≡ true)
        (mcp_handshake outside decoders "https://mcp.example.com" config network).1.sent
mcp_handshake_listing_example =
    mcp_handshake_listing outside decoders "https://mcp.example.com" config network refl

abbrev constant : List String → String
constant parts = "id"

validate-apply_example : validate any_time (apply (λ s. s) constant result left) ≡ ok tt
unfolding trim_space is_sensitive_key
validate-apply_example =
    validate-apply any_time (λ s. s) constant (λ parts. ne_of_test _ _ refl) result left
      (ne_of_test _ _ refl) (ne_of_test _ _ refl)
      (
        refl,
        tt,
        (
          refl,
          ground arith,
          (
            refl,
            ground arith,
            (refl, ground arith, (refl, ground arith, (refl, ground arith, tt))),
          ),
        ),
      )
      (ne_of_test _ _ refl, (ne_of_test _ _ refl, tt))
      (ne_of_test _ _ refl, (ne_of_test _ _ refl, tt)) left_valid
