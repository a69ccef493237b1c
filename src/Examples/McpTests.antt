-- ===== src/Examples/McpTests.antt =====
-- Tests of internal/scanner/mcpconfig and internal/scanner/mcptopology, and instances of their theorems.
use barrikade_lens.Common.{
  true, false, String, List, [], ◌∷◌, none, some, ◌≡◌, refl, All, ne_of_test, arith, ◌==◌,
  if◌then◌else◌,
}
use barrikade_lens.Discovery.Values.{Value, text, items, object, nil, cons, field, end}
use barrikade_lens.Discovery.Privacy.{trim_space, trim_dot}
use barrikade_lens.Discovery.Urls.{ParsedUrl, UrlLibrary, sanitize_url, url_host}
use barrikade_lens.Examples.Data.{left}
use barrikade_lens.Scanner.Builder.{new_builder}
use barrikade_lens.Scanner.Builder.Built.{Built, begun}
use barrikade_lens.Scanner.McpConfig.{McpServer, normalize_key, without_marks}
use barrikade_lens.Scanner.McpConfig.Servers.{find}
use barrikade_lens.Scanner.McpConfig.Named.{ServerNamed}
use barrikade_lens.Scanner.McpConfig.Found.{find-ServerNamed}
use barrikade_lens.Scanner.McpTopology.{McpContext, sanitized_of, address_of, add}
use barrikade_lens.Scanner.McpTopology.Kept.{add-Built}

abbrev document : Value
document = object (
    field "mcpServers"
      (object (
        field "files"
          (object (
            field "command" (text "run") (
              field "env" (object (field "API_KEY" (text "k") end))
                (field "tools" (items (cons (text "read") (cons (text "write") nil))) end))))
          end))
      end)

marks : normalize_key (λ s. s) (λ v. "") "mcp_servers" ≡ "mcpservers"
unfolding normalize_key without_marks
marks = refl

find-ServerNamed_example : All ServerNamed (find (λ s. s) (λ v. "x") document)
find-ServerNamed_example = find-ServerNamed (λ s. s) (λ v. "x") document

abbrev context : McpContext
context = record {
  local_canonical_prefix = "endpoint";
  source_surface = "endpoint";
  descriptor = "";
  source = "client";
}

abbrev server : McpServer
server = record {
  name = "remote";
  transport = "http";
  url = "https://mcp.example.com";
  enabled = none;
  environment_keys = "API_KEY" ∷ [];
  credential_present = true;
  tools = record { name = "read"; enabled = some true } ∷ [];
}

abbrev remote_url : String → ParsedUrl
remote_url host = record {
  scheme = "https";
  opaque = "";
  user = none;
  host = host;
  path = "";
  raw_path = "";
  omit_host = false;
  force_query = false;
  raw_query = "";
  fragment = "";
  raw_fragment = "";
}

-- The second address has a no-break space as its host.
abbrev lib : UrlLibrary
lib = record {
  to_lower = λ s. s;
  parse_url = λ s.
      if s == "https://mcp.example.com"
      then some (remote_url "mcp.example.com")
      else if s == "https://%C2%A0"
      then some (remote_url "\u{a0}")
      else none;
  print_url =
      λ u. if u.host == "mcp.example.com" then "https://mcp.example.com" else "https://%C2%A0";
  hostname = λ u. u.host;
  parse_ip = λ s. none;
  same_ip = λ ip other. false;
}

abbrev ids : List String → String
ids parts = "id"

add-Built_example : Built ids left (add lib ids context "" server [] (new_builder left)).1
unfolding trim_space sanitized_of address_of sanitize_url url_host trim_dot
add-Built_example =
    add-Built ids left [] lib context "" server (new_builder left) (λ n. ne_of_test _ _ refl)
      (record { surface = ground arith; descriptor = ground arith; source = ground arith })
      (record {
        transport = ground arith;
        keys = (ground arith, tt);
        endpoint = ground arith;
        host = ground arith;
      })
      (ne_of_test _ _ refl) (ne_of_test _ _ refl, tt) (λ e. ground (arith, e)) tt begun

blank_host : trim_space (url_host lib "https://%C2%A0") ≡ ""
unfolding trim_space url_host trim_dot
blank_host = refl
