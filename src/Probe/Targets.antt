-- ===== src/Probe/Targets.antt =====
-- internal/probe/probe.go: `Handshake` as a whole, with `clientFor`.
pub mod Asked
use Prim.Native.String as Str
use barrikade_lens.Common.{
  ℕ, Bool, true, false, ◌&&◌, ◌||◌, not, String, List, [], ◌∷◌, ◌++◌, Option, none, some, ◌==◌, ltb,
  leb, if◌then◌else◌, Result, ok, err, ◌>>=◌, ◌>>◌, fail_if,
}
use barrikade_lens.Discovery.Values.{Value, Fields, bool, text, field, end, put}
use barrikade_lens.Discovery.Privacy.{trim_space}
use barrikade_lens.Discovery.Urls.{ParsedUrl, UrlLibrary, sanitize_url, is_cloud_metadata_host}
use barrikade_lens.Probe.{
  ProbeConfig, ProbeResult, Target, ResolvedAddress, ProbeError, not_absolute, parameterized,
  metadata_target, not_allowlisted, unresolved, blocked_addresses, request_failed, bad_status,
  too_large, not_json, allowed, effective_max_bytes, classify,
}

-- What the functions ask of libraries and of the network.
pub record Outside : Type 0 where
  pub urls : UrlLibrary
  pub lookup_addresses : String → Option (List ResolvedAddress)
  pub content_hash : String → String
  pub decode_object : String → Option Fields
  pub itoa : ℕ → String

-- The answer to a request: the status and the body as far as it is read.
pub record Answer : Type 0 where
  pub status : ℕ
  pub body : Option String

-- sanitized, _ := discovery.SanitizeURL(...)
unfoldable pub sanitized_or_empty : UrlLibrary → String → String
sanitized_or_empty urls raw = elim (sanitize_url urls raw) [ none ↦ "" | some url ↦ url ]

is_given : Option String → Bool
is_given none = false
is_given (some s) = true

-- What the probes ask of a url.URL.
unfoldable pub target_of : UrlLibrary → ParsedUrl → Target
unfolding is_given
target_of urls url = record {
  scheme = url.scheme;
  host = url.host;
  hostname = urls.hostname url;
  has_user = is_given url.user;
  raw_query = url.raw_query;
  fragment = url.fragment;
  printed = urls.print_url url;
}

-- url.Parse
unfoldable pub read_target : UrlLibrary → String → Option Target
read_target urls raw = elim (urls.parse_url raw) [
  | none ↦ none
  | some url ↦ some (target_of urls url)
]

unfoldable pub is_http : Target → Bool
is_http target = not (target.host == "") && (target.scheme == "http" || target.scheme == "https")

unfoldable pub has_parameters : Target → Bool
has_parameters target =
    target.has_user || not (target.raw_query == "") || not (target.fragment == "")

module _ (outside : Outside) where
  -- The addresses that may be dialled.
  unfoldable pub permitted : List ResolvedAddress → List ResolvedAddress
  permitted [] = []
  permitted (address ∷ rest) =
      let later = permitted rest in
      if is_cloud_metadata_host outside.urls address.printed
        || address.is_link_local_unicast
        || address.is_unspecified
      then later
      else address ∷ later

  unfoldable pub some_address : List ResolvedAddress → Result ProbeError (List ResolvedAddress)
  some_address [] = err blocked_addresses
  some_address (address ∷ rest) = ok (address ∷ rest)

  -- clientFor, up to the addresses that its transport dials
  unfoldable pub client_for : Target → Result ProbeError (List ResolvedAddress)
  unfolding some_address
  client_for target = elim (outside.lookup_addresses target.hostname) [
    | none ↦ err unresolved
    | some addresses ↦ some_address (permitted addresses)
  ]

  unfoldable pub parsed : String → Result ProbeError Target
  parsed raw = elim (read_target outside.urls (trim_space raw)) [
    | none ↦ err not_absolute
    | some target ↦ if is_http target then ok target else err not_absolute
  ]

  -- The checks of Handshake before its request: the target, and the addresses that may be dialled.
  unfoldable pub check_target :
      String → ProbeConfig → Result ProbeError (Target × List ResolvedAddress)
  unfolding parsed
  check_target raw config = parsed raw >>= λ target.
      fail_if (has_parameters target) parameterized
      >> (fail_if (is_cloud_metadata_host outside.urls (outside.urls.to_lower target.hostname))
            metadata_target
          >> (fail_if
                (not (
                  allowed outside.urls.to_lower (outside.urls.to_lower target.hostname)
                    config.allowed_hosts))
                not_allowlisted
              >> (client_for target >>= λ addresses. ok (target, addresses))))

  unfoldable pub read_body : ProbeConfig → Answer → Result ProbeError String
  read_body config answer =
      fail_if (ltb answer.status 200 || leb 300 answer.status) (bad_status answer.status)
      >> elim answer.body [
        | none ↦ err request_failed
        | some body ↦ fail_if (ltb (effective_max_bytes config) (Str.len body)) too_large >> ok body
      ]

  unfoldable pub probe_result : Target → String → Fields → ProbeResult
  probe_result target body document =
      let host = outside.urls.to_lower target.hostname in
      let sanitized = sanitized_or_empty outside.urls target.printed in
      let (kind, name, attributes) =
        classify outside.itoa host
          (field "running_at_scan" (bool true) (field "transport" (text "http") end)) document in
      record {
        kind = kind;
        name = name;
        endpoint = sanitized;
        host = host;
        content_hash = outside.content_hash body;
        attributes = put "host" (text host) (put "endpoint" (text sanitized) attributes);
        tools = [];
      }

  -- Handshake, with the answer that the dialled addresses give, and the request that is sent, if one is:
  -- its target and the addresses that are dialled
  unfoldable pub handshake :
      (Target → List ResolvedAddress → Option Answer)
      → String
      → ProbeConfig
      → Result ProbeError ProbeResult × Option (Target × List ResolvedAddress)
  handshake ask raw config = elim (check_target raw config) [
    | err e ↦ (err e, none)
    | ok (target, addresses) ↦ (
      elim (ask target addresses) [
        | none ↦ err request_failed
        | some answer ↦ read_body config answer >>= λ body. elim (outside.decode_object body) [
          | none ↦ err not_json
          | some document ↦ ok (probe_result target body document)
        ]
      ],
      some (target, addresses),
    )
  ]
