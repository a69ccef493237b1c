-- ===== src/Probe.antt =====
-- internal/probe/probe.go: which targets may be asked, how a document is classified. The parsers of
-- URLs and addresses, the resolver, the network and the JSON decoder are parameters; a decoded document
-- is `Fields`, in which a number is `number` and an array `items`. Times are nanoseconds.
pub mod Targets
pub mod Mcp
pub mod Applying
use Prim.Native.String as Str
use barrikade_lens.Common.{
  ℕ, ◌+◌, Bool, true, false, ◌&&◌, ◌||◌, not, String, List, [], ◌∷◌, Option, none, some, ◌==◌, ltb,
  leb, eqb, ℤ, pos, negsuc, if◌then◌else◌, Result, ok, err, ◌>>=◌, ◌>>◌, fail_if,
}
use barrikade_lens.Discovery.Values.{
  Value, Values, Fields, null, bool, number, text, items, object, nil, cons, field, end, get, put,
}
use barrikade_lens.Discovery.Types.{
  kind_api_service, kind_workflow, kind_mcp_server, kind_agent, kind_model_server,
}
use barrikade_lens.Discovery.Privacy.{trim_space}

pub record ProbeConfig : Type 0 where
  pub allowed_hosts : List String
  pub timeout : ℤ
  pub max_bytes : ℤ

pub record ProbeResult : Type 0 where
  pub kind : String
  pub name : String
  pub endpoint : String
  pub host : String
  pub content_hash : String
  pub attributes : Fields
  pub tools : List String

-- What url.Parse gives; `printed` is String().
pub record Target : Type 0 where
  pub scheme : String
  pub host : String
  pub hostname : String
  pub has_user : Bool
  pub raw_query : String
  pub fragment : String
  pub printed : String

-- What net.IP tells of an address.
pub record ResolvedAddress : Type 0 where
  pub printed : String
  pub is_link_local_unicast : Bool
  pub is_unspecified : Bool

pub data ProbeError : Type 0 where
  not_absolute : ProbeError
  parameterized : ProbeError
  metadata_target : ProbeError
  not_allowlisted : ProbeError
  unresolved : ProbeError
  blocked_addresses : ProbeError
  request_failed : ProbeError
  bad_status : ℕ → ProbeError
  too_large : ProbeError
  not_json : ProbeError
  bad_content_type : ProbeError
  mismatched : ProbeError
  no_result : ProbeError
  unsupported_version : ProbeError
  capabilities_missing : ProbeError
  no_tools : ProbeError
  invalid_session : ProbeError
  list_missing : ProbeError
  list_invalid : ProbeError
  too_many_names : ProbeError
  pagination : ProbeError

-- strings.HasPrefix, and what follows the prefix
unfoldable pub after_prefix : String → String → Option String
after_prefix Str.[] s = some s
after_prefix (Str.◌∷◌ p ps) Str.[] = none
after_prefix (Str.◌∷◌ p ps) (Str.◌∷◌ c s) =
    let rest = after_prefix ps s in
    if eqb (Prim.Native.Char.code p) (Prim.Native.Char.code c) then rest else none

-- strings.HasSuffix
unfoldable pub ends_with : String → String → Bool
ends_with suffix Str.[] = suffix == ""
ends_with suffix (Str.◌∷◌ c s) = suffix == Str.◌∷◌ c s || ends_with suffix s

unfoldable pub clamp : ℕ → ℕ → ℤ → ℕ
clamp highest standard (pos n) = if eqb n 0 || ltb highest n then standard else n
clamp highest standard (negsuc n) = standard

-- config.Timeout and config.MaxBytes as Handshake and MCPHandshake use them
unfoldable pub effective_timeout : ProbeConfig → ℕ
effective_timeout config = clamp 5000000000 3000000000 config.timeout

unfoldable pub effective_max_bytes : ProbeConfig → ℕ
effective_max_bytes config = clamp 2097152 1048576 config.max_bytes

module _ (to_lower : String → String) where
  unfoldable pub matches : String → String → Bool
  matches host item = host == item || elim (after_prefix "*." item) [
    | none ↦ false
    | some domain ↦ ends_with (Str.◌++◌ "." domain) host
  ]

  -- allowed
  unfoldable pub allowed : String → List String → Bool
  allowed host [] = false
  allowed host (item ∷ rest) = matches host (to_lower (trim_space item)) || allowed host rest

short_name : Option Value → Option String
short_name (some (text name)) = if leb (Str.len name) 500 then some (trim_space name) else none
short_name _ = none

name_in : Option Value → Option String
unfolding short_name get
name_in (some (object info)) = short_name (get "name" info)
name_in _ = none

-- safeName
unfoldable pub safe_name : Fields → String
unfolding short_name name_in get
safe_name document = elim (short_name (get "name" document)) [
  | some name ↦ name
  | none ↦ elim (name_in (get "serverInfo" document)) [ some name ↦ name | none ↦ "" ]
]

count_values : Values → ℕ
count_values nil = 0
count_values (cons v vs) = count_values vs + 1

-- arrayLength
unfoldable pub array_length : Option Value → ℕ
unfolding count_values
array_length (some (items list)) = count_values list
array_length _ = 0

string_at : Option Value → Option String
string_at (some (text s)) = some s
string_at _ = none

present : Option Value → Bool
present none = false
present (some v) = true

title_of : Option Value → Option String
unfolding string_at get
title_of (some (object info)) = elim (string_at (get "title" info)) [
  | some title ↦ if leb (Str.len title) 500 then some title else none
  | none ↦ none
]
title_of _ = none

or_else : Option String → String → String
or_else (some s) t = s
or_else none t = t

unfoldable pub named_or : String → String → String
named_or name host = if name == "" then host else name

-- The kind, the name and the attributes of a document, in the order of the tests of Handshake.
unfoldable pub classify : (ℕ → String) → String → Fields → Fields → String × String × Fields
unfolding string_at present title_of or_else get put
classify itoa host attributes document = elim (string_at (get "openapi" document)) [
  | some version ↦ (
    kind_api_service,
    or_else (title_of (get "info" document)) host,
    put "openapi_version" (text version) attributes,
  )
  | none ↦
      let others =
        if present (get "protocolVersion" document)
        then (kind_mcp_server, named_or (safe_name document) host, attributes)
        else if present (get "capabilities" document)
        then (kind_agent, named_or (safe_name document) host, attributes)
        else if present (get "data" document)
        then (
          kind_model_server,
          host,
          put "model_count" (number (itoa (array_length (get "data" document)))) attributes,
        )
        else (kind_api_service, host, attributes) in
      elim (string_at (get "arazzo" document)) [
        | none ↦ others
        | some version ↦ elim (after_prefix "1." version) [
          | none ↦ others
          | some rest ↦ (kind_workflow, host, put "arazzo_version" (text version) attributes)
        ]
      ]
]
