-- ===== src/Scanner/McpConfig.antt =====
-- internal/scanner/mcpconfig/parser.go. A document is a decoded `Value`; its maps are read in the order
-- of their fields. strings.ToLower and fmt.Sprint are parameters.
pub mod Tools
pub mod Servers
pub mod Collected
pub mod Named
pub mod Found
use Prim.Native.Char.{code}
use Prim.Native.String as Str
use barrikade_lens.Common.{
  Bool, true, false, ◌&&◌, ◌||◌, not, String, List, [], ◌∷◌, ◌++◌, map, Option, none, some, ◌==◌,
  leb, ltb, eqb, contains, if◌then◌else◌, ℕ, zero, suc,
}
use barrikade_lens.Common.Sorting.{sort_by, sort_texts, text_le}
use barrikade_lens.Discovery.Values.{
  Value, Values, Fields, bool, text, items, object, nil, cons, field, end,
}
use barrikade_lens.Discovery.Privacy.{trim_space, is_sensitive_key}

pub record McpTool : Type 0 where
  pub name : String
  pub enabled : Option Bool

pub record McpServer : Type 0 where
  pub name : String
  pub transport : String
  pub url : String
  pub enabled : Option Bool
  pub environment_keys : List String
  pub credential_present : Bool
  pub tools : List McpTool

-- m[key], and m[key] = value
pub entry {ℓ} : {A : Type ℓ} → String → List (String × A) → Option A
entry key [] = none
entry key ((k, a) ∷ rest) = let later = entry key rest in if key == k then some a else later

pub set_entry {ℓ} : {A : Type ℓ} → String → A → List (String × A) → List (String × A)
set_entry key a [] = (key, a) ∷ []
set_entry key a ((k, b) ∷ rest) =
    let later = set_entry key a rest in if key == k then (key, a) ∷ rest else (k, b) ∷ later

abbrev pub entry_value {ℓ} : {A : Type ℓ} → String × A → A
entry_value (k, a) = a

-- result[:n]
pub first_of {ℓ} : {A : Type ℓ} → ℕ → List A → List A
first_of zero xs = []
first_of (suc n) [] = []
first_of (suc n) (x ∷ xs) = x ∷ first_of n xs

-- strings.ReplaceAll of "_" and "-" by nothing
unfoldable pub without_marks : String → String
without_marks Str.[] = ""
without_marks (Str.◌∷◌ c s) =
    let rest = without_marks s in
    if eqb (code c) 95 || eqb (code c) 45 then rest else Str.◌∷◌ c rest

-- strings.ContainsAny(name, "\r\n\x00")
unfoldable pub has_break : String → Bool
has_break Str.[] = false
has_break (Str.◌∷◌ c s) = eqb (code c) 13 || eqb (code c) 10 || eqb (code c) 0 || has_break s

pub nonblank_once : List String → List String
nonblank_once [] = []
nonblank_once (value ∷ rest) =
    let seen = nonblank_once rest in
    let trimmed = trim_space value in
    if trimmed == "" || contains seen trimmed then seen else trimmed ∷ seen

-- union
pub union_texts : List String → List String → List String
union_texts existing additions = sort_texts (nonblank_once (existing ++ additions))

pub text_value : Value → Option String
text_value (text t) = if trim_space t == "" then none else some (trim_space t)
text_value _ = none

as_bool : Option Value → Option Bool
as_bool (some (bool b)) = some b
as_bool _ = none

as_object : Option Value → Option Fields
as_object (some (object m)) = some m
as_object _ = none

pub or_first {ℓ} : {A : Type ℓ} → Option A → Option A → Option A
or_first none b = b
or_first (some a) b = some a

module _ (to_lower : String → String) (sprint : Value → String) where
  -- normalizeKey
  unfoldable pub normalize_key : String → String
  normalize_key value = without_marks (to_lower value)

  -- The inner loop of stringValue.
  unfoldable pub string_in : String → Fields → Option String
  string_in key end = none
  string_in key (field present value rest) =
      let later = string_in key rest in
      if normalize_key present == normalize_key key
      then or_first (text_value value) later
      else later

  -- stringValue
  unfoldable pub string_value : List String → Fields → Option String
  string_value [] config = none
  string_value (key ∷ keys) config = or_first (string_in key config) (string_value keys config)

  -- anyValue
  unfoldable pub any_value : String → Fields → Option Value
  any_value key end = none
  any_value key (field present value rest) =
      let later = any_value key rest in
      if normalize_key present == normalize_key key then some value else later

  first_present : List String → Fields → Option Value
  unfolding any_value or_first
  first_present [] config = none
  first_present (key ∷ keys) config = or_first (any_value key config) (first_present keys config)

  -- boolValue
  unfoldable pub bool_in : List String → Fields → Option Bool
  unfolding as_bool first_present
  bool_in keys config = as_bool (first_present keys config)

  -- mapValue
  unfoldable pub map_in : List String → Fields → Option Fields
  unfolding as_object first_present
  map_in keys config = as_object (first_present keys config)

  -- normalizeTransport
  unfoldable pub normalize_transport : String → String
  normalize_transport value =
      let lowered = to_lower (trim_space value) in
      if lowered == "streamable-http" || lowered == "streamable_http"
      then "streamable_http"
      else lowered

  is_transport : String → Bool
  is_transport t = t == "stdio" || t == "http" || t == "sse" || t == "streamable_http"

  -- looksLikeServer
  unfoldable pub looks_like_server : Fields → Bool
  unfolding is_transport
  looks_like_server config =
      elim (string_value ("command" ∷ "url" ∷ "endpoint" ∷ "serverUrl" ∷ "server_url" ∷ [])
        config) [
          | some t ↦ true
          | none ↦ elim (string_value ("transport" ∷ "type" ∷ []) config) [
            | none ↦ false
            | some t ↦ is_transport (normalize_transport t)
          ]
        ]

  is_server : Value → Bool
  is_server (object config) = looks_like_server config
  is_server _ = false

  server_among : Values → Bool
  unfolding is_server
  server_among nil = false
  server_among (cons v vs) = is_server v || server_among vs

  server_within : Fields → Bool
  unfolding is_server
  server_within end = false
  server_within (field k v m) = is_server v || server_within m

  -- looksLikeServerCollection
  unfoldable pub looks_like_server_collection : Value → Bool
  unfolding server_among server_within
  looks_like_server_collection (object m) = server_within m
  looks_like_server_collection (items vs) = server_among vs
  looks_like_server_collection _ = false
