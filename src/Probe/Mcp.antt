-- ===== src/Probe/Mcp.antt =====
-- internal/probe/mcp.go. `MCPHandshake` posts by way of `McpNetwork`, which holds the answers that are
-- still to come and the messages sent so far. A JSON object whose values are left undecoded is a list
-- of keys and texts; a key that is missing reads as the empty text. The letters, digits and control
-- characters of Unicode and the decoders are parameters.
pub mod Exchange
pub mod Names
pub mod Sent
use Prim.Native.Char.{Char, code}
use Prim.Native.String as Str
use barrikade_lens.Common.{
  ℕ, zero, suc, ◌+◌, ◌-◌, Bool, true, false, ◌&&◌, ◌||◌, not, String, List, [], ◌∷◌, ◌++◌, Option,
  none, some, ◌==◌, ltb, leb, eqb, ℤ, pos, negsuc, contains, length, tail, if◌then◌else◌, Result,
  ok, err, ◌>>=◌, ◌>>◌, fail_if,
}
use barrikade_lens.Common.Sorting.{sort_texts}
use barrikade_lens.Discovery.Values.{Fields, bool, text, field, end}
use barrikade_lens.Discovery.Types.{kind_mcp_server}
use barrikade_lens.Discovery.Privacy.{trim_space}
use barrikade_lens.Probe.{
  ProbeConfig, ProbeResult, Target, ProbeError, not_absolute, not_allowlisted, unresolved,
  request_failed, bad_status, too_large, not_json, bad_content_type, mismatched, no_result,
  unsupported_version, capabilities_missing, no_tools, invalid_session, list_missing, list_invalid,
  too_many_names, pagination, after_prefix, allowed, effective_max_bytes,
}
use barrikade_lens.Probe.Targets.{Outside, is_http, has_parameters, client_for}

abbrev pub mcp_protocol_version : String
mcp_protocol_version = "2025-11-25"

-- map[string]json.RawMessage
abbrev pub RawObject : Type 0
RawObject = List (String × String)

unfoldable pub raw_at : String → RawObject → Option String
raw_at key [] = none
raw_at key ((k, v) ∷ rest) = let later = raw_at key rest in if key == k then some v else later

unfoldable pub raw_text : Option String → String
raw_text none = ""
raw_text (some v) = v

-- A message of `post`; the id 0 is left out.
pub record McpMessage : Type 0 where
  pub id : ℕ
  pub method : String
  pub cursor : String
  pub version : String
  pub session : String

-- The answer of the server: the body is given as it is read, or by lines for a stream of events, and
-- `none` where it cannot be read.
pub record McpAnswer : Type 0 where
  pub status : ℕ
  pub media_type : Option String
  pub body : Option String
  pub lines : Option (List String)
  pub session : String

pub record McpNetwork : Type 0 where
  pub answers : List (Option McpAnswer)
  pub sent : List McpMessage

-- The decoders: json.Unmarshal into each type, `none` for an error.
pub record Decoders : Type 0 where
  pub raw_object : String → Option RawObject
  pub int : String → Option ℤ
  pub id_of : String → Option ℤ
  pub string : String → Option String
  pub names : String → Option (List String)
  pub server_name : String → Option String
  pub marshal_tools : String → List String → String
  pub is_letter : Char → Bool
  pub is_digit : Char → Bool
  pub is_control : Char → Bool

-- strings.Join(data, "\n")
unfoldable pub join_lines : List String → String
join_lines [] = ""
join_lines (line ∷ []) = line
join_lines (line ∷ next ∷ rest) = Str.◌++◌ line (Str.◌++◌ "\n" (join_lines (next ∷ rest)))

unfoldable pub is_int : ℕ → Option ℤ → Bool
is_int n (some (pos m)) = eqb m n
is_int n _ = false

unfoldable pub bounded : ℕ → Option String → Result ProbeError String
bounded max_bytes none = err too_large
bounded max_bytes (some body) = fail_if (ltb max_bytes (Str.len body)) too_large >> ok body

module _ (decode : Decoders) where
  unfoldable pub has_id : ℕ → String → Bool
  has_id id message = is_int id (decode.id_of message)

  -- readMCPEvent, with the data lines so far
  unfoldable pub read_mcp_event : ℕ → List String → List String → Option String
  read_mcp_event id held [] = none
  read_mcp_event id held (line ∷ lines) =
      let skipped = read_mcp_event id held lines in
      let next = read_mcp_event id [] lines in
      elim (after_prefix "data:" line) [
        | some value ↦ read_mcp_event id (held ++ value ∷ []) lines
        | none ↦
            if not (line == "") || eqb (length held) 0
            then skipped
            else if has_id id (join_lines held)
            then some (join_lines held)
            else next
      ]

  safe_rune : Char → Bool
  safe_rune c =
      not (decode.is_control c)
      && (decode.is_letter c
          || decode.is_digit c
          || eqb (code c) 46
          || eqb (code c) 95
          || eqb (code c) 58
          || eqb (code c) 47
          || eqb (code c) 45)

  safe_runes : String → Bool
  unfolding safe_rune
  safe_runes Str.[] = true
  safe_runes (Str.◌∷◌ c s) = safe_rune c && safe_runes s

  -- safeMCPToolName
  unfoldable pub safe_mcp_tool_name : String → Bool
  unfolding safe_runes
  safe_mcp_tool_name name = not (name == "") && leb (Str.len name) 200 && safe_runes name

  unfoldable pub raw_body : ℕ → McpMessage → McpAnswer → Result ProbeError String
  raw_body max_bytes message answer = elim answer.media_type [
    | none ↦ err bad_content_type
    | some media ↦
        let read = bounded max_bytes (
          if media == "text/event-stream"
          then elim answer.lines [ none ↦ none | some lines ↦ read_mcp_event message.id [] lines ]
          else answer.body) in
        if media == "application/json" || media == "text/event-stream"
        then read
        else err bad_content_type
  ]

  -- The envelope of JSON-RPC: the id is that of the message and there is no error.
  unfoldable pub result_of : McpMessage → RawObject → Result ProbeError RawObject
  result_of message envelope =
      fail_if (not (is_int message.id (decode.int (raw_text (raw_at "id" envelope))))) mismatched
      >> (fail_if (elim (raw_at "error" envelope) [ none ↦ false | some e ↦ true ]) mismatched
          >> elim (decode.raw_object (raw_text (raw_at "result" envelope))) [
            | none ↦ err no_result
            | some result ↦ ok result
          ])

  unfoldable pub opened : ℕ → McpMessage → McpAnswer → Result ProbeError RawObject
  opened max_bytes message answer = raw_body max_bytes message answer >>= λ body.
      elim (decode.raw_object body) [
        | none ↦ err not_json
        | some envelope ↦ result_of message envelope
      ]

  unfoldable pub after_answer :
      ℕ → McpMessage → Option McpAnswer → Result ProbeError (RawObject × String)
  after_answer max_bytes message none = err request_failed
  after_answer max_bytes message (some answer) =
      if eqb message.id 0 && eqb answer.status 202
      then ok ([], "")
      else fail_if (ltb answer.status 200 || leb 300 answer.status) (bad_status answer.status)
        >> (opened max_bytes message answer >>= λ result. ok (result, answer.session))

unfoldable pub next_answer : List (Option McpAnswer) → Option McpAnswer
next_answer [] = none
next_answer (answer ∷ answers) = answer

module _ (decode : Decoders) (max_bytes : ℕ) where
  -- `post`
  unfoldable pub post :
      McpMessage → McpNetwork → Result ProbeError (RawObject × String) × McpNetwork
  post message network = (
    after_answer decode max_bytes message (next_answer network.answers),
    record { answers = tail network.answers; sent = network.sent ++ message ∷ [] },
  )
