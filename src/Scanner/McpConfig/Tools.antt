-- ===== src/Scanner/McpConfig/Tools.antt =====
-- internal/scanner/mcpconfig/parser.go: the tools that a configuration declares.
use Prim.Native.String as Str
use barrikade_lens.Common.{
  Bool, true, false, ◌||◌, String, List, [], ◌∷◌, ◌++◌, map, Option, none, some, ◌==◌, ltb,
  if◌then◌else◌,
}
use barrikade_lens.Common.Sorting.{sort_by}
use barrikade_lens.Discovery.Values.{
  Value, Values, Fields, text, items, object, nil, cons, field, end,
}
use barrikade_lens.Discovery.Privacy.{trim_space}
use barrikade_lens.Scanner.McpConfig.{
  McpTool, entry, set_entry, entry_value, first_of, has_break, or_first, string_value, any_value,
  bool_in,
}

-- The keys of declaredTools.
abbrev pub plain_keys : List String
plain_keys = "tools" ∷ "declaredTools" ∷ "declared_tools" ∷ []

abbrev pub allowed_keys : List String
allowed_keys = "allowedTools" ∷ "allowed_tools" ∷ "enabledTools" ∷ "enabled_tools" ∷ []

abbrev pub disabled_keys : List String
disabled_keys = "disabledTools" ∷ "disabled_tools" ∷ []

module _ (to_lower : String → String) (sprint : Value → String) where
  unfoldable pub open_tool : Option McpTool → Bool
  open_tool none = true
  open_tool (some tool) = elim tool.enabled [ none ↦ true | some b ↦ false ]

  -- `add` of collectTools
  unfoldable pub add_tool : String → Option Bool → List (String × McpTool) → List (String × McpTool)
  unfolding open_tool
  add_tool raw state tools =
      let name = trim_space raw in
      if name == "" || ltb 200 (Str.len name) || has_break name
      then tools
      else if open_tool (entry (to_lower name) tools)
      then set_entry (to_lower name) (record { name = name; enabled = state }) tools
      else tools

  unfoldable pub or_empty : Option String → String
  or_empty none = ""
  or_empty (some s) = s

  unfoldable pub listed_tool :
      Option Bool → Value → List (String × McpTool) → List (String × McpTool)
  unfolding or_empty
  listed_tool enabled (text name) tools = add_tool name enabled tools
  listed_tool enabled (object candidate) tools =
      add_tool (or_empty (string_value to_lower sprint ("name" ∷ "id" ∷ []) candidate))
        (or_first (bool_in to_lower sprint ("enabled" ∷ []) candidate) enabled) tools
  listed_tool enabled _ tools = tools

  unfoldable pub named_state : Option Bool → Value → Option Bool
  named_state enabled (object candidate) =
      or_first (bool_in to_lower sprint ("enabled" ∷ []) candidate) enabled
  named_state enabled _ = enabled

  unfoldable pub listed_tools :
      Option Bool → Values → List (String × McpTool) → List (String × McpTool)
  unfolding listed_tool
  listed_tools enabled nil tools = tools
  listed_tools enabled (cons v vs) tools = listed_tools enabled vs (listed_tool enabled v tools)

  unfoldable pub named_tools :
      Option Bool → Fields → List (String × McpTool) → List (String × McpTool)
  unfolding named_state
  named_tools enabled end tools = tools
  named_tools enabled (field name raw rest) tools =
      named_tools enabled rest (add_tool name (named_state enabled raw) tools)

  -- collectTools
  unfoldable pub collect_tools :
      Option Bool → Value → List (String × McpTool) → List (String × McpTool)
  unfolding listed_tools named_tools
  collect_tools enabled (text name) tools = add_tool name enabled tools
  collect_tools enabled (items vs) tools = listed_tools enabled vs tools
  collect_tools enabled (object m) tools = named_tools enabled m tools
  collect_tools enabled _ tools = tools

  unfoldable pub found_tools :
      Option Bool → Option Value → List (String × McpTool) → List (String × McpTool)
  found_tools enabled none tools = tools
  found_tools enabled (some value) tools = collect_tools enabled value tools

  unfoldable pub tools_at :
      Fields → Option Bool → List String → List (String × McpTool) → List (String × McpTool)
  unfolding found_tools any_value
  tools_at config enabled [] tools = tools
  tools_at config enabled (key ∷ keys) tools =
      tools_at config enabled keys
        (found_tools enabled (any_value to_lower sprint key config) tools)

  abbrev pub tool_key : McpTool → String
  tool_key tool = to_lower tool.name

  -- declaredTools
  unfoldable pub declared_tools : Fields → List McpTool
  unfolding tools_at
  declared_tools config =
      let plain = tools_at config none plain_keys [] in
      let allowed = tools_at config (some true) allowed_keys plain in
      let disabled = tools_at config (some false) disabled_keys allowed in
      first_of 500 (sort_by tool_key (map entry_value disabled))

  -- The loop of mergeTools.
  unfoldable pub gather_tools : List McpTool → List (String × McpTool) → List (String × McpTool)
  unfolding open_tool
  gather_tools [] values = values
  gather_tools (tool ∷ rest) values = gather_tools rest (
      if open_tool (entry (to_lower tool.name) values)
      then set_entry (to_lower tool.name) tool values
      else values)

  -- mergeTools
  unfoldable pub merge_tools : List McpTool → List McpTool → List McpTool
  merge_tools existing additions =
      sort_by tool_key (map entry_value (gather_tools (existing ++ additions) []))
