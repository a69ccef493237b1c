-- ===== src/Scanner/McpConfig/Collected.antt =====
-- The tools that a configuration declares are named (internal/scanner/mcpconfig/parser.go).
use Prim.Native.String as Str
use barrikade_lens.Common.{
  ℕ, zero, suc, Bool, true, false, ◌||◌, String, List, [], ◌∷◌, ◌++◌, map, Option, none, some, ◌==◌,
  ◌≢◌, arith, eq_iff, ltb, All, All-append, Bool-cases, inl, inr,
}
use barrikade_lens.Common.Sorting.{sort_by-All}
use barrikade_lens.Discovery.Values.{
  Value, Values, Fields, text, items, object, nil, cons, field, end,
}
use barrikade_lens.Discovery.Privacy.{trim_space}
use barrikade_lens.Managed.Profiles.Names.{trim_space_twice}
use barrikade_lens.Scanner.McpConfig.{McpTool, entry, set_entry, entry_value, first_of, has_break}
use barrikade_lens.Scanner.McpConfig.Tools.{
  open_tool, add_tool, listed_tool, listed_tools, named_tools, collect_tools, found_tools, tools_at,
  declared_tools, gather_tools, merge_tools, plain_keys, allowed_keys, disabled_keys,
}

module _ {ℓ} {A : Type ℓ} (P : A → Type 0) where
  -- Every value of the map.
  abbrev pub Entries : List (String × A) → Type 0
  Entries [] = Unit
  Entries ((k, a) ∷ rest) = P a × Entries rest

  pub set_entry-Entries :
      (key : String) (a : A) (m : List (String × A)) → P a → Entries m → Entries (set_entry key a m)
  unfolding set_entry
  set_entry-Entries key a [] p h = (p, tt)
  set_entry-Entries key a ((k, b) ∷ rest) p (q, h) = elim (Bool-cases (key == k)) [
    | inl e ↦ rw e (p, h)
    | inr e ↦ rw e (q, set_entry-Entries key a rest p h)
  ]

  pub entry-Entries :
      (Q : Option A → Type 0) (key : String) (m : List (String × A))
      → Q none
      → ((a : A) → P a → Q (some a))
      → Entries m
      → Q (entry key m)
  unfolding entry
  entry-Entries Q key [] n s h = n
  entry-Entries Q key ((k, b) ∷ rest) n s (q, h) = elim (Bool-cases (key == k)) [
    | inl e ↦ rw e (s b q)
    | inr e ↦ rw e (entry-Entries Q key rest n s h)
  ]

  pub values-All : (m : List (String × A)) → Entries m → All P (map entry_value m)
  values-All [] h = tt
  values-All ((k, a) ∷ rest) (p, h) = (p, values-All rest h)

  first_of-All : (n : ℕ) (xs : List A) → All P xs → All P (first_of n xs)
  unfolding first_of
  first_of-All zero xs h = tt
  first_of-All (suc n) [] h = tt
  first_of-All (suc n) (x ∷ xs) (p, h) = (p, first_of-All n xs h)

abbrev pub ToolNamed : McpTool → Type 0
ToolNamed tool = trim_space tool.name ≢ ""

module _ (to_lower : String → String) (sprint : Value → String) where
  add_tool-Entries :
      (raw : String) (state : Option Bool) (tools : List (String × McpTool))
      → Entries ToolNamed tools
      → Entries ToolNamed (add_tool to_lower sprint raw state tools)
  unfolding add_tool
  add_tool-Entries raw state tools h =
      elim (Bool-cases (
        trim_space raw == "" || ltb 200 (Str.len (trim_space raw)) || has_break (trim_space raw))) [
          | inl e ↦ rw e h
          | inr e ↦
              elim (Bool-cases
                (open_tool to_lower sprint (entry (to_lower (trim_space raw)) tools))) [
                  | inl o ↦
                      rw (e, o)
                        (set_entry-Entries ToolNamed _ _ tools
                          (trim_space_twice raw
                            (λ b. ground (arith, e, b, eq_iff (trim_space raw) "")))
                          h)
                  | inr o ↦ rw (e, o) h
                ]
        ]

  listed_tools-Entries :
      (enabled : Option Bool) (vs : Values) (tools : List (String × McpTool))
      → Entries ToolNamed tools
      → Entries ToolNamed (listed_tools to_lower sprint enabled vs tools)
  unfolding listed_tools listed_tool
  listed_tools-Entries enabled nil tools h = h
  listed_tools-Entries enabled (cons (text name) vs) tools h =
      listed_tools-Entries enabled vs _ (add_tool-Entries name enabled tools h)
  listed_tools-Entries enabled (cons (object candidate) vs) tools h =
      listed_tools-Entries enabled vs _ (add_tool-Entries _ _ tools h)
  listed_tools-Entries enabled (cons v vs) tools h = listed_tools-Entries enabled vs tools h

  named_tools-Entries :
      (enabled : Option Bool) (m : Fields) (tools : List (String × McpTool))
      → Entries ToolNamed tools
      → Entries ToolNamed (named_tools to_lower sprint enabled m tools)
  unfolding named_tools
  named_tools-Entries enabled end tools h = h
  named_tools-Entries enabled (field name raw rest) tools h =
      named_tools-Entries enabled rest _ (add_tool-Entries name _ tools h)

  collect_tools-Entries :
      (enabled : Option Bool) (v : Value) (tools : List (String × McpTool))
      → Entries ToolNamed tools
      → Entries ToolNamed (collect_tools to_lower sprint enabled v tools)
  unfolding collect_tools
  collect_tools-Entries enabled (text name) tools h = add_tool-Entries name enabled tools h
  collect_tools-Entries enabled (items vs) tools h = listed_tools-Entries enabled vs tools h
  collect_tools-Entries enabled (object m) tools h = named_tools-Entries enabled m tools h
  collect_tools-Entries enabled v tools h = h

  found_tools-Entries :
      (enabled : Option Bool) (v : Option Value) (tools : List (String × McpTool))
      → Entries ToolNamed tools
      → Entries ToolNamed (found_tools to_lower sprint enabled v tools)
  unfolding found_tools
  found_tools-Entries enabled none tools h = h
  found_tools-Entries enabled (some v) tools h = collect_tools-Entries enabled v tools h

  tools_at-Entries :
      (config : Fields) (enabled : Option Bool) (keys : List String)
      (tools : List (String × McpTool))
      → Entries ToolNamed tools
      → Entries ToolNamed (tools_at to_lower sprint config enabled keys tools)
  unfolding tools_at
  tools_at-Entries config enabled [] tools h = h
  tools_at-Entries config enabled (key ∷ keys) tools h =
      tools_at-Entries config enabled keys _ (found_tools-Entries enabled _ tools h)

  pub declared_tools-ToolNamed :
      (config : Fields) → All ToolNamed (declared_tools to_lower sprint config)
  unfolding declared_tools
  declared_tools-ToolNamed config =
      let plain = tools_at to_lower sprint config none plain_keys [] in
      let allowed = tools_at to_lower sprint config (some true) allowed_keys plain in
      let disabled = tools_at to_lower sprint config (some false) disabled_keys allowed in
      first_of-All ToolNamed 500 _ (
        sort_by-All _ ToolNamed _ (
          values-All ToolNamed disabled (
            tools_at-Entries config (some false) disabled_keys allowed (
              tools_at-Entries config (some true) allowed_keys plain
                (tools_at-Entries config none plain_keys [] tt)))))

  gather_tools-Entries :
      (l : List McpTool) (tools : List (String × McpTool))
      → All ToolNamed l
      → Entries ToolNamed tools
      → Entries ToolNamed (gather_tools to_lower sprint l tools)
  unfolding gather_tools
  gather_tools-Entries [] tools p h = h
  gather_tools-Entries (tool ∷ rest) tools (p, ps) h =
      gather_tools-Entries rest _ ps
        (elim (Bool-cases (open_tool to_lower sprint (entry (to_lower tool.name) tools))) [
          | inl o ↦ rw o (set_entry-Entries ToolNamed _ tool tools p h)
          | inr o ↦ rw o h
        ])

  pub merge_tools-ToolNamed :
      (a b : List McpTool)
      → All ToolNamed a
      → All ToolNamed b
      → All ToolNamed (merge_tools to_lower sprint a b)
  unfolding merge_tools
  merge_tools-ToolNamed a b p q =
      sort_by-All _ ToolNamed _ (
        values-All ToolNamed _ (gather_tools-Entries (a ++ b) [] (All-append ToolNamed a b p q) tt))
