-- ===== src/Scanner/McpConfig/Named.antt =====
-- The servers of a collection are named (internal/scanner/mcpconfig/parser.go).
use Prim.Native.String as Str
use barrikade_lens.Common.{
  ◌≤◌, false, ◌||◌, String, List, [], ◌∷◌, ◌++◌, Option, none, some, ◌==◌, ◌≡◌, ◌≢◌, refl, arith,
  eq_iff, ltb, contains, All, Distinct, Bool-cases, inl, inr,
}
use barrikade_lens.Common.Sorting.{IsSorted, sort_texts-Distinct, sort_texts-IsSorted}
use barrikade_lens.Discovery.Values.{
  Value, Values, Fields, text, items, object, nil, cons, field, end,
}
use barrikade_lens.Discovery.Privacy.{trim_space}
use barrikade_lens.Managed.Profiles.Names.{trim_space_twice}
use barrikade_lens.Scanner.McpConfig.{
  McpServer, entry, nonblank_once, union_texts, or_first, text_value, normalize_key, string_in,
  string_value, looks_like_server,
}
use barrikade_lens.Scanner.McpConfig.Servers.{
  server_from, joined_server, add_server, named_server, listed_server, named_servers,
  listed_servers, extract_collection, or_text,
}
use barrikade_lens.Scanner.McpConfig.Collected.{
  Entries, set_entry-Entries, entry-Entries, ToolNamed, declared_tools-ToolNamed,
  merge_tools-ToolNamed,
}

-- The name is not blank and has at most 500 bytes; the keys are sorted and distinct; no tool has a
-- blank name.
pub record ServerNamed (server : McpServer) : Type 0 where
  pub named : trim_space server.name ≢ ""
  pub short : Str.len server.name ≤ 500
  pub sorted : IsSorted (λ k. k) server.environment_keys
  pub distinct : Distinct server.environment_keys
  pub tools : All ToolNamed server.tools

nonblank_once-Distinct : (l : List String) → Distinct (nonblank_once l)
unfolding nonblank_once
nonblank_once-Distinct [] = tt
nonblank_once-Distinct (value ∷ rest) =
    elim (Bool-cases (trim_space value == "" || contains (nonblank_once rest) (trim_space value))) [
      | inl e ↦ rw e (nonblank_once-Distinct rest)
      | inr e ↦ rw e (ground (arith, e), nonblank_once-Distinct rest)
    ]

union_texts-Distinct : (a b : List String) → Distinct (union_texts a b)
unfolding union_texts
union_texts-Distinct a b = sort_texts-Distinct _ (nonblank_once-Distinct (a ++ b))

union_texts-IsSorted : (a b : List String) → IsSorted (λ k. k) (union_texts a b)
unfolding union_texts
union_texts-IsSorted a b = sort_texts-IsSorted (nonblank_once (a ++ b))

-- Blank only where it is empty.
abbrev Inked : String → Type 0
Inked name = name ≢ "" → trim_space name ≢ ""

trim_space-Inked : (s : String) → Inked (trim_space s)
trim_space-Inked s n = trim_space_twice s n

abbrev Given : Option String → Type 0
Given none = Unit
Given (some s) = trim_space s ≢ ""

text_value-Given : (v : Value) → Given (text_value v)
unfolding text_value
text_value-Given (text t) = elim (Bool-cases (trim_space t == "")) [
  | inl e ↦ rw e tt
  | inr e ↦ rw e (trim_space_twice t (λ b. ground (arith, e, b, eq_iff (trim_space t) "")))
]
text_value-Given v = tt

abbrev KnownServer : Option McpServer → Type 0
KnownServer none = Unit
KnownServer (some server) = ServerNamed server

module _ (to_lower : String → String) (sprint : Value → String) where
  or_first-Given : (a b : Option String) → Given a → Given b → Given (or_first a b)
  unfolding or_first
  or_first-Given none b p q = q
  or_first-Given (some s) b p q = p

  string_in-Given : (key : String) (m : Fields) → Given (string_in to_lower sprint key m)
  unfolding string_in
  string_in-Given key end = tt
  string_in-Given key (field present v rest) =
      elim (Bool-cases
        (normalize_key to_lower sprint present == normalize_key to_lower sprint key)) [
          | inl e ↦
              rw e (or_first-Given (text_value v) _ (text_value-Given v) (string_in-Given key rest))
          | inr e ↦ rw e (string_in-Given key rest)
        ]

  string_value-Given :
      (keys : List String) (m : Fields) → Given (string_value to_lower sprint keys m)
  unfolding string_value
  string_value-Given [] m = tt
  string_value-Given (key ∷ keys) m =
      or_first-Given (string_in to_lower sprint key m) (string_value to_lower sprint keys m)
        (string_in-Given key m) (string_value-Given keys m)

  or_text-Inked : (o : Option String) → Given o → Inked (or_text to_lower sprint o "")
  unfolding or_text
  or_text-Inked none g n = absurd (n refl)
  or_text-Inked (some s) g n = g

  -- A server that may be added: its name is not blank, unless it is empty.
  record Addable (server : McpServer) : Type 0 where
    inked : Inked server.name
    sorted : IsSorted (λ k. k) server.environment_keys
    distinct : Distinct server.environment_keys
    tools : All ToolNamed server.tools

  server_from-Addable :
      (name : String) (config : Fields)
      → Inked name
      → Addable (server_from to_lower sprint name config)
  unfolding server_from
  server_from-Addable name config i = record {
    inked = i;
    sorted = union_texts-IsSorted [] _;
    distinct = union_texts-Distinct [] _;
    tools = declared_tools-ToolNamed to_lower sprint config;
  }

  joined_server-ServerNamed :
      (current : Option McpServer) (server : McpServer)
      → (server.name == "" || ltb 500 (Str.len server.name)) ≡ false
      → Addable server
      → KnownServer current
      → ServerNamed (joined_server to_lower sprint current server)
  unfolding joined_server
  joined_server-ServerNamed none server e a k = record {
    named = a.inked (λ b. ground (arith, e, b, eq_iff server.name ""));
    short = ground (arith, e);
    sorted = a.sorted;
    distinct = a.distinct;
    tools = a.tools;
  }
  joined_server-ServerNamed (some current) server e a k = record {
    named = k.named;
    short = k.short;
    sorted = union_texts-IsSorted current.environment_keys server.environment_keys;
    distinct = union_texts-Distinct current.environment_keys server.environment_keys;
    tools = merge_tools-ToolNamed to_lower sprint current.tools server.tools k.tools a.tools;
  }

  add_server-Entries :
      (server : McpServer) (result : List (String × McpServer))
      → Addable server
      → Entries ServerNamed result
      → Entries ServerNamed (add_server to_lower sprint server result)
  unfolding add_server
  add_server-Entries server result a h =
      elim (Bool-cases (server.name == "" || ltb 500 (Str.len server.name))) [
        | inl e ↦ rw e h
        | inr e ↦ rw e (
            set_entry-Entries ServerNamed _ _ result
              (joined_server-ServerNamed (entry _ result) server e a
                (entry-Entries ServerNamed KnownServer _ result tt (λ s p. p) h))
              h)
      ]

  named_servers-Entries :
      (m : Fields) (result : List (String × McpServer))
      → Entries ServerNamed result
      → Entries ServerNamed (named_servers to_lower sprint m result)
  unfolding named_servers named_server
  named_servers-Entries end result h = h
  named_servers-Entries (field name (object config) rest) result h =
      named_servers-Entries rest _ (elim (Bool-cases (looks_like_server to_lower sprint config)) [
        | inl e ↦ rw e (
            add_server-Entries _ result
              (server_from-Addable (trim_space name) config (trim_space-Inked name)) h)
        | inr e ↦ rw e h
      ])
  named_servers-Entries (field name v rest) result h = named_servers-Entries rest result h

  listed_servers-Entries :
      (vs : Values) (result : List (String × McpServer))
      → Entries ServerNamed result
      → Entries ServerNamed (listed_servers to_lower sprint vs result)
  unfolding listed_servers listed_server
  listed_servers-Entries nil result h = h
  listed_servers-Entries (cons (object config) rest) result h =
      listed_servers-Entries rest _ (elim (Bool-cases (looks_like_server to_lower sprint config)) [
        | inl e ↦ rw e (
            add_server-Entries _ result
              (server_from-Addable _ config
                (or_text-Inked _ (string_value-Given ("name" ∷ "id" ∷ []) config)))
              h)
        | inr e ↦ rw e h
      ])
  listed_servers-Entries (cons v rest) result h = listed_servers-Entries rest result h

  pub extract_collection-Entries :
      (v : Value) (result : List (String × McpServer))
      → Entries ServerNamed result
      → Entries ServerNamed (extract_collection to_lower sprint v result)
  unfolding extract_collection
  extract_collection-Entries (object m) result h = named_servers-Entries m result h
  extract_collection-Entries (items vs) result h = listed_servers-Entries vs result h
  extract_collection-Entries v result h = h
