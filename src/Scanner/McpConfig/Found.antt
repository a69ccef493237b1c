-- ===== src/Scanner/McpConfig/Found.antt =====
-- The servers that `Find` gives are named (internal/scanner/mcpconfig/parser.go).
use barrikade_lens.Common.{String, List, [], ◌∷◌, All, Bool-cases, inl, inr}
use barrikade_lens.Discovery.Values.{Value, Values, Fields, items, object, nil, cons, field, end}
use barrikade_lens.Scanner.McpConfig.{McpServer}
use barrikade_lens.Scanner.McpConfig.Servers.{
  is_collection, walk, walk_fields, walk_values, comes_first, insert_server, sort_servers, find,
}
use barrikade_lens.Scanner.McpConfig.Collected.{Entries, values-All}
use barrikade_lens.Scanner.McpConfig.Named.{ServerNamed, extract_collection-Entries}

module _ (to_lower : String → String) (sprint : Value → String) where
  mutual
    unfolding walk

    walk-Entries :
        (v : Value) (result : List (String × McpServer))
        → Entries ServerNamed result
        → Entries ServerNamed (walk to_lower sprint v result)
    walk-Entries (object m) result h = walk_fields-Entries m result h
    walk-Entries (items vs) result h = walk_values-Entries vs result h
    walk-Entries v result h = h

    walk_fields-Entries :
        (m : Fields) (result : List (String × McpServer))
        → Entries ServerNamed result
        → Entries ServerNamed (walk_fields to_lower sprint m result)
    walk_fields-Entries end result h = h
    walk_fields-Entries (field key child rest) result h =
        walk_fields-Entries rest _ (elim (Bool-cases (is_collection to_lower sprint key child)) [
          | inl e ↦ rw e (extract_collection-Entries to_lower sprint child result h)
          | inr e ↦ rw e (walk-Entries child result h)
        ])

    walk_values-Entries :
        (vs : Values) (result : List (String × McpServer))
        → Entries ServerNamed result
        → Entries ServerNamed (walk_values to_lower sprint vs result)
    walk_values-Entries nil result h = h
    walk_values-Entries (cons child rest) result h =
        walk_values-Entries rest _ (walk-Entries child result h)

  insert_server-All :
      (server : McpServer) (l : List McpServer)
      → ServerNamed server
      → All ServerNamed l
      → All ServerNamed (insert_server to_lower sprint server l)
  unfolding insert_server
  insert_server-All server [] p h = (p, tt)
  insert_server-All server (other ∷ rest) p (q, h) =
      elim (Bool-cases (comes_first to_lower sprint other server)) [
        | inl e ↦ rw e (q, insert_server-All server rest p h)
        | inr e ↦ rw e (p, (q, h))
      ]

  sort_servers-All :
      (l : List McpServer) → All ServerNamed l → All ServerNamed (sort_servers to_lower sprint l)
  unfolding sort_servers
  sort_servers-All [] h = tt
  sort_servers-All (server ∷ rest) (p, h) = insert_server-All server _ p (sort_servers-All rest h)

  -- Each server that is found in a document has a name of at most 500 bytes that is not blank, sorted
  -- and distinct keys of its environment, and tools whose names are not blank.
  pub find-ServerNamed : (document : Value) → All ServerNamed (find to_lower sprint document)
  unfolding find
  find-ServerNamed document =
      sort_servers-All _
        (values-All ServerNamed (walk to_lower sprint document []) (walk-Entries document [] tt))
