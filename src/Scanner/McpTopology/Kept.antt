-- ===== src/Scanner/McpTopology/Kept.antt =====
-- internal/scanner/mcptopology/topology.go keeps to the rules of the builder.
use barrikade_lens.Common.{
  true, false, ◌||◌, String, List, [], ◌∷◌, ◌==◌, ◌≡◌, ◌≢◌, refl, sym, ap, ◌∙◌, subst, arith,
  eq_iff, All, contains, Bool-cases, inl, inr, ne_of_test,
}
use barrikade_lens.Discovery.Urls.{UrlLibrary, url_host, is_cloud_metadata_host}
use barrikade_lens.Discovery.Values.{Fields}
use barrikade_lens.Discovery.Types.{
  Snapshot, kind_mcp_server, kind_tool, kind_api_service, relationship_connects_to,
  relationship_provides,
}
use barrikade_lens.Discovery.Privacy.{trim_space}
use barrikade_lens.Discovery.Validation.Attributes.{FieldsClean}
use barrikade_lens.Discovery.Validation.Accepted.{RefsKnown}
use barrikade_lens.Scanner.Builder.{Builder, add_entity, add_relationship}
use barrikade_lens.Scanner.Builder.Built.{Built, entity_added, relationship_added}
use barrikade_lens.Scanner.Builder.Known.{
  entities_of, evidence_ids, add_entity-contains, add_entity-kept, add_entity-evidence,
  add_relationship-ids,
}
use barrikade_lens.Scanner.McpConfig.{McpTool, McpServer}
use barrikade_lens.Scanner.McpConfig.Collected.{ToolNamed}
use barrikade_lens.Scanner.McpTopology.{
  McpContext, declared_state, tool_attributes, destination_attributes, direct_evidence,
  sanitized_of, server_attributes, own_server, add_tool_entity, add_tools, add_destination, add,
}
use barrikade_lens.Scanner.McpTopology.Clean.{
  ContextShort, ServerShort, tool_attributes-clean, destination_attributes-clean,
  declared_state-clean, direct_evidence-clean, server_attributes-clean,
}

module _ (stable : List String → String) (s : Snapshot) (refs : List String) where
  -- The builder is built from `s`, and has the evidence of the references and some entities.
  record Has (ids : List String) (b : Builder) : Type 0 where
    built : Built stable s b
    known : RefsKnown (evidence_ids b) refs
    there : All (λ id. contains (entities_of b) id ≡ true) ids

  All-there :
      (b c : Builder) (ids : List String)
      → ((k : String) → contains (entities_of b) k ≡ true → contains (entities_of c) k ≡ true)
      → All (λ id. contains (entities_of b) id ≡ true) ids
      → All (λ id. contains (entities_of c) id ≡ true) ids
  All-there b c [] f h = tt
  All-there b c (id ∷ ids) f (p, h) = (f id p, All-there b c ids f h)

  add_entity-Has :
      (ids : List String) (kind key name : String) (attributes : Fields) (b : Builder)
      → kind ≢ ""
      → trim_space name ≢ ""
      → FieldsClean attributes
      → Has ids b
      → Has
          ((add_entity stable kind key name attributes refs b).0 ∷ ids)
          (add_entity stable kind key name attributes refs b).1
  add_entity-Has ids kind key name attributes b k n c h = record {
    built = entity_added kind key name attributes refs k n c h.known h.built;
    known =
        subst (λ l. RefsKnown l refs)
          (sym (add_entity-evidence stable b kind key name attributes refs)) h.known;
    there = (
      add_entity-contains stable s b kind key name attributes refs h.built,
      All-there b (add_entity stable kind key name attributes refs b).1 ids
          (add_entity-kept stable b kind key name attributes refs) h.there,
    );
  }

  add_relationship-Has :
      (ids : List String) (kind from to : String) (attributes : Fields) (b : Builder)
      → kind ≢ ""
      → contains (entities_of b) from ≡ true
      → contains (entities_of b) to ≡ true
      → FieldsClean attributes
      → Has ids b
      → Has ids (add_relationship stable kind from to attributes refs b).1
  add_relationship-Has ids kind from to attributes b k f t c h =
      let (same, evidence) = add_relationship-ids stable b kind from to attributes refs in
      record {
        built = relationship_added kind from to attributes refs k f t c h.known h.built;
        known = subst (λ l. RefsKnown l refs) (sym evidence) h.known;
        there =
            All-there b (add_relationship stable kind from to attributes refs b).1 ids
              (λ k e. ap (λ l. contains l k) same ∙ e) h.there;
      }

  module _ (lib : UrlLibrary) where
    add_tools-Has :
        (context : McpContext) (canonical server : String) (tools : List McpTool) (b : Builder)
        → ContextShort context
        → All ToolNamed tools
        → Has (server ∷ []) b
        → Has (server ∷ []) (add_tools lib stable context canonical server refs tools b).1
    unfolding add_tools add_tool_entity
    add_tools-Has context canonical server [] b c n h = h
    add_tools-Has context canonical server (tool ∷ tools) b c (n, ns) h =
        let with_tool =
          add_entity-Has (server ∷ []) kind_tool _ tool.name (tool_attributes context tool) b
            (ne_of_test _ _ refl) n (tool_attributes-clean context tool c) h in
        let provided =
          add_relationship-Has _ relationship_provides server _ declared_state _
            (ne_of_test _ _ refl) with_tool.there.1.0 with_tool.there.0 declared_state-clean
            with_tool in
        add_tools-Has context canonical server tools _ c ns
          (record { built = provided.built; known = provided.known; there = provided.there.1 })

    own_server-Has :
        (owner server : String) (ids : List String) (b : Builder)
        → ((owner == "") ≡ false → contains (entities_of b) owner ≡ true)
        → contains (entities_of b) server ≡ true
        → Has ids b
        → Has ids (own_server lib stable owner server refs b)
    unfolding own_server
    own_server-Has owner server ids b o k h = elim (Bool-cases (owner == "")) [
      | inl e ↦ rw e h
      | inr e ↦ rw e (
          add_relationship-Has ids relationship_connects_to owner server declared_state b
            (ne_of_test _ _ refl) (o e) k declared_state-clean h)
    ]

    add_destination-Built :
        (context : McpContext) (server : McpServer) (id : String) (b : Builder)
        → (url_host lib (sanitized_of lib stable server) ≢ ""
            → trim_space (url_host lib (sanitized_of lib stable server)) ≢ "")
        → ContextShort context
        → ServerShort lib stable server
        → Has (id ∷ []) b
        → Built stable s
            (add_destination lib stable context id (sanitized_of lib stable server) refs b).1
    unfolding add_destination
    add_destination-Built context server id b ink c short h =
        elim (Bool-cases
          (url_host lib sanitized == "" || is_cloud_metadata_host lib (url_host lib sanitized))) [
            | inl e ↦ rw e h.built
            | inr e ↦
                let host = url_host lib sanitized in
                let with_host =
                  add_entity-Has (id ∷ []) kind_api_service _ host
                    (destination_attributes context sanitized host) b (ne_of_test _ _ refl)
                    (ink (λ q. ground (arith, e, q, eq_iff (url_host lib sanitized) "")))
                    (destination_attributes-clean context sanitized host c short.endpoint
                      short.host)
                    h in
                rw e
                  (add_relationship-Has _ relationship_connects_to id _ direct_evidence _
                    (ne_of_test _ _ refl) with_host.there.1.0 with_host.there.0
                    direct_evidence-clean with_host).built
          ]
      where
        sanitized : String
        sanitized = sanitized_of lib stable server

    -- Let what a context and a server bring be short, the server and its tools have names, the owner,
    -- if one is given, and the evidence be there, and the host of the server's address be empty or not
    -- blank. Then adding the server is a sequence of calls of the builder whose arguments are in order.
    pub add-Built :
        (context : McpContext) (owner : String) (server : McpServer) (b : Builder)
        → (url_host lib (sanitized_of lib stable server) ≢ ""
            → trim_space (url_host lib (sanitized_of lib stable server)) ≢ "")
        → ContextShort context
        → ServerShort lib stable server
        → trim_space server.name ≢ ""
        → All ToolNamed server.tools
        → ((owner == "") ≡ false → contains (entities_of b) owner ≡ true)
        → RefsKnown (evidence_ids b) refs
        → Built stable s b
        → Built stable s (add lib stable context owner server refs b).1
    unfolding add
    add-Built context owner server b ink c short n ns o k h =
        let added =
          add_entity-Has [] kind_mcp_server _ server.name
            (server_attributes lib stable context server) b (ne_of_test _ _ refl) n
            (server_attributes-clean lib stable context server c short)
            (record { built = h; known = k; there = tt }) in
        let owned =
          own_server-Has owner _ _ _
            (λ e. add_entity-kept stable b kind_mcp_server _ server.name _ refs owner (o e))
            added.there.0 added in
        add_destination-Built context server _ _ ink c short
          (add_tools-Has context _ _ server.tools _ c ns owned)
