-- ===== src/Scanner/McpTopology/Clean.antt =====
-- The attributes of internal/scanner/mcptopology/topology.go are clean.
use barrikade_lens.Common.{
  Bool, true, false, String, List, [], ◌∷◌, Option, none, some, ◌==◌, ◌≡◌, refl, arith, All,
  Bool-cases, inl, inr,
}
use barrikade_lens.Discovery.Urls.{UrlLibrary, url_host}
use barrikade_lens.Discovery.Values.{Fields, bool, text, texts}
use barrikade_lens.Discovery.Privacy.{is_sensitive_key}
use barrikade_lens.Discovery.Validation.Attributes.{IsShort, FieldsClean}
use barrikade_lens.Discovery.Merge.Parts.{put-clean}
use barrikade_lens.Scanner.McpConfig.{McpTool, McpServer}
use barrikade_lens.Scanner.McpTopology.{
  McpContext, put_text, put_enabled, put_endpoint, put_keys, put_credential, declared_state,
  tool_attributes, destination_attributes, direct_evidence, sanitized_of, server_attributes,
}

pub record ContextShort (context : McpContext) : Type 0 where
  pub surface : IsShort context.source_surface
  pub descriptor : IsShort context.descriptor
  pub source : IsShort context.source

put_text-clean :
    (key value : String) (m : Fields)
    → is_sensitive_key key ≡ false
    → IsShort value
    → FieldsClean m
    → FieldsClean (put_text key value m)
unfolding put_text
put_text-clean key value m f s h = elim (Bool-cases (value == "")) [
  | inl e ↦ rw e h
  | inr e ↦ rw e (put-clean key (text value) m f s h)
]

put_enabled-clean : (o : Option Bool) (m : Fields) → FieldsClean m → FieldsClean (put_enabled o m)
unfolding put_enabled is_sensitive_key
put_enabled-clean none m h = h
put_enabled-clean (some b) m h = put-clean "enabled" (bool b) m refl tt h

put_endpoint-clean :
    (sanitized host : String) (b : Bool) (m : Fields)
    → IsShort sanitized
    → IsShort host
    → FieldsClean m
    → FieldsClean (put_endpoint sanitized host b m)
unfolding put_endpoint is_sensitive_key
put_endpoint-clean sanitized host false m s t h = h
put_endpoint-clean sanitized host true m s t h =
    put-clean "host" (text host) _ refl t (put-clean "endpoint" (text sanitized) m refl s h)

put_keys-clean :
    (keys : List String) (m : Fields)
    → All IsShort keys
    → FieldsClean m
    → FieldsClean (put_keys keys m)
unfolding put_keys is_sensitive_key
put_keys-clean [] m s h = h
put_keys-clean (key ∷ keys) m s h = put-clean "environment_keys" (texts (key ∷ keys)) m refl s h

put_credential-clean : (b : Bool) (m : Fields) → FieldsClean m → FieldsClean (put_credential b m)
unfolding put_credential is_sensitive_key
put_credential-clean false m h = h
put_credential-clean true m h = put-clean "credential_present" (bool true) m refl tt h

pub tool_attributes-clean :
    (context : McpContext) (tool : McpTool)
    → ContextShort context
    → FieldsClean (tool_attributes context tool)
unfolding tool_attributes is_sensitive_key
tool_attributes-clean context tool c =
    put_enabled-clean tool.enabled _ (refl, tt, (refl, ground arith, (refl, c.surface, tt)))

pub destination_attributes-clean :
    (context : McpContext) (sanitized host : String)
    → ContextShort context
    → IsShort sanitized
    → IsShort host
    → FieldsClean (destination_attributes context sanitized host)
unfolding destination_attributes is_sensitive_key
destination_attributes-clean context sanitized host c s t =
    (refl, t, (refl, s, (refl, ground arith, (refl, c.surface, (refl, tt, tt)))))

pub declared_state-clean : FieldsClean declared_state
unfolding is_sensitive_key
declared_state-clean = (refl, ground arith, tt)

pub direct_evidence-clean : FieldsClean direct_evidence
unfolding is_sensitive_key
direct_evidence-clean = (refl, tt, (refl, ground arith, tt))

module _ (lib : UrlLibrary) (stable : List String → String) where
  -- What a server brings into the attributes is short.
  pub record ServerShort (server : McpServer) : Type 0 where
    pub transport : IsShort server.transport
    pub keys : All IsShort server.environment_keys
    pub endpoint : IsShort (sanitized_of lib stable server)
    pub host : IsShort (url_host lib (sanitized_of lib stable server))

  pub server_attributes-clean :
      (context : McpContext) (server : McpServer)
      → ContextShort context
      → ServerShort server
      → FieldsClean (server_attributes lib stable context server)
  unfolding server_attributes is_sensitive_key
  server_attributes-clean context server c s = put_credential-clean server.credential_present _ (
      put_keys-clean server.environment_keys _ s.keys (
        put_enabled-clean server.enabled _ (
          put_endpoint-clean _ _ _ _ s.endpoint s.host (
            put_text-clean "source" context.source _ refl c.source (
              put_text-clean "descriptor" context.descriptor _ refl c.descriptor
                (refl, tt, (refl, s.transport, (refl, c.surface, (refl, ground arith, tt)))))))))
