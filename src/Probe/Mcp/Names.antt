-- ===== src/Probe/Mcp/Names.antt =====
-- The names of the tools that internal/probe/mcp.go gives.
use Prim.Native.String as Str
use barrikade_lens.Common.{
  ℕ, zero, suc, ◌+◌, ◌≤◌, true, false, ◌||◌, String, List, [], ◌∷◌, ◌==◌, ◌≡◌, refl, sym, ◌∙◌, ap,
  subst, arith, ltb, eqb, contains, length, All, Distinct, if◌then◌else◌, Result, ok, err, fail_if,
  fail_if-ok, >>-eq-ok, >>=-eq-ok, ok-inj, err-ne-ok, Result-cases, Bool-cases, Option-cases, inl,
  inr,
}
use barrikade_lens.Common.Sorting.{
  sort_by, insert_by, sort_texts, IsSorted, sort_by-All, sort_texts-Distinct, sort_texts-IsSorted,
}
use barrikade_lens.Discovery.Privacy.{trim_space}
use barrikade_lens.Probe.{ProbeConfig, ProbeResult, ProbeError, list_missing, too_many_names}
use barrikade_lens.Probe.Targets.{Outside, client_for}
use barrikade_lens.Probe.Mcp.{
  RawObject, raw_at, raw_text, McpNetwork, Decoders, safe_mcp_tool_name, post,
}
use barrikade_lens.Probe.Mcp.Exchange.{
  add_names, page_names, page_result, list_pages, list_message, next_cursor, check_init,
  after_initialized, after_init, exchange_mcp, mcp_target, mcp_result, after_client, mcp_handshake,
}

insert_by-length :
    (x : String) (xs : List String) → length (insert_by (λ t. t) x xs) ≡ suc (length xs)
unfolding insert_by
insert_by-length x [] = refl
insert_by-length x (y ∷ ys) = ground (arith, insert_by-length x ys)

sort_texts-length : (xs : List String) → length (sort_texts xs) ≡ length xs
unfolding sort_by
sort_texts-length [] = refl
sort_texts-length (x ∷ xs) = insert_by-length x (sort_texts xs) ∙ ap suc (sort_texts-length xs)

module _ (decode : Decoders) (max_bytes : ℕ) where
  -- What the loops keep of the names.
  pub record Collected (seen : List String) : Type 0 where
    pub distinct : Distinct seen
    pub safe : All (λ name. safe_mcp_tool_name decode name ≡ true) seen
    pub few : length seen ≤ 100

  nothing-Collected : Collected []
  nothing-Collected = record { distinct = tt; safe = tt; few = omega arith }

  add_name :
      (seen : List String) (name : String)
      → safe_mcp_tool_name decode name ≡ true
      → ltb 100 (length (if contains seen name then seen else name ∷ seen)) ≡ false
      → Collected seen
      → Collected (if contains seen name then seen else name ∷ seen)
  add_name seen name s h c = elim (Bool-cases (contains seen name)) [
    | inl e ↦ rw e c
    | inr e ↦ rw e (record { distinct = (e, c.distinct); safe = (s, c.safe); few = few e h })
  ]
    where
      few :
          contains seen name ≡ false
          → ltb 100 (length (if contains seen name then seen else name ∷ seen)) ≡ false
          → suc (length seen) ≤ 100
      few e h = ground (arith, e, h)

  add_names-Collected :
      (seen items : List String) {r : List String}
      → add_names decode max_bytes seen items ≡ ok r
      → Collected seen
      → Collected r
  unfolding add_names
  add_names-Collected seen [] h c = subst Collected (ok-inj h) c
  add_names-Collected seen (item ∷ rest) h c =
      elim (Bool-cases (safe_mcp_tool_name decode (trim_space item))) [
        | inl s ↦
            let name = trim_space item in
            let found = if contains seen name then seen else name ∷ seen in
            let (small, more) =
              >>-eq-ok (fail_if (ltb 100 (length found)) too_many_names)
                (add_names decode max_bytes found rest) (rw s at h) in
            add_names-Collected found rest more (add_name seen name s (fail_if-ok _ _ small) c)
        | inr s ↦ add_names-Collected seen rest (rw s at h) c
      ]

  page_names-Collected :
      (seen : List String) (listed : RawObject) {r : List String}
      → page_names decode max_bytes seen listed ≡ ok r
      → Collected seen
      → Collected r
  unfolding page_names
  page_names-Collected seen listed h c =
      let tools = raw_text (raw_at "tools" listed) in
      let (g, k) = >>-eq-ok (fail_if (tools == "" || tools == "null") list_missing) _ h in
      elim (Option-cases (decode.names tools)) [
        | inl e ↦ absurd (err-ne-ok (rw e at k))
        | inr (names, e) ↦ add_names-Collected seen names (rw e at k) c
      ]

  page_result-Collected :
      (seen : List String) (answer : Result ProbeError (RawObject × String))
      {r : List String × String}
      → page_result decode max_bytes seen answer ≡ ok r
      → Collected seen
      → Collected r.0
  unfolding page_result
  page_result-Collected seen (err e) h c = ground (arith, h)
  page_result-Collected seen (ok (listed, session)) h c =
      let (names, p, q) =
        >>=-eq-ok (page_names decode max_bytes seen listed)
          (λ names. ok (names, next_cursor decode max_bytes listed)) h in
      subst (λ x. Collected x.0) (ok-inj q) (page_names-Collected seen listed p c)

  list_pages-Collected :
      (left page : ℕ) (version session cursor : String) (seen : List String) (network : McpNetwork)
      {r : List String}
      → (list_pages decode max_bytes left page version session cursor seen network).0 ≡ ok r
      → Collected seen
      → Collected r
  unfolding list_pages
  list_pages-Collected zero page version session cursor seen network h c =
      subst Collected (ok-inj h) c
  list_pages-Collected (suc left) page version session cursor seen network h c =
      elim (Result-cases (
        page_result decode max_bytes seen
          (post decode max_bytes (list_message decode max_bytes page cursor version session)
            network).0)) [
              | inr (e, q) ↦ absurd (err-ne-ok (rw (q, list_pages) at h))
              | inl ((names, next), q) ↦
                  let good = page_result-Collected seen _ q c in
                  elim (Bool-cases (next == "")) [
                    | inl e ↦ subst Collected (ok-inj (rw (q, e, list_pages) at h)) good
                    | inr e ↦
                        elim (Bool-cases (ltb 256 (Str.len next) || next == cursor || eqb page 3)) [
                          | inl b ↦ absurd (err-ne-ok (rw (q, e, b, list_pages) at h))
                          | inr b ↦
                              list_pages-Collected left (page + 1) version session next names _
                                (rw (q, e, b, list_pages) at h) good
                        ]
                  ]
            ]

  after_initialized-Collected :
      (version session : String) (answer : Result ProbeError (RawObject × String) × McpNetwork)
      {r : List String}
      → (after_initialized decode max_bytes version session answer).0 ≡ ok r
      → Collected r
  unfolding after_initialized
  after_initialized-Collected version session (err e, network) h = absurd (err-ne-ok h)
  after_initialized-Collected version session (ok answer, network) h =
      list_pages-Collected 4 0 version session "" [] network h nothing-Collected

  after_init-Collected :
      (answer : Result ProbeError (RawObject × String) × McpNetwork) {init : RawObject}
      {version : String} {tools : List String}
      → (after_init decode max_bytes answer).0 ≡ ok (init, version, tools)
      → (seen : List String) × Collected seen × (sort_texts seen ≡ tools)
  unfolding after_init
  after_init-Collected (err e, network) h = absurd (err-ne-ok h)
  after_init-Collected (ok (init, session), network) h =
      elim (Result-cases (check_init decode max_bytes (init, session))) [
        | inr (e, q) ↦ absurd (err-ne-ok (rw (q, after_init) at h))
        | inl (version, q) ↦
            let (seen, p, k) = >>=-eq-ok _ _ (rw (q, after_init) at h) in
            (seen, after_initialized-Collected version session _ p, ap (λ x. x.2) (ok-inj k))
      ]

module _ (outside : Outside) (decode : Decoders) where
  abbrev pub Listed : List String → Type 0
  Listed tools =
      IsSorted (λ t. t) tools
      × Distinct tools
      × (length tools ≤ 100)
      × All (λ name. safe_mcp_tool_name decode name ≡ true) tools

  sort_texts-Listed :
      (max_bytes : ℕ) (seen tools : List String)
      → Collected decode max_bytes seen
      → sort_texts seen ≡ tools
      → Listed tools
  sort_texts-Listed max_bytes seen tools c e = subst Listed e (
    sort_texts-IsSorted seen,
    sort_texts-Distinct seen c.distinct,
    subst (λ n. n ≤ 100) (sym (sort_texts-length seen)) c.few,
    sort_by-All (λ t. t) (λ name. safe_mcp_tool_name decode name ≡ true) seen c.safe,
  )

  -- The names of the tools that a handshake gives are sorted and distinct, at most 100, and safe.
  pub mcp_handshake-Listed :
      (raw : String) (config : ProbeConfig) (network : McpNetwork) (result : ProbeResult)
      → (mcp_handshake outside decode raw config network).0 ≡ ok result
      → Listed result.tools
  unfolding mcp_handshake after_client exchange_mcp mcp_result
  mcp_handshake-Listed raw config network result h =
      elim (Result-cases (mcp_target outside decode raw config)) [
        | inr (e, q) ↦ absurd (err-ne-ok (rw (q, mcp_handshake) at h))
        | inl (target, q) ↦ elim (Result-cases (client_for outside target)) [
          | inr (e, d) ↦ absurd (err-ne-ok (rw (q, d, mcp_handshake) at h))
          | inl (addresses, d) ↦
              let (found, p, k) = >>=-eq-ok _ _ (rw (q, d, mcp_handshake) at h) in
              let (seen, c, s) = after_init-Collected decode _ _ p in
              sort_texts-Listed _ seen result.tools c (s ∙ ap (λ r. r.tools) (ok-inj k))
        ]
      ]
