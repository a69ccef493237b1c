-- ===== src/Probe/Mcp/Sent.antt =====
-- The messages that internal/probe/mcp.go sends.
use barrikade_lens.Common.{
  ℕ, zero, suc, ◌+◌, ◌≤◌, Bool, true, ◌||◌, String, List, [], ◌∷◌, ◌==◌, ◌≡◌, refl, arith, ltb, eqb,
  length, length-append, All, All-append, Result, ok, err, Result-cases, Bool-cases, inl, inr,
}
use barrikade_lens.Probe.{ProbeConfig, ProbeError, effective_max_bytes}
use barrikade_lens.Probe.Targets.{Outside, client_for}
use barrikade_lens.Probe.Mcp.{RawObject, McpMessage, McpNetwork, Decoders, post}
use barrikade_lens.Probe.Mcp.Exchange.{
  page_result, list_pages, list_message, check_init, after_initialized, after_init, exchange_mcp,
  initialize_message, initialized_message, mcp_target, after_client, mcp_handshake,
}

-- The messages that call no tool.
abbrev pub is_listing : String → Bool
is_listing method =
    method == "initialize" || method == "notifications/initialized" || method == "tools/list"

-- At most n messages more, of these methods.
pub record Asks (n : ℕ) (before after : McpNetwork) : Type 0 where
  pub few : length after.sent ≤ length before.sent + n
  pub listing :
      All (λ m. is_listing m.method ≡ true) before.sent
      → All (λ m. is_listing m.method ≡ true) after.sent

Asks-nothing : (n : ℕ) (network : McpNetwork) → Asks n network network
Asks-nothing n network = record { few = omega arith; listing = λ h. h }

Asks-trans : (m n : ℕ) (a b c : McpNetwork) → Asks m a b → Asks n b c → Asks (m + n) a c
Asks-trans m n a b c p q = record {
  few = omega (arith, p.few, q.few);
  listing = λ h. q.listing (p.listing h);
}

Asks-more : (m n : ℕ) (a b : McpNetwork) → m ≤ n → Asks m a b → Asks n a b
Asks-more m n a b h p = record { few = omega (arith, p.few, h); listing = p.listing }

module _ (decode : Decoders) (max_bytes : ℕ) where
  post-Asks :
      (message : McpMessage) (network : McpNetwork)
      → is_listing message.method ≡ true
      → Asks 1 network (post decode max_bytes message network).1
  unfolding post
  post-Asks message network h = record {
    few = omega (arith, length-append network.sent (message ∷ []));
    listing = λ k. All-append _ network.sent (message ∷ []) k (h, tt);
  }

  list_pages-Asks :
      (left page : ℕ) (version session cursor : String) (seen : List String) (network : McpNetwork)
      → Asks left network
          (list_pages decode max_bytes left page version session cursor seen network).1
  unfolding list_pages
  list_pages-Asks zero page version session cursor seen network = Asks-nothing 0 network
  list_pages-Asks (suc left) page version session cursor seen network =
      let message = list_message decode max_bytes page cursor version session in
      let (answer, after) = post decode max_bytes message network in
      let one = post-Asks message network (unfold list_message in refl) in
      let stop = Asks-more 1 (suc left) network after (omega arith) one in
      elim (Result-cases (page_result decode max_bytes seen answer)) [
        | inr (e, q) ↦ rw (q, list_pages) stop
        | inl ((names, next), q) ↦ elim (Bool-cases (next == "")) [
          | inl e ↦ rw (q, e, list_pages) stop
          | inr e ↦
              elim (Bool-cases
                (ltb 256 (Prim.Native.String.len next) || next == cursor || eqb page 3)) [
                  | inl b ↦ rw (q, e, b, list_pages) stop
                  | inr b ↦
                      rw (q, e, b, list_pages)
                        (Asks-more (1 + left) (suc left) _ _ (omega arith) (
                          Asks-trans 1 left network after _ one
                            (list_pages-Asks left (page + 1) version session next names after)))
                ]
        ]
      ]

  after_initialized-Asks :
      (version session : String) (answer : Result ProbeError (RawObject × String))
      (network : McpNetwork)
      → Asks 4 network (after_initialized decode max_bytes version session (answer, network)).1
  unfolding after_initialized
  after_initialized-Asks version session (err e) network = Asks-nothing 4 network
  after_initialized-Asks version session (ok answer) network =
      list_pages-Asks 4 0 version session "" [] network

  after_init-Asks :
      (answer : Result ProbeError (RawObject × String)) (network : McpNetwork)
      → Asks 5 network (after_init decode max_bytes (answer, network)).1
  unfolding after_init
  after_init-Asks (err e) network = Asks-nothing 5 network
  after_init-Asks (ok (init, session)) network =
      elim (Result-cases (check_init decode max_bytes (init, session))) [
        | inr (e, q) ↦ rw (q, after_init) (Asks-nothing 5 network)
        | inl (version, q) ↦
            rw (q, after_init)
              (Asks-more (1 + 4) 5 _ _ (omega arith) (
                Asks-trans 1 4 network _ _
                  (post-Asks (initialized_message decode max_bytes version session) network refl)
                  (after_initialized-Asks version session _ _)))
      ]

module _ (outside : Outside) (decode : Decoders) where
  mcp_handshake-Asks :
      (raw : String) (config : ProbeConfig) (network : McpNetwork)
      → Asks 6 network (mcp_handshake outside decode raw config network).1
  unfolding mcp_handshake after_client exchange_mcp
  mcp_handshake-Asks raw config network =
      elim (Result-cases (mcp_target outside decode raw config)) [
        | inr (e, q) ↦ rw (q, mcp_handshake) (Asks-nothing 6 network)
        | inl (target, q) ↦ elim (Result-cases (client_for outside target)) [
          | inr (e, d) ↦ rw (q, d, mcp_handshake) (Asks-nothing 6 network)
          | inl (addresses, d) ↦
              rw (q, d, mcp_handshake)
                (Asks-more (1 + 5) 6 _ _ (omega arith) (
                  Asks-trans 1 5 network _ _
                    (post-Asks decode _ (initialize_message decode (effective_max_bytes config))
                      network refl)
                    (after_init-Asks decode _ _ _)))
        ]
      ]

  -- A handshake sends at most 6 messages, and none of them calls a tool, whatever the server answers.
  pub mcp_handshake_listing :
      (raw : String) (config : ProbeConfig) (network : McpNetwork)
      → network.sent ≡ []
      → (length (mcp_handshake outside decode raw config network).1.sent ≤ 6)
        × All
            (λ m. is_listing m.method ≡ true)
            (mcp_handshake outside decode raw config network).1.sent
  mcp_handshake_listing raw config network e =
      let asks = mcp_handshake-Asks raw config network in (first asks.few, asks.listing (rw e tt))
    where
      none_sent : length network.sent ≡ 0
      none_sent = rw e refl

      first : {n : ℕ} → n ≤ length network.sent + 6 → n ≤ 6
      first h = omega (arith, h, none_sent)
