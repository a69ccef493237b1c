-- ===== src/Hub/Posture/Scopes.antt =====
-- Network scopes as an order (internal/hub/posture.go).
use Prim.Native.Nat.{max}
use barrikade_lens.Common.{
  ℕ, Bool, true, false, ◌||◌, ◌&&◌, String, ◌==◌, ◌≡◌, arith, eq_iff, ltb, if◌then◌else◌, subst,
  Bool-cases, inl, inr, refl,
}
use barrikade_lens.Discovery.Values.{Fields, get}
use barrikade_lens.Discovery.Types.{kind_model_server, kind_mcp_server, kind_api_service}
use barrikade_lens.Hub.Posture.{
  flag, has_word, serves, network_scope, scope_rank, stronger_network_scope,
}

-- The five scopes.
abbrev pub is_network_scope : String → Bool
is_network_scope s =
    s == "none" || s == "unknown" || s == "loopback" || s == "network" || s == "external"

not_blank : (s : String) → is_network_scope s ≡ true → (s == "") ≡ false
not_blank s h = elim (Bool-cases (s == "")) [
  | inl e ↦ absurd (unknown (subst (λ t. is_network_scope t ≡ true) ((eq_iff s "").0 e) h))
  | inr e ↦ e
]
  where
    unknown : is_network_scope "" ≡ true → ⊥
    unknown h = ground (arith, h)

-- Of two scopes, the one taken has the greater rank; the first of them is one of the five.
pub scope_rank-stronger :
    (left right : String)
    → is_network_scope left ≡ true
    → scope_rank (stronger_network_scope left right) ≡ max (scope_rank left) (scope_rank right)
unfolding stronger_network_scope
scope_rank-stronger left right h = elim (Bool-cases (ltb (scope_rank left) (scope_rank right))) [
  | inl e ↦ rw (e, stronger_network_scope) (greater (scope_rank left) (scope_rank right) e)
  | inr e ↦
      rw (e, not_blank left h, stronger_network_scope)
        (smaller (scope_rank left) (scope_rank right) e)
]
  where
    greater : (m n : ℕ) → ltb m n ≡ true → n ≡ max m n
    greater m n e = ground (arith, e)

    smaller : (m n : ℕ) → ltb m n ≡ false → m ≡ max m n
    smaller m n e = ground (arith, e)

known-chain :
    (a b c d e : Bool)
    → is_network_scope (
        if a
        then "external"
        else if b
        then "external"
        else if c
        then "loopback"
        else if d
        then "network"
        else if e
        then "unknown"
        else "none")
      ≡ true
known-chain true b c d e = refl
known-chain false true c d e = refl
known-chain false false true d e = refl
known-chain false false false true e = refl
known-chain false false false false true = refl
known-chain false false false false false = refl

-- Every entity has one of the five scopes.
pub network_scope-known :
    (equal_fold : String → String → Bool) (kind : String) (attrs : Fields)
    → is_network_scope (network_scope equal_fold kind attrs) ≡ true
unfolding network_scope
network_scope-known equal_fold kind attrs =
    known-chain (flag "external" attrs) (serves equal_fold (get "service_kind" attrs))
      (has_word "binding" "loopback" attrs)
      (has_word "binding" "interface" attrs || has_word "binding" "all_interfaces" attrs)
      ((kind == kind_model_server || kind == kind_mcp_server || kind == kind_api_service)
        && flag "running_at_scan" attrs)
