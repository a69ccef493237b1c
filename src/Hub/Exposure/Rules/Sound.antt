-- ===== src/Hub/Exposure/Rules/Sound.antt =====
-- Which findings the rules of internal/hub/exposure.go raise.
use barrikade_lens.Common.{
  Bool, true, false, ◌&&◌, ◌||◌, not, String, List, [], ◌∷◌, ◌++◌, Option, none, some, ◌==◌, ◌≡◌,
  refl, ◌∙◌, arith, any, any-append, if◌then◌else◌,
}
use barrikade_lens.Hub.Exposure.{
  EntityContext, CatalogOperation, ExposureCatalog, ExposureDestination, ExposureFinding,
  explicitly_disabled,
}
use barrikade_lens.Hub.Exposure.Rules.{
  Root, operations_effect, catalog_effect, non_internal, is_sensitive, when, new_finding,
  destination_findings, scan_destinations, root_findings,
}

-- A finding by a rule, for a destination.
abbrev pub raises : String → String → List ExposureFinding → Bool
raises rule destination = any (λ f. f.rule_id == rule && f.destination_id == destination)

abbrev pub changes_state : CatalogOperation → Bool
changes_state o = o.class == "destructive_potential" || o.class == "state_changing_potential"

abbrev pub may_change : Option ExposureCatalog → Bool
may_change none = false
may_change (some catalog) = any changes_state catalog.operations

-- The conditions of the rules, for a root with the context `about` and a destination.
abbrev pub fires : String → EntityContext → ExposureDestination → Bool
fires rule about d =
    "credentialed_external_connector" == rule && d.credential
    || "sensitive_public_destination" == rule
      && (about.sensitivity == "confidential" || about.sensitivity == "restricted")
    || "state_changing_api_potential" == rule && (d.credential && may_change d.catalog)

-- The destination is enabled, and public or of somebody else.
abbrev pub outside : EntityContext → ExposureDestination → Bool
outside about d =
    not (explicitly_disabled d.attributes)
    && (d.is_public || about.trust_boundary == "partner" || about.trust_boundary == "third_party")

-- The destinations for which a rule fires.
abbrev pub targeted : (String → EntityContext) → String → String → Root → ExposureDestination → Bool
targeted context rule destination root d =
    outside (context d.id) d && (d.id == destination && fires rule (context root.id) d)

operations_effect-any :
    (operations : List CatalogOperation)
    → (operations_effect operations).0 ≡ any changes_state operations
unfolding operations_effect
operations_effect-any [] = refl
operations_effect-any (o ∷ rest) = ground (arith, operations_effect-any rest)

catalog_effect-may_change :
    (catalog : Option ExposureCatalog) → (catalog_effect catalog).0 ≡ may_change catalog
unfolding catalog_effect
catalog_effect-may_change none = refl
catalog_effect-may_change (some c) = operations_effect-any c.operations

raises-when :
    (rule destination : String) (b : Bool) (f : ExposureFinding)
    → raises rule destination (when b f)
      ≡ (b && f.rule_id == rule && f.destination_id == destination)
unfolding when
raises-when rule destination true f = ground arith
raises-when rule destination false f = refl

raises-three :
    (rule destination : String) (a b c : Bool) (f g h : ExposureFinding)
    → raises rule destination (when a f ++ when b g ++ when c h) ≡ (
        a && f.rule_id == rule && f.destination_id == destination
        || b && g.rule_id == rule && g.destination_id == destination
        || c && h.rule_id == rule && h.destination_id == destination)
raises-three rule destination a b c f g h = ground (
  arith,
  any-append (λ f. f.rule_id == rule && f.destination_id == destination) (when a f ++ when b g)
      (when c h),
  any-append (λ f. f.rule_id == rule && f.destination_id == destination) (when a f) (when b g),
  raises-when rule destination a f,
  raises-when rule destination b g,
  raises-when rule destination c h,
)

sorted_out :
    (p q r d a b c : Bool)
    → (a && p && d || b && q && d || c && r && d) ≡ (d && (p && a || q && b || r && c))
sorted_out p q r d a b c = ground arith

raises-if :
    (rule destination : String) (skip take : Bool) (fs : List ExposureFinding)
    (later : List ExposureFinding × Bool)
    → raises rule destination
        (if skip then later else if take then (fs ++ later.0, true) else later).0
      ≡ (not skip && take && raises rule destination fs || raises rule destination later.0)
raises-if rule destination true take fs later = refl
raises-if rule destination false true fs later =
    any-append (λ f. f.rule_id == rule && f.destination_id == destination) fs later.0
raises-if rule destination false false fs later = refl

unowned : (t a b p q : Bool) → (t || not (not a || b) && p && q) ≡ (t || a && not b && p && q)
unowned t a b p q = ground arith

module _ (content_hash : String → String) where
  raises-destination_findings :
      (rule destination : String) (root : Root) (running : Bool) (about : EntityContext)
      (d : ExposureDestination) (context : EntityContext)
      → raises rule destination (destination_findings content_hash root running about d context)
        ≡ (d.id == destination && fires rule about d)
  unfolding destination_findings new_finding is_sensitive
  raises-destination_findings rule destination root running about d context =
      raises-three rule destination _ _ _ _ _ _
      ∙ rw (catalog_effect-may_change d.catalog) (
          sorted_out ("credentialed_external_connector" == rule)
            ("sensitive_public_destination" == rule) ("state_changing_api_potential" == rule)
            (d.id == destination) d.credential
            (about.sensitivity == "confidential" || about.sensitivity == "restricted")
            (d.credential && may_change d.catalog))

  raises-scan_destinations :
      (context : String → EntityContext) (rule destination : String) (root : Root) (running : Bool)
      (ds : List ExposureDestination)
      → raises rule destination (scan_destinations content_hash context root running ds).0
        ≡ any (targeted context rule destination root) ds
  unfolding scan_destinations non_internal
  raises-scan_destinations context rule destination root running [] = refl
  raises-scan_destinations context rule destination root running (d ∷ ds) =
      raises-if rule destination (explicitly_disabled d.attributes) (non_internal d (context d.id))
        _ _
      ∙ rw
          (
            raises-destination_findings rule destination root running (context root.id) d
                (context d.id),
            raises-scan_destinations context rule destination root running ds,
          )
          refl

  -- The findings for a root are those of the rules: for a destination, a rule gives one exactly when
  -- an enabled destination with that id is public or of somebody else and the rule's condition holds;
  -- and without an owner, given or declared, there is a finding for that, without a destination.
  pub raises-root_findings :
      (context : String → EntityContext) (declared_owner : Bool) (root : Root)
      (destinations : List ExposureDestination) (rule destination : String)
      → raises rule destination
          (root_findings content_hash context declared_owner root destinations)
        ≡ (any (targeted context rule destination root) destinations
            || (context root.id).owner_name == ""
              && not declared_owner
              && "missing_owner" == rule
              && "" == destination)
  unfolding root_findings new_finding
  raises-root_findings context declared_owner root destinations rule destination =
      any-append (λ f. f.rule_id == rule && f.destination_id == destination)
        (scan_destinations content_hash context root _ destinations).0 _
      ∙ rw
          (
            raises-scan_destinations context rule destination root _ destinations,
            raises-when rule destination
                (not (not ((context root.id).owner_name == "") || declared_owner)) _,
          )
          (unowned (any (targeted context rule destination root) destinations)
            ((context root.id).owner_name == "") declared_owner ("missing_owner" == rule)
            ("" == destination))
