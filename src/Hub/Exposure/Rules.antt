-- ===== src/Hub/Exposure/Rules.antt =====
-- internal/hub/exposure.go: `recomputeOrganizationExposures` up to its findings, with
-- `loadExposureDestinations` and `newFinding`. What the queries give is the record `Reads`.
pub mod Sound
use Prim.Native.String as Str
use barrikade_lens.Common.{
  Bool, true, false, ◌&&◌, ◌||◌, not, String, List, [], ◌∷◌, ◌++◌, map, Option, none, some, ◌==◌,
  if◌then◌else◌, Result, ok, err, ◌>>=◌,
}
use barrikade_lens.Discovery.Values.{Fields, text, field, end, get}
use barrikade_lens.Hub.Exposure.{
  EntityContext, CatalogOperation, ExposureCatalog, ExposureDestination, ExposureFinding, Address,
  exposure_rule_version, external_credential_title, external_credential_explanation,
  sensitive_public_title, sensitive_public_explanation, state_changing_api_title,
  state_changing_api_explanation, missing_owner_title, missing_owner_explanation, attribute_string,
  bool_value, explicitly_disabled, contains_any, lower_severity, observed_path,
  is_public_destination,
}

-- `root` of `recomputeOrganizationExposures`
pub record Root : Type 0 where
  pub id : String
  pub name : String
  pub state : String
  pub attrs : Fields

-- A row of the query of `loadExposureDestinations`.
pub record DestinationRow : Type 0 where
  pub id : String
  pub kind : String
  pub name : String
  pub attributes : Fields

-- What the queries give: the posture's systems, the destinations by root, the linked catalog and the
-- context by entity (with errors ignored, as the code does), and the roots with a declared owner.
pub record Reads (E : Type 0) : Type 0 where
  pub roots : Result E (List Root)
  pub destination_rows : String → Result E (List DestinationRow)
  pub catalog : String → Option ExposureCatalog
  pub context : String → EntityContext
  pub declared_owner : String → Bool

unfoldable pub host_of : (String → Option String) → Fields → String
host_of url_hostname attrs =
    if attribute_string attrs "host" == ""
    then elim (url_hostname (attribute_string attrs "endpoint")) [ none ↦ "" | some host ↦ host ]
    else attribute_string attrs "host"

module _ (to_lower : String → String) (parse_ip : String → Option Address)
    (url_hostname : String → Option String) where
  -- The loops of loadExposureDestinations.
  unfoldable pub destination_of :
      (String → Option ExposureCatalog) → DestinationRow → ExposureDestination
  destination_of catalog row = record {
    id = row.id;
    kind = row.kind;
    name = row.name;
    host = host_of url_hostname row.attributes;
    attributes = row.attributes;
    is_public =
        is_public_destination to_lower parse_ip (host_of url_hostname row.attributes)
          row.attributes;
    credential = bool_value (get "credential_present" row.attributes);
    catalog = catalog row.id;
  }

-- The loop over the operations: hasState, hasDelete.
pub operations_effect : List CatalogOperation → Bool × Bool
operations_effect [] = (false, false)
operations_effect (operation ∷ rest) =
    let later = operations_effect rest in
    if operation.class == "destructive_potential"
    then (true, true)
    else if operation.class == "state_changing_potential"
    then (true, later.1)
    else later

pub catalog_effect : Option ExposureCatalog → Bool × Bool
catalog_effect none = (false, false)
catalog_effect (some catalog) = operations_effect catalog.operations

unfoldable pub catalog_path : List Fields → Option ExposureCatalog → List Fields
catalog_path path none = path
catalog_path path (some catalog) =
    path
    ++ field "entity_id" (text catalog.entity_id) (
        field "name" (text catalog.name) (
          field "kind" (text "api_service") (
            field "edge" (text "catalog_potential")
              (field "basis" (text "catalog_potential") end))))
      ∷ []

-- nonInternal
pub non_internal : ExposureDestination → EntityContext → Bool
non_internal destination context =
    destination.is_public
    || context.trust_boundary == "partner"
    || context.trust_boundary == "third_party"

pub is_sensitive : EntityContext → Bool
is_sensitive context = context.sensitivity == "confidential" || context.sensitivity == "restricted"

unfoldable pub sensitive_severity : EntityContext → EntityContext → String
sensitive_severity root_context destination_context =
    let severity =
      if root_context.sensitivity == "restricted"
        || contains_any root_context.data_categories ("health" ∷ "payment" ∷ "credentials" ∷ [])
      then "critical"
      else "high" in
    if destination_context.trust_boundary == "" then lower_severity severity else severity

unfoldable pub sensitive_recommendation : EntityContext → String
sensitive_recommendation destination_context =
    if destination_context.trust_boundary == ""
    then "Confirm whether the public destination belongs to your organization, a partner, or another third party, then review what data the connection could carry."
    else "Confirm who operates the destination and whether this connection is appropriate for the data handled by this AI tool or agent."

-- `if cond { findings = append(findings, ...) }`
pub when {ℓ} : {A : Type ℓ} → Bool → A → List A
when true a = a ∷ []
when false a = []

unfoldable pub is_running : Root → Bool
is_running root = root.state == "running" || bool_value (get "running_at_scan" root.attrs)

module _ (content_hash : String → String) where
  unfoldable pub finding_id : String → String → String → String
  finding_id rule root destination = content_hash (
      Str.◌++◌ exposure_rule_version
        (Str.◌++◌ "\0" (Str.◌++◌ rule (Str.◌++◌ "\0" (Str.◌++◌ root (Str.◌++◌ "\0" destination))))))

  -- newFinding
  unfoldable pub new_finding :
      String
      → String
      → String
      → String
      → String
      → String
      → String
      → List Fields
      → List String
      → ExposureFinding
  new_finding root destination rule severity title explanation recommendation path bases = record {
    id = finding_id rule root destination;
    root_id = root;
    destination_id = destination;
    rule_id = rule;
    severity = severity;
    title = title;
    explanation = explanation;
    recommendation = recommendation;
    path = path;
    bases = bases;
  }

  -- The findings for one destination that is not internal.
  unfoldable pub destination_findings :
      Root → Bool → EntityContext → ExposureDestination → EntityContext → List ExposureFinding
  destination_findings root running root_context destination destination_context =
      let path = observed_path root.id root.name destination in
      when destination.credential (
        new_finding root.id destination.id "credentialed_external_connector"
          (if running then "high" else "medium") external_credential_title
          external_credential_explanation
          "Confirm the destination, who owns the credential, what it can access, and whether the connection is still needed."
          path ("observed" ∷ []))
      ++ when (is_sensitive root_context) (
          new_finding root.id destination.id "sensitive_public_destination"
            (sensitive_severity root_context destination_context) sensitive_public_title
            sensitive_public_explanation (sensitive_recommendation destination_context) path
            ("observed" ∷ "operator_context" ∷ []))
      ++ when (destination.credential && (catalog_effect destination.catalog).0) (
          new_finding root.id destination.id "state_changing_api_potential"
            (if (catalog_effect destination.catalog).1 then "high" else "medium")
            state_changing_api_title state_changing_api_explanation
            "Review the listed API actions and confirm exactly what the credential can do before changing the connection."
            (catalog_path path destination.catalog) ("observed" ∷ "catalog_potential" ∷ []))

  -- The loop over the destinations, with hasExternal.
  unfoldable pub scan_destinations :
      (String → EntityContext)
      → Root
      → Bool
      → List ExposureDestination
      → List ExposureFinding × Bool
  scan_destinations context root running [] = ([], false)
  scan_destinations context root running (destination ∷ rest) =
      let later = scan_destinations context root running rest in
      if explicitly_disabled destination.attributes
      then later
      else if non_internal destination (context destination.id)
      then (
        destination_findings root running (context root.id) destination (context destination.id)
            ++ later.0,
        true,
      )
      else later

  unfoldable pub root_findings :
      (String → EntityContext) → Bool → Root → List ExposureDestination → List ExposureFinding
  root_findings context declared_owner root destinations =
      let running = is_running root in
      let (found, has_external) = scan_destinations context root running destinations in
      found
      ++ when (not (not ((context root.id).owner_name == "") || declared_owner)) (
          new_finding root.id "" "missing_owner"
            (if running && has_external then "medium" else "low") missing_owner_title
            missing_owner_explanation
            "Assign a person or team to review this AI tool or agent and any external connections."
            (field "entity_id" (text root.id) (
                field "name" (text root.name)
                  (field "kind" (text "system") (field "basis" (text "observed") end)))
              ∷ [])
            ("observed" ∷ "operator_context" ∷ []))

  module _ (to_lower : String → String) (parse_ip : String → Option Address)
      (url_hostname : String → Option String) {E : Type 0} where
    -- The loop over the roots.
    unfoldable pub findings_of : Reads E → List Root → Result E (List ExposureFinding)
    findings_of reads [] = ok []
    findings_of reads (root ∷ roots) =
        let rest = findings_of reads roots in
        reads.destination_rows root.id >>= λ rows. rest >>= λ later. ok (
          root_findings reads.context (reads.declared_owner root.id) root
            (map (destination_of to_lower parse_ip url_hostname reads.catalog) rows)
          ++ later)

    unfoldable pub evaluate : Reads E → Result E (List ExposureFinding)
    evaluate reads = reads.roots >>= findings_of reads
