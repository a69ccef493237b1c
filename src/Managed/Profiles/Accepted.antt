-- ===== src/Managed/Profiles/Accepted.antt =====
-- Scans that fit together give one valid snapshot (internal/managed/collector.go).
use barrikade_lens.Common.{
  ℕ, Bool, true, false, String, List, [], ◌∷◌, Option, none, some, ◌==◌, ◌≡◌, ◌≢◌, refl, sym, subst,
  ◌∙◌, arith, eq_iff, All, All-map, All-map_of, ok, eqb,
}
use barrikade_lens.Common.Sorting.{sort_by-All}
use barrikade_lens.Discovery.Types.{
  Entity, Relationship, Snapshot, Collector, Scope, Coverage, ScanError, entity_id,
}
use barrikade_lens.Discovery.Privacy.{trim_space}
use barrikade_lens.Discovery.Validation.{validate}
use barrikade_lens.Discovery.Validation.Accepted.{IsValid, RelationshipValid, validate-ok_iff}
use barrikade_lens.Discovery.Merge.{
  merge_entity, normalize_entity, normalize, combine, merge_snapshots,
}
use barrikade_lens.Discovery.Merge.Upsert.{upsert_all-All}
use barrikade_lens.Discovery.Merge.Valid.{validate-merge_snapshots}
use barrikade_lens.Scanner.Builder.Refill.{normalize-IsValid}
use barrikade_lens.Managed.Profiles.{
  Progress, not_begun, take_in, replaced, scan_all, mark, conclude, after_scans, checked,
  scan_profiles_mode,
}
use barrikade_lens.Managed.Profiles.Names.{trim_space_twice}

abbrev NotBlank : Entity → Type 0
NotBlank e = trim_space e.name ≢ ""

-- A valid snapshot of the organization, source type and schema version of `like`, in which no entity
-- has a blank name.
pub record Fits (is_timestamp : String → Bool) (like s : Snapshot) : Type 0 where
  pub valid : validate is_timestamp s ≡ ok tt
  pub named : All (λ e. trim_space e.name ≢ "") s.entities
  pub organization : s.organization_id ≡ like.organization_id
  pub source : s.source_type ≡ like.source_type
  pub schema : s.schema_version ≡ like.schema_version

-- Each scan failed or fits.
abbrev pub AllFit : (String → Bool) → Snapshot → List (Option Snapshot) → Type 0
AllFit is_timestamp like [] = Unit
AllFit is_timestamp like (none ∷ rest) = AllFit is_timestamp like rest
AllFit is_timestamp like (some s ∷ rest) = Fits is_timestamp like s × AllFit is_timestamp like rest

-- Some profile was scanned.
abbrev pub AnyScanned : List (Option Snapshot) → Type 0
AnyScanned [] = ⊥
AnyScanned (none ∷ rest) = AnyScanned rest
AnyScanned (some s ∷ rest) = Unit

merge_entity-NotBlank : (x y : Entity) → NotBlank x → NotBlank y → NotBlank (merge_entity x y)
unfolding merge_entity
merge_entity-NotBlank x y h k = h

normalize_entity-NotBlank : (e : Entity) → NotBlank e → NotBlank (normalize_entity e)
unfolding normalize_entity
normalize_entity-NotBlank e h = trim_space_twice e.name h

merge_same :
    (c s : Snapshot)
    → c.organization_id ≡ s.organization_id
    → merge_snapshots c s ≡ ok (normalize (combine c s))
unfolding merge_snapshots
merge_same c s e = ground (arith, e, eq_iff c.organization_id s.organization_id)

combined-NotBlank :
    (c s : Snapshot)
    → All NotBlank c.entities
    → All NotBlank s.entities
    → All NotBlank (normalize (combine c s)).entities
unfolding normalize combine
combined-NotBlank c s h k = All-map NotBlank normalize_entity _ (
    All-map_of NotBlank (λ e. NotBlank (normalize_entity e)) normalize_entity-NotBlank _
      (sort_by-All entity_id NotBlank _ (
        upsert_all-All entity_id merge_entity NotBlank merge_entity-NotBlank c.entities s.entities h
          k)))

-- The snapshot with another collector, scope and outcome.
abbrev dressed : Snapshot → Collector → Scope → Coverage → List ScanError → Snapshot
dressed s collector scope coverage errors = record s {
  collector = collector;
  scope = scope;
  coverage = coverage;
  errors = errors;
}

module _ (is_timestamp : String → Bool) where
  dressed-RelationshipValid :
      (s : Snapshot) (collector : Collector) (scope : Scope) (coverage : Coverage)
      (errors : List ScanError) (r : Relationship)
      → RelationshipValid is_timestamp s r
      → RelationshipValid is_timestamp (dressed s collector scope coverage errors) r
  dressed-RelationshipValid s collector scope coverage errors r v = record {
    id_given = v.id_given;
    kind_given = v.kind_given;
    from_known = v.from_known;
    to_known = v.to_known;
    clean = v.clean;
    confident = v.confident;
    provenance = v.provenance;
    refs_known = v.refs_known;
  }

  dressed-IsValid :
      (s : Snapshot) (collector : Collector) (scope : Scope) (coverage : Coverage)
      (errors : List ScanError)
      → IsValid is_timestamp s
      → IsValid is_timestamp (dressed s collector scope coverage errors)
  dressed-IsValid s collector scope coverage errors v = record {
    schema = v.schema;
    snapshot_given = v.snapshot_given;
    organization_given = v.organization_given;
    source_given = v.source_given;
    target_given = v.target_given;
    source_known = v.source_known;
    cloud_later = v.cloud_later;
    timed = v.timed;
    evidence = v.evidence;
    entities = v.entities;
    distinct = v.distinct;
    relationships =
        All-map_of _ _ (dressed-RelationshipValid s collector scope coverage errors) s.relationships
          v.relationships;
  }

  combine-Fits :
      (like c s : Snapshot)
      → Fits is_timestamp like c
      → Fits is_timestamp like s
      → Fits is_timestamp like (normalize (combine c s))
  unfolding normalize combine
  combine-Fits like c s f g = record {
    valid =
        validate-merge_snapshots is_timestamp c s (normalize (combine c s)) f.valid g.valid f.named
          g.named (g.schema ∙ sym f.schema) (g.source ∙ sym f.source)
          (merge_same c s (f.organization ∙ sym g.organization));
    named = combined-NotBlank c s f.named g.named;
    organization = f.organization;
    source = f.source;
    schema = f.schema;
  }

  -- A fitting snapshot has been combined.
  record Going (like : Snapshot) (p : Progress) : Type 0 where
    current : Snapshot
    combined : p.combined ≡ some current
    fits : Fits is_timestamp like current
    counted : eqb p.scanned 0 ≡ false

  take_in-Going :
      (like s : Snapshot) (p : Progress)
      → Fits is_timestamp like s
      → Going like p
      → (p' : Progress) × (take_in s p.combined p ≡ ok p') × Going like p'
  unfolding take_in
  take_in-Going like s p f g =
      let c = g.current in
      let m = normalize (combine c s) in
      (
        replaced m p,
        subst (λ o. take_in s o p ≡ ok (replaced m p)) (sym g.combined)
            (rw (given c g.fits, merge_same c s (g.fits.organization ∙ sym f.organization)) refl),
        record {
          current = m;
          combined = refl;
          fits = combine-Fits like c s g.fits f;
          counted = ground arith;
        },
      )
    where
      given : (c : Snapshot) → Fits is_timestamp like c → (c.snapshot_id == "") ≡ false
      given c h = ground (
        arith,
        ((validate-ok_iff is_timestamp c).0 h.valid).snapshot_given,
        eq_iff c.snapshot_id "",
      )

  scan_all-Going :
      (like : Snapshot) (scans : List (Option Snapshot)) (p : Progress)
      → AllFit is_timestamp like scans
      → Going like p
      → (p' : Progress) × (scan_all scans p ≡ ok p') × Going like p'
  unfolding scan_all
  scan_all-Going like [] p a g = (p, refl, g)
  scan_all-Going like (none ∷ rest) p a g =
      scan_all-Going like rest (record p { failed = true }) a
        (record { current = g.current; combined = g.combined; fits = g.fits; counted = g.counted })
  scan_all-Going like (some s ∷ rest) p (f, a) g =
      let (p', e, g') = take_in-Going like s p f g in
      let (p'', e', g'') = scan_all-Going like rest p' a g' in (p'', rw (e, scan_all) e', g'')

  first_scan-Going :
      (like : Snapshot) (scans : List (Option Snapshot)) (p : Progress)
      → AllFit is_timestamp like scans
      → AnyScanned scans
      → p.combined ≡ none
      → (p' : Progress) × (scan_all scans p ≡ ok p') × Going like p'
  unfolding scan_all take_in replaced
  first_scan-Going like [] p a any e = absurd any
  first_scan-Going like (none ∷ rest) p a any e =
      first_scan-Going like rest (record p { failed = true }) a any e
  first_scan-Going like (some s ∷ rest) p (f, a) any e =
      let p' : Progress = replaced s p in
      let (p'', e', g) =
        scan_all-Going like rest p' a
          (record { current = s; combined = refl; fits = f; counted = ground arith }) in
      (p'', rw (e, scan_all) e', g)

module _ (is_timestamp : String → Bool) (itoa : ℕ → String) where
  mark-valid :
      (mode version : String) (p : Progress) (like s : Snapshot)
      → Fits is_timestamp like s
      → validate is_timestamp (mark is_timestamp itoa mode version p s) ≡ ok tt
  unfolding mark
  mark-valid mode version p like s f = (validate-ok_iff is_timestamp _).1 (
      normalize-IsValid is_timestamp _
        (dressed-IsValid is_timestamp s _ _ _ _ ((validate-ok_iff is_timestamp s).0 f.valid))
        f.named)

  -- Let every scan fail or give a valid snapshot without blank names, all of one organization, source
  -- type and schema version, and let one of them succeed. Then the scans give a snapshot, it is
  -- valid, and it carries the mode and the version.
  pub scan_profiles_mode_total :
      (mode version : String) (like : Snapshot) (scans : List (Option Snapshot))
      → AllFit is_timestamp like scans
      → AnyScanned scans
      → (s : Snapshot) × (scan_profiles_mode is_timestamp itoa mode version scans ≡ ok s)
        × (validate is_timestamp s ≡ ok tt)
        × (s.collector.mode ≡ mode)
        × (s.collector.version ≡ version)
  unfolding scan_profiles_mode after_scans mark normalize
  scan_profiles_mode_total mode version like scans a any =
      let (p, e, g) = first_scan-Going is_timestamp like scans not_begun a any refl in
      let s = mark is_timestamp itoa mode version p g.current in
      let v = mark-valid mode version p like g.current g.fits in
      (s, rw (e, g.counted, g.combined, conclude, v, checked) refl, v, refl, refl)
