-- ===== src/Discovery/Merge/Surfaces.antt =====
-- Merging snapshots of two source types (pkg/discovery/merge.go against validation.go).
use barrikade_lens.Common.{
  Bool, true, false, String, List, [], ◌∷◌, map, ◌==◌, ◌≡◌, ◌≢◌, ◌∙◌, ◌⊎◌, inl, inr, arith, eq_iff,
  All, All-map_of, contains, ok, Bool-cases, sym, subst, ap,
}
use barrikade_lens.Common.Sorting.{sort_by-All}
use barrikade_lens.Discovery.Types.{Relationship, Snapshot, relationship_id, current_schema_version}
use barrikade_lens.Discovery.Validation.{validate}
use barrikade_lens.Discovery.Validation.Accepted.{RelationshipValid, validate-ok_iff}
use barrikade_lens.Discovery.Merge.{merge_relationship, normalize, combine, merge_snapshots}
use barrikade_lens.Discovery.Merge.Upsert.{upsert_all-All}
use barrikade_lens.Discovery.Merge.Kept.{joint, relationship_ids, merged_joint}

find_by_id {ℓ κ} :
    (P : Relationship → Type ℓ) (Q : Relationship → Type κ) (l : List Relationship) (k : String)
    → contains (map relationship_id l) k ≡ true
    → All P l
    → All Q l
    → (r : Relationship) × (r.id ≡ k) × P r × Q r
find_by_id P Q [] k c p q = absurd (ground arith)
find_by_id P Q (r ∷ l) k c (p, ps) (q, qs) = elim (Bool-cases (k == r.id)) [
  | inl e ↦ (r, ground (arith, eq_iff k r.id), p, q)
  | inr e ↦ find_by_id P Q l k (ground arith) ps qs
]

-- A relationship that is new to `target` has the surface of `addition`.
abbrev Foreign : Snapshot → Snapshot → Relationship → Type 0
Foreign target addition r =
    (contains (map relationship_id target.relationships) r.id ≡ true)
    ⊎ (r.surface ≡ addition.source_type)

joint-Foreign :
    (target addition : Snapshot)
    → All (Foreign target addition) target.relationships
    → All (Foreign target addition) addition.relationships
    → All (Foreign target addition) (joint target addition).relationships
unfolding normalize combine merge_relationship
joint-Foreign target addition t a = sort_by-All relationship_id (Foreign target addition) _ (
    upsert_all-All relationship_id merge_relationship (Foreign target addition) (λ x y p q. p)
      target.relationships addition.relationships t a)

ids_within :
    (ids : List String) (l : List Relationship)
    → ((k : String) → contains (map relationship_id l) k ≡ true → contains ids k ≡ true)
    → All (λ r. contains ids r.id ≡ true) l
ids_within ids [] h = tt
ids_within ids (r ∷ l) h =
    (h r.id (ground (arith, eq_iff r.id r.id)), ids_within ids l (λ k c. h k (ground arith)))

own_surface :
    (is_timestamp : String → Bool) (s : Snapshot) (l : List Relationship)
    → s.schema_version ≡ current_schema_version
    → All (RelationshipValid is_timestamp s) l
    → All (λ r. r.surface ≡ s.source_type) l
own_surface is_timestamp s l e = All-map_of _ _ (λ r v. (v.provenance e).surface) l

-- Under schema 1.3, let a valid `addition` of another source type bring a relationship that
-- `target` does not have. Then the merged snapshot is refused by `Validate`.
pub validate-merge_other_source :
    (is_timestamp : String → Bool) (target addition merged : Snapshot) (id : String)
    → target.schema_version ≡ current_schema_version
    → addition.schema_version ≡ current_schema_version
    → addition.source_type ≢ target.source_type
    → validate is_timestamp addition ≡ ok tt
    → contains (map relationship_id addition.relationships) id ≡ true
    → contains (map relationship_id target.relationships) id ≡ false
    → merge_snapshots target addition ≡ ok merged
    → validate is_timestamp merged ≢ ok tt
unfolding normalize combine
validate-merge_other_source is_timestamp target addition merged id ts as' other a there new h v =
    let m = joint target addition in
    let addition_valid = (validate-ok_iff is_timestamp addition).0 a in
    let accepted =
      subst (λ s. validate is_timestamp s ≡ ok tt) (merged_joint target addition merged h) v in
    let joint_valid = (validate-ok_iff is_timestamp m).0 accepted in
    let (r, e, p, q) =
      find_by_id (Foreign target addition) (λ r. r.surface ≡ target.source_type) m.relationships id
        (ground (arith, relationship_ids target addition id, there))
        (joint-Foreign target addition
          (All-map_of _ _ (λ r p. inl p) target.relationships
            (ids_within _ target.relationships (λ k c. c)))
          (All-map_of _ _ (λ r p. inr p) addition.relationships
            (own_surface is_timestamp addition addition.relationships as'
              addition_valid.relationships)))
        (own_surface is_timestamp m m.relationships ts joint_valid.relationships) in
    apart r e p q
  where
    apart :
        (r : Relationship)
        → r.id ≡ id
        → Foreign target addition r
        → r.surface ≡ target.source_type
        → ⊥
    apart r e (inl p) q = ground (arith, ap (contains (map relationship_id target.relationships)) e)
    apart r e (inr p) q = other (sym p ∙ q)
