-- ===== src/Examples/MergeTests.antt =====
-- Tests of pkg/discovery/merge.go and digest.go, and instances of their theorems.
use mathlib.Core.List.{Permᴰ}
use barrikade_lens.Common.{
  true, false, ◌||◌, String, [], ◌∷◌, map, Option, some, ◌≡◌, ◌≢◌, refl, ok, contains, ne_of_test,
  Distinct, arith,
}
use barrikade_lens.Common.Sorting.{sort_by, insert_by, text_le, IsSorted}
use barrikade_lens.Discovery.Values.{end, field, bool, text, get, put}
use barrikade_lens.Discovery.Types.{Snapshot, entity_id, relationship_id, evidence_id}
use barrikade_lens.Discovery.Privacy.{trim_space}
use barrikade_lens.Discovery.Validation.{validate}
use barrikade_lens.Discovery.Merge.{
  normalize, combine, merge_snapshots, both_bool, merge_entry, merge_maps, unique, merge_strings,
}
use barrikade_lens.Discovery.Merge.Parts.{after_merge, get-merge_maps, merge_strings_canonical}
use barrikade_lens.Discovery.Merge.Kept.{merge_ids}
use barrikade_lens.Discovery.Merge.Valid.{validate-merge_snapshots}
use barrikade_lens.Discovery.Merge.Surfaces.{validate-merge_other_source}
use barrikade_lens.Discovery.Digest.{
  digest, digest_content, redeliver, digest-redeliver, digest_of_perm, stamp,
  digest_content-stamp-ne,
}
use barrikade_lens.Examples.Data.{
  any_time, now, host, tool, runs_on, evidence_a, left, right, repository,
}
use barrikade_lens.Examples.DiscoveryTests.{left_valid, right_valid, repository_valid}

-- The hash, for the tests: the time of the first relationship, if any.
abbrev fingerprint : Snapshot → Option String
fingerprint s = elim s.relationships [ [] ↦ some "" | r ∷ _ ↦ some r.observed_at ]

merged_maps :
    merge_maps
      (field "a" (bool false) (field "b" (text "x") end))
      (field "a" (bool true) (field "b" (text "y") (field "c" (text "z") end)))
    ≡ field "a" (bool true) (field "b" (text "x") (field "c" (text "z") end))
unfolding merge_maps both_bool merge_entry get put
merged_maps = refl

merged_strings : merge_strings ("b" ∷ "" ∷ "a" ∷ []) ("c" ∷ "a" ∷ []) ≡ "a" ∷ "b" ∷ "c" ∷ []
unfolding merge_strings unique sort_by insert_by text_le
merged_strings = refl

merged_pair : merge_snapshots left right ≡ ok (normalize (combine left right))
unfolding merge_snapshots
merged_pair = refl

merged_surfaces : merge_snapshots left repository ≡ ok (normalize (combine left repository))
unfolding merge_snapshots
merged_surfaces = refl

validate-merge_snapshots_example : validate any_time (normalize (combine left right)) ≡ ok tt
unfolding trim_space
validate-merge_snapshots_example =
    validate-merge_snapshots any_time left right (normalize (combine left right)) left_valid
      right_valid (ne_of_test _ _ refl, (ne_of_test _ _ refl, tt)) (ne_of_test _ _ refl, tt) refl
      refl merged_pair

validate-merge_other_source_example :
    validate any_time (normalize (combine left repository)) ≢ ok tt
validate-merge_other_source_example =
    validate-merge_other_source any_time left repository (normalize (combine left repository))
      "re-2" refl refl (ne_of_test _ _ refl) repository_valid refl refl merged_surfaces

get-merge_maps_example :
    get "a" (merge_maps (field "a" (bool false) end) (field "a" (bool true) end))
    ≡ after_merge (get "a" (field "a" (bool false) end)) (get "a" (field "a" (bool true) end))
get-merge_maps_example =
    get-merge_maps "a" (field "a" (bool false) end) (field "a" (bool true) end) (refl, tt)

merge_strings_canonical_example :
    IsSorted (λ t. t) (merge_strings ("b" ∷ []) ("a" ∷ []))
    × Distinct (merge_strings ("b" ∷ []) ("a" ∷ []))
merge_strings_canonical_example = merge_strings_canonical ("b" ∷ []) ("a" ∷ [])

merge_ids_example :
    (contains (map entity_id (normalize (combine left right)).entities) "en-agent" ≡ (
      contains (map entity_id left.entities) "en-agent"
      || contains (map entity_id right.entities) "en-agent"))
    × (contains (map relationship_id (normalize (combine left right)).relationships) "en-agent" ≡ (
        contains (map relationship_id left.relationships) "en-agent"
        || contains (map relationship_id right.relationships) "en-agent"))
    × (contains (map evidence_id (normalize (combine left right)).evidence) "en-agent" ≡ (
        contains (map evidence_id left.evidence) "en-agent"
        || contains (map evidence_id right.evidence) "en-agent"))
merge_ids_example = merge_ids left right (normalize (combine left right)) "en-agent" merged_pair

digest-redeliver_example :
    digest fingerprint (redeliver "snap-9" "later" 9 (λ e. "later") left) ≡ digest fingerprint left
digest-redeliver_example = digest-redeliver fingerprint "snap-9" "later" 9 (λ e. "later") left

digest_of_perm_example :
    digest fingerprint left
    ≡ digest fingerprint (record left {
      entities = host ∷ tool ∷ [];
      relationships = runs_on ∷ [];
      evidence = evidence_a ∷ [];
    })
digest_of_perm_example =
    digest_of_perm fingerprint left (Permᴰ.swap refl refl) (Permᴰ.cons refl Permᴰ.nil)
      (Permᴰ.cons refl Permᴰ.nil) (refl, (refl, tt)) (refl, tt) (refl, tt)

digest_content-stamp-ne_example :
    digest_content (stamp now left) ≢ digest_content (stamp "later" left)
digest_content-stamp-ne_example =
    digest_content-stamp-ne left now "later" (λ e. ground (arith, e)) (ne_of_test _ _ refl)
