-- ===== src/Discovery/Merge/Refs.antt =====
-- Entities and their references under a merge (pkg/discovery/merge.go).
use barrikade_lens.Common.{
  true, String, List, [], ◌∷◌, ◌≡◌, ◌≢◌, ◌∙◌, arith, eq_iff, All, All-map_of, contains, sym,
}
use barrikade_lens.Common.Sorting.{sort_texts, sort_texts-contains}
use barrikade_lens.Discovery.Types.{Entity}
use barrikade_lens.Discovery.Privacy.{trim_space}
use barrikade_lens.Discovery.Validation.Accepted.{EntityValid, RefsKnown}
use barrikade_lens.Discovery.Merge.{merge_strings, merge_entity, normalize_entity}
use barrikade_lens.Discovery.Merge.Parts.{
  merge_strings-contains, stronger-is_confidence, merge_maps-clean,
}

pub RefsKnown-of :
    (some_ids all_ids : List String)
    → ((k : String) → contains some_ids k ≡ true → contains all_ids k ≡ true)
    → (refs : List String) → RefsKnown some_ids refs
    → RefsKnown all_ids refs
RefsKnown-of some_ids all_ids sub = All-map_of _ _ sub

-- Membership says the same as `All`.
pub refs_of_members :
    (ids refs : List String)
    → ((k : String) → contains refs k ≡ true → contains ids k ≡ true)
    → RefsKnown ids refs
refs_of_members ids [] h = tt
refs_of_members ids (r ∷ rs) h =
    (h r (ground (arith, eq_iff r r)), refs_of_members ids rs (λ k c. h k (ground arith)))

pub member_of_refs :
    (ids refs : List String) (k : String)
    → RefsKnown ids refs
    → contains refs k ≡ true
    → contains ids k ≡ true
member_of_refs ids (r ∷ rs) k (p, h) c = ground (arith, eq_iff k r, member_of_refs ids rs k h)
member_of_refs ids [] k h c = ground arith

pub merge_strings-RefsKnown :
    (ids current incoming : List String)
    → RefsKnown ids current
    → RefsKnown ids incoming
    → RefsKnown ids (merge_strings current incoming)
merge_strings-RefsKnown ids current incoming h k =
    refs_of_members ids (merge_strings current incoming) λ r c. ground (
      arith,
      merge_strings-contains current incoming r,
      member_of_refs ids current r h,
      member_of_refs ids incoming r k,
    )

pub EntityValid-mono :
    (ids all_ids : List String)
    → ((k : String) → contains ids k ≡ true → contains all_ids k ≡ true)
    → (e : Entity) → EntityValid ids e
    → EntityValid all_ids e
EntityValid-mono ids all_ids sub e v = record {
  id_given = v.id_given;
  kind_given = v.kind_given;
  name_given = v.name_given;
  confident = v.confident;
  clean = v.clean;
  refs_known = RefsKnown-of ids all_ids sub e.evidence_refs v.refs_known;
}

-- A valid entity whose name is not blank.
abbrev pub Named : List String → Entity → Type 0
Named ids e = EntityValid ids e × (trim_space e.name ≢ "")

pub merge_entity-Named :
    (ids : List String) (x y : Entity) → Named ids x → Named ids y → Named ids (merge_entity x y)
unfolding merge_entity
merge_entity-Named ids x y (v, n) (w, m) = (
  record {
    id_given = v.id_given;
    kind_given = v.kind_given;
    name_given = v.name_given;
    confident = stronger-is_confidence x.confidence y.confidence v.confident w.confident;
    clean = merge_maps-clean x.attributes y.attributes v.clean w.clean;
    refs_known =
        merge_strings-RefsKnown ids x.evidence_refs y.evidence_refs v.refs_known w.refs_known;
  },
  n,
)

pub normalize_entity-valid :
    (ids : List String) (e : Entity) → Named ids e → EntityValid ids (normalize_entity e)
unfolding normalize_entity
normalize_entity-valid ids e (v, n) = record {
  id_given = v.id_given;
  kind_given = v.kind_given;
  name_given = n;
  confident = v.confident;
  clean = v.clean;
  refs_known = refs_of_members ids (sort_texts e.evidence_refs) (λ k c.
      member_of_refs ids e.evidence_refs k v.refs_known
        (sym (sort_texts-contains e.evidence_refs k) ∙ c));
}

pub Named-mono :
    (ids all_ids : List String)
    → ((k : String) → contains ids k ≡ true → contains all_ids k ≡ true)
    → (l : List Entity) → All (EntityValid ids) l
    → All (λ e. trim_space e.name ≢ "") l
    → All (Named all_ids) l
Named-mono ids all_ids sub [] h n = tt
Named-mono ids all_ids sub (e ∷ l) (v, h) (m, n) =
    ((EntityValid-mono ids all_ids sub e v, m), Named-mono ids all_ids sub l h n)
