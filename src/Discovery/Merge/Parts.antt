-- ===== src/Discovery/Merge/Parts.antt =====
-- What the helpers of pkg/discovery/merge.go compute: `mergeMaps`, `mergeStrings` and
-- `strongerConfidence`.
use Prim.Native.Nat.{max}
use barrikade_lens.Common.{
  true, false, ◌||◌, ◌&&◌, not, String, List, [], ◌∷◌, ◌++◌, Option, none, some, ◌==◌, ◌≡◌, ap, ◌∙◌,
  arith, eq_iff, Distinct, contains, contains-append, if◌then◌else◌, Option-cases, Bool-cases, inl,
  inr,
}
use barrikade_lens.Common.Sorting.{
  sort_texts-contains, sort_texts-Distinct, sort_texts-IsSorted, sorted_unique, IsSorted,
}
use barrikade_lens.Discovery.Values.{
  Value, Fields, bool, end, field, get, put, keys, get-put, get-missing,
}
use barrikade_lens.Discovery.Privacy.{is_sensitive_key}
use barrikade_lens.Discovery.Validation.{is_confidence}
use barrikade_lens.Discovery.Validation.Attributes.{IsClean, FieldsClean}
use barrikade_lens.Discovery.Merge.{
  merge_entry, merge_maps, unique, merge_strings, rank, stronger_confidence,
}

-- The value of a key that both maps have: two Booleans are joined by "or", anything else is kept.
abbrev pub joined : Value → Value → Value
joined (bool a) (bool b) = bool (a || b)
joined old new = old

-- The value of a key after a merge.
abbrev pub after_merge : Option Value → Option Value → Option Value
after_merge none new = new
after_merge (some old) none = some old
after_merge (some old) (some new) = some (joined old new)

both_bool_joined :
    (k j : String) (old new : Value) (m : Fields)
    → get k m ≡ some old
    → get j (merge_entry m k new (some old)) ≡ (if j == k then some (joined old new) else get j m)
unfolding merge_entry
both_bool_joined k j (bool a) (bool b) m h = ground (arith, get-put k j (bool (a || b)) m)
both_bool_joined k j (bool a) new m h = ground (arith, eq_iff j k)
both_bool_joined k j old new m h = ground (arith, eq_iff j k)

get-merge_entry :
    (k j : String) (new : Value) (m : Fields)
    → get j (merge_entry m k new (get k m))
      ≡ (if j == k then after_merge (get k m) (some new) else get j m)
get-merge_entry k j new m = elim (Option-cases (get k m)) [
  | inl e ↦ rw e (unfold merge_entry in get-put k j new m)
  | inr (old, e) ↦ rw e (both_bool_joined k j old new m e)
]

-- If the keys that come in are distinct, each key of the merged map has the value that its two values
-- give: what only one map has is taken, two Booleans are joined by "or", and else the old value stays.
pub get-merge_maps :
    (k : String) (current incoming : Fields)
    → Distinct (keys incoming)
    → get k (merge_maps current incoming) ≡ after_merge (get k current) (get k incoming)
unfolding merge_maps get
get-merge_maps k current end d = ground arith
get-merge_maps k current (field j v rest) (f, d) =
    get-merge_maps k (merge_entry current j v (get j current)) rest d
    ∙ ground (arith, get-merge_entry j k v current, get-missing j rest f, eq_iff j k, eq_iff k j)

unique-contains :
    (l : List String) (k : String) → contains (unique l) k ≡ (not (k == "") && contains l k)
unfolding unique
unique-contains [] k = ground arith
unique-contains (x ∷ l) k =
    ground (arith, unique-contains l k, unique-contains l x, eq_iff k x, eq_iff x "", eq_iff k "")

-- `mergeStrings` gives the texts of both lists, without "".
pub merge_strings-contains :
    (current incoming : List String) (k : String)
    → contains (merge_strings current incoming) k
      ≡ (not (k == "") && (contains current k || contains incoming k))
unfolding merge_strings
merge_strings-contains current incoming k =
    sort_texts-contains (unique (current ++ incoming)) k
    ∙ unique-contains (current ++ incoming) k
    ∙ ap (λ b. not (k == "") && b) (contains-append current incoming k)

unique-Distinct : (l : List String) → Distinct (unique l)
unfolding unique
unique-Distinct [] = tt
unique-Distinct (x ∷ l) = ground (arith, unique-Distinct l)

-- `mergeStrings` sorts, and gives nothing twice.
pub merge_strings_canonical :
    (current incoming : List String)
    → IsSorted (λ t. t) (merge_strings current incoming) × Distinct (merge_strings current incoming)
unfolding merge_strings
merge_strings_canonical current incoming = (
  sort_texts-IsSorted (unique (current ++ incoming)),
  sort_texts-Distinct (unique (current ++ incoming)) (unique-Distinct (current ++ incoming)),
)

-- The order of the two lists makes no difference to `mergeStrings`.
pub merge_strings_comm : (a b : List String) → merge_strings a b ≡ merge_strings b a
merge_strings_comm a b =
    let (s, d) = merge_strings_canonical a b in
    let (t, e) = merge_strings_canonical b a in
    sorted_unique (merge_strings a b) (merge_strings b a) s t d e
      λ k. ground (arith, merge_strings-contains a b k, merge_strings-contains b a k)

-- `strongerConfidence` gives a confidence of the greater of the two ranks.
pub rank-stronger : (a b : String) → rank (stronger_confidence a b) ≡ max (rank a) (rank b)
unfolding stronger_confidence
rank-stronger a b = ground arith

pub stronger-is_confidence :
    (a b : String)
    → is_confidence a ≡ true
    → is_confidence b ≡ true
    → is_confidence (stronger_confidence a b) ≡ true
unfolding stronger_confidence
stronger-is_confidence a b h k = ground arith

pub put-clean :
    (k : String) (v : Value) (m : Fields)
    → is_sensitive_key k ≡ false
    → IsClean v
    → FieldsClean m
    → FieldsClean (put k v m)
unfolding put
put-clean k v end f c h = (f, c, tt)
put-clean k v (field j w m) f c (g, d, h) = elim (Bool-cases (k == j)) [
  | inl e ↦ rw e (g, c, h)
  | inr e ↦ rw e (g, d, put-clean k v m f c h)
]

merge_entry-clean :
    (k : String) (v : Value) (m : Fields) (old : Option Value)
    → is_sensitive_key k ≡ false
    → IsClean v
    → FieldsClean m
    → FieldsClean (merge_entry m k v old)
unfolding merge_entry
merge_entry-clean k v m none f c h = put-clean k v m f c h
merge_entry-clean k (bool b) m (some (bool a)) f c h = put-clean k (bool (a || b)) m f tt h
merge_entry-clean k v m (some (bool a)) f c h = h
merge_entry-clean k v m (some old) f c h = h

-- Clean attributes stay clean.
pub merge_maps-clean :
    (current incoming : Fields)
    → FieldsClean current
    → FieldsClean incoming
    → FieldsClean (merge_maps current incoming)
unfolding merge_maps
merge_maps-clean current end h k = h
merge_maps-clean current (field j v rest) h (f, c, k) =
    merge_maps-clean (merge_entry current j v (get j current)) rest
      (merge_entry-clean j v current (get j current) f c h) k
