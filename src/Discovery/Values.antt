-- ===== src/Discovery/Values.antt =====
-- The values of `map[string]any` (pkg/discovery/types.go), as `validateAttributes` tells them apart.
-- A map is an association list; where its keys are distinct, it is a Go map in one order of
-- iteration, and a nil map is the empty one.
use barrikade_lens.Common.{
  Bool, false, String, List, [], ◌∷◌, Option, none, some, ◌==◌, ◌≡◌, refl, arith, eq_iff,
  if◌then◌else◌, contains, ◌||◌, Distinct,
}

mutual
  pub data Value : Type 0 where
    null : Value
    bool : Bool → Value
    number : String → Value  -- any numeric type, by its JSON literal
    text : String → Value
    texts : List String → Value  -- []string
    items : Values → Value  -- []any
    text_map : List (String × String) → Value  -- map[string]string
    object : Fields → Value  -- map[string]any
    other : Value → Value  -- any other type, by the value that its JSON decodes to
    unsupported : Value  -- a type that json.Marshal refuses

  pub data Values : Type 0 where
    nil : Values
    cons : Value → Values → Values

  pub data Fields : Type 0 where
    end : Fields
    field : String → Value → Fields → Fields

-- m[k], with the second result
unfoldable pub get : String → Fields → Option Value
get k end = none
get k (field j v m) = if k == j then some v else get k m

-- m[k] = v
unfoldable pub put : String → Value → Fields → Fields
put k v end = field k v end
put k v (field j w m) = if k == j then field j v m else field j w (put k v m)

abbrev pub keys : Fields → List String
keys end = []
keys (field k v m) = k ∷ keys m

pub get-put :
    (k j : String) (v : Value) (m : Fields)
    → get j (put k v m) ≡ (if j == k then some v else get j m)
unfolding get put
get-put k j v end = refl
get-put k j v (field i w m) =
    ground (arith, eq_iff k j, eq_iff j k, eq_iff k i, eq_iff j i, get-put k j v m)

pub keys-put :
    (k j : String) (v : Value) (m : Fields)
    → contains (keys (put k v m)) j ≡ (j == k || contains (keys m) j)
unfolding put
keys-put k j v end = refl
keys-put k j v (field i w m) = ground (arith, eq_iff k i, eq_iff j i, eq_iff j k, keys-put k j v m)

pub put-Distinct :
    (k : String) (v : Value) (m : Fields) → Distinct (keys m) → Distinct (keys (put k v m))
unfolding put
put-Distinct k v end d = (refl, tt)
put-Distinct k v (field j w m) (f, d) =
    ground (arith, eq_iff k j, eq_iff j k, keys-put k j v m, put-Distinct k v m d)

pub get-missing : (k : String) (m : Fields) → contains (keys m) k ≡ false → get k m ≡ none
unfolding get
get-missing k end h = refl
get-missing k (field j v m) h = ground (arith, get-missing k m)
