-- ===== src/Discovery/Validation/Attributes.antt =====
-- What `validateAttributes` accepts (pkg/discovery/validation.go).
use Prim.Native.String.{len}
use barrikade_lens.Common.{
  ◌*◌, ◌≤◌, false, String, List, [], ◌∷◌, ◌≡◌, refl, arith, All, ok, >>-eq-ok, fail_if, fail_if-ok,
}
use barrikade_lens.Discovery.Values.{
  Value, Values, Fields, null, bool, number, text, texts, items, text_map, object, other,
  unsupported, nil, cons, end, field,
}
use barrikade_lens.Discovery.Privacy.{is_sensitive_key}
use barrikade_lens.Discovery.Validation.{
  validate_text, validate_texts, validate_text_map, validate_value, validate_values,
  validate_fields,
}

abbrev pub IsShort : String → Type 0
IsShort s = len s ≤ 16 * 1024

-- No key is sensitive and no text is long, at any depth, and every part has a JSON form.
abbrev mutual
  pub IsClean : Value → Type 0
  IsClean null = Unit
  IsClean (bool b) = Unit
  IsClean (number n) = Unit
  IsClean (text s) = IsShort s
  IsClean (texts l) = All IsShort l
  IsClean (items vs) = AreClean vs
  IsClean (text_map m) = All (λ kv. (is_sensitive_key kv.0 ≡ false) × IsShort kv.1) m
  IsClean (object m) = FieldsClean m
  IsClean (other v) = IsClean v
  IsClean unsupported = ⊥

  pub AreClean : Values → Type 0
  AreClean nil = Unit
  AreClean (cons v vs) = IsClean v × AreClean vs

  pub FieldsClean : Fields → Type 0
  FieldsClean end = Unit
  FieldsClean (field key v m) = (is_sensitive_key key ≡ false) × IsClean v × FieldsClean m

text_accepted : (s : String) → validate_text s ≡ ok tt → IsShort s
unfolding validate_text
text_accepted s h = ground (arith, h)

text_complete : (s : String) → IsShort s → validate_text s ≡ ok tt
unfolding validate_text
text_complete s h = ground arith

texts_accepted : (l : List String) → validate_texts l ≡ ok tt → All IsShort l
unfolding validate_texts
texts_accepted [] h = tt
texts_accepted (s ∷ l) h =
    let (a, b) = >>-eq-ok (validate_text s) (validate_texts l) h in
    (text_accepted s a, texts_accepted l b)

texts_complete : (l : List String) → All IsShort l → validate_texts l ≡ ok tt
unfolding validate_texts
texts_complete [] h = refl
texts_complete (s ∷ l) (p, h) = rw (text_complete s p) (texts_complete l h)

text_map_accepted :
    (m : List (String × String))
    → validate_text_map m ≡ ok tt
    → All (λ kv. (is_sensitive_key kv.0 ≡ false) × IsShort kv.1) m
unfolding validate_text_map
text_map_accepted [] h = tt
text_map_accepted ((k, s) ∷ m) h =
    let (a, b) = >>-eq-ok (fail_if (is_sensitive_key k) _) _ h in
    let (c, d) = >>-eq-ok (validate_text s) (validate_text_map m) b in
    ((fail_if-ok (is_sensitive_key k) _ a, text_accepted s c), text_map_accepted m d)

text_map_complete :
    (m : List (String × String))
    → All (λ kv. (is_sensitive_key kv.0 ≡ false) × IsShort kv.1) m
    → validate_text_map m ≡ ok tt
unfolding validate_text_map
text_map_complete [] h = refl
text_map_complete ((k, s) ∷ m) ((p, q), h) = rw (p, text_complete s q) (text_map_complete m h)

mutual
  unfolding validate_value

  pub value_accepted : (v : Value) → validate_value v ≡ ok tt → IsClean v
  value_accepted null h = tt
  value_accepted (bool b) h = tt
  value_accepted (number n) h = tt
  value_accepted (text s) h = text_accepted s h
  value_accepted (texts l) h = texts_accepted l h
  value_accepted (items vs) h = values_accepted vs h
  value_accepted (text_map m) h = text_map_accepted m h
  value_accepted (object m) h = fields_accepted m h
  value_accepted (other v) h = value_accepted v h
  value_accepted unsupported h = cc

  pub values_accepted : (vs : Values) → validate_values vs ≡ ok tt → AreClean vs
  values_accepted nil h = tt
  values_accepted (cons v vs) h =
      let (a, b) = >>-eq-ok (validate_value v) (validate_values vs) h in
      (value_accepted v a, values_accepted vs b)

  pub fields_accepted : (m : Fields) → validate_fields m ≡ ok tt → FieldsClean m
  fields_accepted end h = tt
  fields_accepted (field k v m) h =
      let (a, b) = >>-eq-ok (fail_if (is_sensitive_key k) _) _ h in
      let (c, d) = >>-eq-ok (validate_value v) (validate_fields m) b in
      (fail_if-ok (is_sensitive_key k) _ a, value_accepted v c, fields_accepted m d)

mutual
  unfolding validate_value

  pub value_complete : (v : Value) → IsClean v → validate_value v ≡ ok tt
  value_complete null h = refl
  value_complete (bool b) h = refl
  value_complete (number n) h = refl
  value_complete (text s) h = text_complete s h
  value_complete (texts l) h = texts_complete l h
  value_complete (items vs) h = values_complete vs h
  value_complete (text_map m) h = text_map_complete m h
  value_complete (object m) h = fields_complete m h
  value_complete (other v) h = value_complete v h
  value_complete unsupported h = absurd h

  pub values_complete : (vs : Values) → AreClean vs → validate_values vs ≡ ok tt
  values_complete nil h = refl
  values_complete (cons v vs) (p, h) = rw (value_complete v p) (values_complete vs h)

  pub fields_complete : (m : Fields) → FieldsClean m → validate_fields m ≡ ok tt
  fields_complete end h = refl
  fields_complete (field k v m) (f, p, h) = rw (f, value_complete v p) (fields_complete m h)

-- `key` stands in `v`, at any depth.
mutual
  pub data KeyIn (key : String) : Value → Type 0 where
    in_items : {vs : Values} → KeyInItems key vs → KeyIn key (items vs)
    in_map : {m : List (String × String)} → KeyInMap key m → KeyIn key (text_map m)
    in_object : {m : Fields} → KeyInFields key m → KeyIn key (object m)
    in_other : {v : Value} → KeyIn key v → KeyIn key (other v)

  pub data KeyInItems (key : String) : Values → Type 0 where
    first : {v : Value} {vs : Values} → KeyIn key v → KeyInItems key (cons v vs)
    later : {v : Value} {vs : Values} → KeyInItems key vs → KeyInItems key (cons v vs)

  pub data KeyInMap (key : String) : List (String × String) → Type 0 where
    entry : {k s : String} {m : List (String × String)} → key ≡ k → KeyInMap key ((k, s) ∷ m)
    next_entry :
        {kv : String × String} {m : List (String × String)} → KeyInMap key m → KeyInMap key (kv ∷ m)

  pub data KeyInFields (key : String) : Fields → Type 0 where
    named : {k : String} {v : Value} {m : Fields} → key ≡ k → KeyInFields key (field k v m)
    beneath : {k : String} {v : Value} {m : Fields} → KeyIn key v → KeyInFields key (field k v m)
    elsewhere :
        {k : String} {v : Value} {m : Fields} → KeyInFields key m → KeyInFields key (field k v m)

key_in_map :
    {key : String} {m : List (String × String)}
    → KeyInMap key m
    → All (λ kv. (is_sensitive_key kv.0 ≡ false) × IsShort kv.1) m
    → is_sensitive_key key ≡ false
key_in_map (entry e) ((p, q), h) = rw e p
key_in_map (next_entry i) (p, h) = key_in_map i h

mutual
  key_in : {key : String} {v : Value} → KeyIn key v → IsClean v → is_sensitive_key key ≡ false
  key_in (in_items i) h = key_in_items i h
  key_in (in_map i) h = key_in_map i h
  key_in (in_object i) h = key_in_fields i h
  key_in (in_other i) h = key_in i h

  key_in_items :
      {key : String} {vs : Values} → KeyInItems key vs → AreClean vs → is_sensitive_key key ≡ false
  key_in_items (first i) h = key_in i h.0
  key_in_items (later i) h = key_in_items i h.1

  key_in_fields :
      {key : String} {m : Fields} → KeyInFields key m → FieldsClean m → is_sensitive_key key ≡ false
  key_in_fields (named e) h = rw e h.0
  key_in_fields (beneath i) h = key_in i h.1
  key_in_fields (elsewhere i) h = key_in_fields i h.2

pub key_in_clean_fields :
    {key : String} {m : Fields} → KeyInFields key m → FieldsClean m → is_sensitive_key key ≡ false
key_in_clean_fields i h = key_in_fields i h
