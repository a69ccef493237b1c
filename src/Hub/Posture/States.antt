-- ===== src/Hub/Posture/States.antt =====
-- The state of discovery under a merge (internal/hub/posture.go, pkg/discovery/merge.go).
use barrikade_lens.Common.{
  ℕ, suc, ◌≤◌, Bool, true, false, String, List, [], ◌∷◌, Option, ◌==◌, ◌≡◌, refl, sym, ◌∙◌, arith,
  subst, Distinct, ap, length, if◌then◌else◌,
}
use barrikade_lens.Discovery.Values.{Value, Fields, get, keys}
use barrikade_lens.Discovery.Merge.{merge_maps}
use barrikade_lens.Discovery.Merge.Parts.{after_merge, get-merge_maps}
use barrikade_lens.Hub.Posture.{set, flag, first_state, state_flags, discovery_state}

set-after_merge : (old new : Option Value) → set old ≡ true → set (after_merge old new) ≡ true
unfolding set
set-after_merge old new h = ground arith

-- A flag that is set stays set.
flag-merge_maps :
    (key : String) (current incoming : Fields)
    → Distinct (keys incoming)
    → flag key current ≡ true
    → flag key (merge_maps current incoming) ≡ true
unfolding flag
flag-merge_maps key current incoming d h =
    ap set (get-merge_maps key current incoming d)
    ∙ set-after_merge (get key current) (get key incoming) h

-- The place of the first flag that is set, counted from the last one; 0 if none is.
abbrev pub strength : List (String × String) → Fields → ℕ
strength [] attrs = 0
strength ((key, state) ∷ rest) attrs =
    let later = strength rest attrs in if flag key attrs then suc (length rest) else later

strength_bound :
    (items : List (String × String)) (attrs : Fields) → strength items attrs ≤ length items
strength_bound [] attrs = ground arith
strength_bound ((key, state) ∷ rest) attrs = ground (arith, strength_bound rest attrs)

strength-merge_maps :
    (items : List (String × String)) (current incoming : Fields)
    → Distinct (keys incoming)
    → strength items current ≤ strength items (merge_maps current incoming)
strength-merge_maps [] current incoming d = ground arith
strength-merge_maps ((key, state) ∷ rest) current incoming d = ground (
  arith,
  strength_bound rest current,
  flag-merge_maps key current incoming d,
  strength-merge_maps rest current incoming d,
)

-- The states, from the weakest.
abbrev pub state_rank : String → ℕ
state_rank s =
    if s == "running"
    then 7
    else if s == "deployed"
    then 6
    else if s == "defined"
    then 5
    else if s == "configured"
    then 4
    else if s == "installed"
    then 3
    else if s == "residual"
    then 2
    else if s == "cached"
    then 1
    else 0

abbrev Ranked : List (String × String) → Type 0
Ranked [] = Unit
Ranked ((key, state) ∷ rest) = (state_rank state ≡ suc (length rest)) × Ranked rest

first_state-rank :
    (items : List (String × String)) (attrs : Fields)
    → Ranked items
    → state_rank (first_state items attrs) ≡ strength items attrs
unfolding first_state
first_state-rank [] attrs r = refl
first_state-rank ((key, state) ∷ rest) attrs (e, r) =
    picked (flag key attrs) state _ _ _ e (first_state-rank rest attrs r)
  where
    picked :
        (b : Bool) (s t : String) (m n : ℕ)
        → state_rank s ≡ m
        → state_rank t ≡ n
        → state_rank (if b then s else t) ≡ (if b then m else n)
    picked true s t m n h k = h
    picked false s t m n h k = k

-- Merging attributes never weakens the state of discovery, if the keys that come in are distinct.
pub discovery_state-merge_maps :
    (current incoming : Fields)
    → Distinct (keys incoming)
    → state_rank (discovery_state current)
      ≤ state_rank (discovery_state (merge_maps current incoming))
unfolding discovery_state
discovery_state-merge_maps current incoming d =
    subst (λ n. n ≤ state_rank (first_state state_flags (merge_maps current incoming)))
      (sym (first_state-rank state_flags current ranked))
      (subst (λ n. strength state_flags current ≤ n)
        (sym (first_state-rank state_flags (merge_maps current incoming) ranked))
        (strength-merge_maps state_flags current incoming d))
  where
    ranked : Ranked state_flags
    ranked = (refl, (refl, (refl, (refl, (refl, (refl, (refl, tt)))))))
