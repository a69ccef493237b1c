-- ===== src/Detector/Pack/Owners.antt =====
-- The owners of extension ids, and the ports, in a pack that `Validate` accepts
-- (internal/detector/pack.go).
use barrikade_lens.Common.{
  true, ◌||◌, not, String, List, [], ◌∷◌, Option, none, some, ◌==◌, ◌≡◌, arith, eq_iff, contains,
  ok, fail_if, All, All-map_of, >>-eq-ok, >>=-eq-ok, ok-inj, fail_if-ok, ap, sym, subst, Bool-cases,
  inl, inr, ◌∙◌,
}
use barrikade_lens.Detector.Pack.{
  Pack, RuntimeSignature, Port, is_server, validate_servers, claim, extension_id, check_owner,
  owner_of, validate_configs, validate_runtimes, validate_pack, runtime_category,
}
use barrikade_lens.Detector.Pack.Ids.{validate_pack-parts}

from_some : {a b : String} → some a ≡ some b → a ≡ b
from_some {a} h = ap (λ o. elim o [ none ↦ a | some x ↦ x ]) h

module _ (to_lower : String → String) (hash_pack : Pack → String) where
  -- Every extension id of the runtime has the runtime as its owner.
  abbrev pub Owned : List (String × String) → RuntimeSignature → Type 0
  Owned owners r =
      All (λ raw. owner_of (extension_id to_lower hash_pack raw) owners ≡ some r.id) r.extension_ids

  first_owner :
      (k id : String) (owners : List (String × String)) → owner_of k ((k, id) ∷ owners) ≡ some id
  unfolding owner_of
  first_owner k id owners = ground (arith, eq_iff k k)

  owner_is :
      (extension id : String) (o : Option String) (a : String)
      → check_owner extension id o ≡ ok tt
      → o ≡ some a
      → a ≡ id
  unfolding check_owner
  owner_is extension id none a c h = ground (arith, h)
  owner_is extension id (some b) a c h =
      sym (from_some h) ∙ (eq_iff b id).0 (ground (arith, fail_if-ok _ _ c))

  check_owner_kept :
      (extension id : String) (owners : List (String × String)) (k a : String)
      → check_owner extension id (owner_of extension owners) ≡ ok tt
      → owner_of k owners ≡ some a
      → owner_of k ((extension, id) ∷ owners) ≡ some a
  unfolding owner_of check_owner
  check_owner_kept extension id owners k a c h = elim (Bool-cases (k == extension)) [
    | inl e ↦ rw e (
        ap some (
          sym (
            owner_is extension id _ a c
              (ap (λ j. owner_of j owners) (sym ((eq_iff k extension).0 e)) ∙ h))))
    | inr e ↦ rw e h
  ]

  claim_kept :
      (id : String) (owners : List (String × String)) (l : List String)
      (owners' : List (String × String)) (k a : String)
      → claim to_lower hash_pack id owners l ≡ ok owners'
      → owner_of k owners ≡ some a
      → owner_of k owners' ≡ some a
  unfolding claim
  claim_kept id owners [] owners' k a h o = subst (λ m. owner_of k m ≡ some a) (ok-inj h) o
  claim_kept id owners (raw ∷ rest) owners' k a h o =
      let (_, h1) = >>-eq-ok (fail_if (extension_id to_lower hash_pack raw == "") _) _ h in
      let (c, h2) =
        >>-eq-ok
          (check_owner (extension_id to_lower hash_pack raw) id
            (owner_of (extension_id to_lower hash_pack raw) owners))
          _ h1 in
      claim_kept id ((extension_id to_lower hash_pack raw, id) ∷ owners) rest owners' k a h2
        (check_owner_kept (extension_id to_lower hash_pack raw) id owners k a c o)

  claim_owned :
      (id : String) (owners : List (String × String)) (l : List String)
      (owners' : List (String × String))
      → claim to_lower hash_pack id owners l ≡ ok owners'
      → All (λ raw. owner_of (extension_id to_lower hash_pack raw) owners' ≡ some id) l
  unfolding claim
  claim_owned id owners [] owners' h = tt
  claim_owned id owners (raw ∷ rest) owners' h =
      let (_, h1) = >>-eq-ok (fail_if (extension_id to_lower hash_pack raw == "") _) _ h in
      let (c, h2) =
        >>-eq-ok
          (check_owner (extension_id to_lower hash_pack raw) id
            (owner_of (extension_id to_lower hash_pack raw) owners))
          _ h1 in
      (
        claim_kept id ((extension_id to_lower hash_pack raw, id) ∷ owners) rest owners'
            (extension_id to_lower hash_pack raw) id h2
            (first_owner (extension_id to_lower hash_pack raw) id owners),
        claim_owned id ((extension_id to_lower hash_pack raw, id) ∷ owners) rest owners' h2,
      )

  servers_valid :
      (id : String) (l : List Port)
      → validate_servers id l ≡ ok tt
      → All (λ s. is_server s ≡ true) l
  unfolding validate_servers
  servers_valid id [] h = tt
  servers_valid id (s ∷ l) h =
      let (a, b) = >>-eq-ok (fail_if (not (is_server s)) _) _ h in
      (ground (arith, fail_if-ok _ _ a), servers_valid id l b)

  runtimes_kept :
      (seen : List String) (owners : List (String × String)) (rs : List RuntimeSignature)
      (all_ids : List String) (all_owners : List (String × String)) (k a : String)
      → validate_runtimes to_lower hash_pack seen owners rs ≡ ok (all_ids, all_owners)
      → owner_of k owners ≡ some a
      → owner_of k all_owners ≡ some a
  unfolding validate_runtimes
  runtimes_kept seen owners [] all_ids all_owners k a h o =
      subst (λ m. owner_of k m ≡ some a) (ap (λ p. p.1) (ok-inj h)) o
  runtimes_kept seen owners (r ∷ rs) all_ids all_owners k a h o =
      let (_, h1) =
        >>-eq-ok (fail_if (r.id == "" || r.name == "" || not (runtime_category r.category)) _) _
          h in
      let (_, h2) = >>-eq-ok (fail_if (contains seen r.id) _) _ h1 in
      let (o', c, h3) = >>=-eq-ok (claim to_lower hash_pack r.id owners r.extension_ids) _ h2 in
      let (_, h4) = >>-eq-ok (validate_configs r.id r.configs) _ h3 in
      let (_, h5) = >>-eq-ok (validate_servers r.id r.model_servers) _ h4 in
      runtimes_kept (r.id ∷ seen) o' rs all_ids all_owners k a h5
        (claim_kept r.id owners r.extension_ids o' k a c o)

  runtimes-Owned :
      (seen : List String) (owners : List (String × String)) (rs : List RuntimeSignature)
      (all_ids : List String) (all_owners : List (String × String))
      → validate_runtimes to_lower hash_pack seen owners rs ≡ ok (all_ids, all_owners)
      → All (λ r. Owned all_owners r × All (λ s. is_server s ≡ true) r.model_servers) rs
  unfolding validate_runtimes
  runtimes-Owned seen owners [] all_ids all_owners h = tt
  runtimes-Owned seen owners (r ∷ rs) all_ids all_owners h =
      let (_, h1) =
        >>-eq-ok (fail_if (r.id == "" || r.name == "" || not (runtime_category r.category)) _) _
          h in
      let (_, h2) = >>-eq-ok (fail_if (contains seen r.id) _) _ h1 in
      let (o', c, h3) = >>=-eq-ok (claim to_lower hash_pack r.id owners r.extension_ids) _ h2 in
      let (_, h4) = >>-eq-ok (validate_configs r.id r.configs) _ h3 in
      let (s, h5) = >>-eq-ok (validate_servers r.id r.model_servers) _ h4 in
      (
        (
          All-map_of _ _ (λ raw q. runtimes_kept (r.id ∷ seen) o' rs all_ids all_owners _ r.id h5 q)
              r.extension_ids (claim_owned r.id owners r.extension_ids o' c),
          servers_valid r.id r.model_servers s,
        ),
        runtimes-Owned (r.id ∷ seen) o' rs all_ids all_owners h5,
      )

  -- In an accepted pack one map gives each extension id, in lower case and trimmed, the one runtime
  -- that lists it; and every model server has a name and a port from 1 to 65535.
  pub validate_pack_owners :
      (p : Pack)
      → validate_pack to_lower hash_pack p ≡ ok tt
      → (owners : List (String × String)) × All
          (λ r. Owned owners r × All (λ s. is_server s ≡ true) r.model_servers)
          p.runtimes
  validate_pack_owners p h =
      let (seen, owners, used, b, _, _, _, _, _, _, _) =
        validate_pack-parts to_lower hash_pack p h in
      (owners, runtimes-Owned [] [] p.runtimes seen owners b)
