-- ===== src/Detector/Pack/Ids.antt =====
-- The ids in a pack that `Validate` accepts (internal/detector/pack.go).
use barrikade_lens.Common.{
  ◌||◌, not, String, List, [], ◌∷◌, map, ◌==◌, ◌≡◌, arith, contains, Distinct, ok, fail_if,
  >>-eq-ok, >>=-eq-ok, ok-inj, fail_if-ok, ap, sym, subst, ◌∙◌,
}
use barrikade_lens.Detector.Pack.{
  Pack, RuntimeSignature, PackChecked, visit, framework_id, cache_id, root_id, listener_id,
  framework_given, framework_languages, cache_given, root_given, listener_given, no_check,
  validate_servers, claim, validate_configs, validate_runtimes, validate_extension_roots,
  validate_pack, runtime_category,
}

abbrev pub runtime_id : RuntimeSignature → String
runtime_id r = r.id

-- The ids of a list in front of those before, the last one first.
abbrev pub with_ids : List String → List String → List String
with_ids [] seen = seen
with_ids (k ∷ ks) seen = with_ids ks (k ∷ seen)

-- All ids that the pack gives to detectors.
abbrev pub detector_ids : Pack → List String
detector_ids p = with_ids (map listener_id p.listeners) (
    with_ids (map root_id p.skill_roots) (
      with_ids (map cache_id p.model_caches)
        (with_ids (map framework_id p.frameworks) (with_ids (map runtime_id p.runtimes) []))))

pub visit-with_ids :
    {A : Type 0} (key : A → String) (before after : A → PackChecked) (seen : List String)
    (xs : List A) (all_ids : List String)
    → visit key before after seen xs ≡ ok all_ids
    → Distinct seen
    → (all_ids ≡ with_ids (map key xs) seen) × Distinct all_ids
unfolding visit
visit-with_ids key before after seen [] all_ids h d = ground (arith, h, d)
visit-with_ids key before after seen (x ∷ xs) all_ids h d =
    let (a, h1) = >>-eq-ok (before x) _ h in
    let (b, h2) = >>-eq-ok (fail_if (contains seen (key x)) _) _ h1 in
    let (c, h3) = >>-eq-ok (after x) _ h2 in
    visit-with_ids key before after (key x ∷ seen) xs all_ids h3 (fail_if-ok _ _ b, d)

module _ (to_lower : String → String) (hash_pack : Pack → String) where
  runtimes-with_ids :
      (seen : List String) (owners : List (String × String)) (rs : List RuntimeSignature)
      (all_ids : List String) (all_owners : List (String × String))
      → validate_runtimes to_lower hash_pack seen owners rs ≡ ok (all_ids, all_owners)
      → Distinct seen
      → (all_ids ≡ with_ids (map runtime_id rs) seen) × Distinct all_ids
  unfolding validate_runtimes
  runtimes-with_ids seen owners [] all_ids all_owners h d =
      let e = ap (λ p. p.0) (ok-inj h) in (sym e, subst Distinct e d)
  runtimes-with_ids seen owners (r ∷ rs) all_ids all_owners h d =
      let (a, h1) =
        >>-eq-ok (fail_if (r.id == "" || r.name == "" || not (runtime_category r.category)) _) _
          h in
      let (b, h2) = >>-eq-ok (fail_if (contains seen r.id) _) _ h1 in
      let (o, c, h3) = >>=-eq-ok (claim to_lower hash_pack r.id owners r.extension_ids) _ h2 in
      let (e, h4) = >>-eq-ok (validate_configs r.id r.configs) _ h3 in
      let (f, h5) = >>-eq-ok (validate_servers r.id r.model_servers) _ h4 in
      runtimes-with_ids (r.id ∷ seen) o rs all_ids all_owners h5 (fail_if-ok _ _ b, d)

  -- The parts of an accepted pack.
  pub validate_pack-parts :
      (p : Pack)
      → validate_pack to_lower hash_pack p ≡ ok tt
      → (seen : List String) × (owners : List (String × String)) × (used : List String)
        × (validate_runtimes to_lower hash_pack [] [] p.runtimes ≡ ok (seen, owners))
        × (seen2 : List String) × (visit framework_id framework_given framework_languages seen
              p.frameworks
            ≡ ok seen2)
        × (seen3 : List String) × (visit cache_id cache_given no_check seen2 p.model_caches
            ≡ ok seen3)
        × (seen4 : List String) × (visit root_id root_given no_check seen3 p.skill_roots ≡ ok seen4)
        × (visit listener_id listener_given no_check seen4 p.listeners ≡ ok used)
  unfolding validate_pack
  validate_pack-parts p h =
      let (a, h1) =
        >>-eq-ok (fail_if (not (p.schema_version == "2") || p.id == "" || p.version == "") _) _ h in
      let ((seen, owners), b, h2) =
        >>=-eq-ok (validate_runtimes to_lower hash_pack [] [] p.runtimes) _ h1 in
      let (seen2, c, h3) =
        >>=-eq-ok (visit framework_id framework_given framework_languages seen p.frameworks) _ h2 in
      let (seen3, d, h4) =
        >>=-eq-ok (visit cache_id cache_given no_check seen2 p.model_caches) _ h3 in
      let (seen4, e, h5) = >>=-eq-ok (visit root_id root_given no_check seen3 p.skill_roots) _ h4 in
      let (f, h6) = >>-eq-ok (validate_extension_roots p.extension_roots) _ h5 in
      let (used, g, h7) =
        >>=-eq-ok (visit listener_id listener_given no_check seen4 p.listeners) _ h6 in
      (seen, owners, used, b, seen2, c, seen3, d, seen4, e, g)

  -- In an accepted pack no two detectors share an id, whatever their kinds.
  pub validate_pack-Distinct :
      (p : Pack) → validate_pack to_lower hash_pack p ≡ ok tt → Distinct (detector_ids p)
  validate_pack-Distinct p h =
      let (seen, owners, used, b, seen2, c, seen3, d, seen4, e, g) = validate_pack-parts p h in
      let (p1, d1) = runtimes-with_ids [] [] p.runtimes seen owners b tt in
      let (p2, d2) =
        visit-with_ids framework_id framework_given framework_languages seen p.frameworks seen2 c
          d1 in
      let (p3, d3) = visit-with_ids cache_id cache_given no_check seen2 p.model_caches seen3 d d2 in
      let (p4, d4) = visit-with_ids root_id root_given no_check seen3 p.skill_roots seen4 e d3 in
      let (p5, d5) =
        visit-with_ids listener_id listener_given no_check seen4 p.listeners used g d4 in
      subst Distinct
        (p5
          ∙ ap (with_ids (map listener_id p.listeners)) (
              p4
              ∙ ap (with_ids (map root_id p.skill_roots)) (
                  p3
                  ∙ ap (with_ids (map cache_id p.model_caches))
                      (p2 ∙ ap (with_ids (map framework_id p.frameworks)) p1))))
        d5
