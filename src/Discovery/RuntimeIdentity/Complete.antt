-- ===== src/Discovery/RuntimeIdentity/Complete.antt =====
-- Which observations `Validate` accepts (pkg/discovery/runtime_identity.go).
use Prim.Native.String.{len}
use barrikade_lens.Common.{
  ◌≤◌, Bool, true, false, ◌&&◌, ◌||◌, not, String, List, [], ◌∷◌, map, ◌==◌, ◌≡◌, ◌≢◌, ◌↔◌, refl,
  ap, arith, eq_iff, contains, ltb, eqb, length, ok, fail_if, >>-eq-ok, >>=-eq-ok, ok-inj,
  fail_if-ok, All,
}
use barrikade_lens.Discovery.Privacy.{trim_space}
use barrikade_lens.Discovery.RuntimeIdentity.{
  ProcessAncestor, RuntimeIdentityFact, RuntimeIdentityObservation,
  runtime_identity_observation_version, is_positive, is_nonnegative, valid_sha256,
  validate_ancestry, collect_facts, require_facts, validate_digests, validate_identity,
}

abbrev pub fact_of : RuntimeIdentityFact → String
fact_of e = e.fact

one : (b : Bool) → not b ≡ false → b ≡ true
one b h = ground (arith, h)

two : (a b : Bool) → (not a || not b) ≡ false → (a ≡ true) × (b ≡ true)
two a b h = ground (arith, h)

three : (a b c : Bool) → (not a || not b || not c) ≡ false → (a ≡ true) × (b ≡ true) × (c ≡ true)
three a b c h = ground (arith, h)

version : (s t : String) → not (s == t) ≡ false → s ≡ t
version s t h = ground (arith, h, eq_iff s t)

identity :
    (s t u p : String)
    → (s == "" || t == "" || u == "" || not (p == "darwin")) ≡ false
    → (s ≢ "") × (t ≢ "") × (u ≢ "") × (p ≡ "darwin")
identity s t u p h = ground (arith, h, eq_iff s "", eq_iff t "", eq_iff u "", eq_iff p "darwin")

short :
    (s : String)
    → (trim_space s == "" || ltb 128 (len s)) ≡ false
    → (trim_space s ≢ "") × (len s ≤ 128)
short s h = ground (arith, h, eq_iff (trim_space s) "")

some_or_valid : (a b : Bool) → (not a && not b) ≡ false → (a || b) ≡ true
some_or_valid a b h = ground (arith, h)

sized {ℓ} :
    {A : Type ℓ} (l : List A)
    → (eqb (length l) 0 || ltb 64 (length l)) ≡ false
    → (l ≢ []) × (length l ≤ 64)
sized [] h = absurd (ground (arith, h))
sized (x ∷ l) h = (λ e. ground (arith, e), ground (arith, h))

module _ (is_timestamp : String → Bool) where
  pub record AncestorValid (a : ProcessAncestor) : Type 0 where
    pub running : is_positive a.pid ≡ true
    pub digest : valid_sha256 a.executable_path_digest ≡ true
    pub timed : is_timestamp a.start_time ≡ true

  pub record FactValid (e : RuntimeIdentityFact) : Type 0 where
    pub named : e.fact ≢ ""
    pub method_given : e.method ≢ ""
    pub timed : is_timestamp e.observed_at ≡ true

  -- What an observation must hold.
  pub record IsComplete (o : RuntimeIdentityObservation) : Type 0 where
    pub version_known : o.schema_version ≡ runtime_identity_observation_version
    pub observation_given : o.observation_id ≢ ""
    pub target_given : o.target_id ≢ ""
    pub product_given : o.product_id ≢ ""
    pub darwin : o.platform ≡ "darwin"
    pub running : is_positive o.pid ≡ true
    pub parent : is_nonnegative o.parent_pid ≡ true
    pub user : is_nonnegative o.effective_uid ≡ true
    pub version_given : trim_space o.version ≢ ""
    pub version_short : len o.version ≤ 128
    pub observed : is_timestamp o.observed_at ≡ true
    pub started : is_timestamp o.start_time ≡ true
    pub path_digest : valid_sha256 o.executable_path_digest ≡ true
    pub executable_digest : valid_sha256 o.executable_sha256 ≡ true
    pub signing_digest : valid_sha256 o.macos_signing.signing_metadata_evidence_digest ≡ true
    pub requirement_digest :
        (o.macos_signing.designated_requirement_digest == ""
          || valid_sha256 o.macos_signing.designated_requirement_digest)
        ≡ true
    pub has_ancestor : o.ancestry ≢ []
    pub bounded : length o.ancestry ≤ 64
    pub ancestors : All AncestorValid o.ancestry
    pub facts : All FactValid o.evidence
    pub process : contains (map fact_of o.evidence) "process" ≡ true
    pub lineage : contains (map fact_of o.evidence) "ancestry" ≡ true
    pub executable : contains (map fact_of o.evidence) "executable" ≡ true
    pub signing : contains (map fact_of o.evidence) "macos_signing" ≡ true

  ancestry_accepted :
      (l : List ProcessAncestor) → validate_ancestry is_timestamp l ≡ ok tt → All AncestorValid l
  unfolding validate_ancestry
  ancestry_accepted [] h = tt
  ancestry_accepted (a ∷ l) h =
      let (b, h1) =
        >>-eq-ok
          (fail_if (not (is_positive a.pid) || not (valid_sha256 a.executable_path_digest)) _) _
          h in
      let (c, h2) = >>-eq-ok (fail_if (not (is_timestamp a.start_time)) _) _ h1 in
      (ground (arith, fail_if-ok _ _ b, fail_if-ok _ _ c), ancestry_accepted l h2)

  ancestry_complete :
      (l : List ProcessAncestor) → All AncestorValid l → validate_ancestry is_timestamp l ≡ ok tt
  unfolding validate_ancestry
  ancestry_complete [] v = refl
  ancestry_complete (a ∷ l) (p, v) = rw (p.running, p.digest, p.timed) (ancestry_complete l v)

  facts_complete :
      (seen : List String) (l : List RuntimeIdentityFact)
      → All FactValid l
      → (facts : List String) × (collect_facts is_timestamp seen l ≡ ok facts)
  unfolding collect_facts
  facts_complete seen [] v = (seen, refl)
  facts_complete seen (e ∷ l) (p, v) =
      let (facts, h) = facts_complete (e.fact ∷ seen) l v in
      (facts, rw (given e.fact p.named, given e.method p.method_given, p.timed) h)
    where
      given : (s : String) → s ≢ "" → (s == "") ≡ false
      given s h = ground (arith, eq_iff s "", h)

  facts_accepted :
      (seen : List String) (l : List RuntimeIdentityFact) (facts : List String)
      → collect_facts is_timestamp seen l ≡ ok facts
      → All FactValid l
  unfolding collect_facts
  facts_accepted seen [] facts h = tt
  facts_accepted seen (e ∷ l) facts h =
      let (b, h1) = >>-eq-ok (fail_if (e.fact == "" || e.method == "") _) _ h in
      let (c, h2) = >>-eq-ok (fail_if (not (is_timestamp e.observed_at)) _) _ h1 in
      (
        ground (arith, fail_if-ok _ _ b, fail_if-ok _ _ c, eq_iff e.fact "", eq_iff e.method ""),
        facts_accepted (e.fact ∷ seen) l facts h2,
      )

  facts-contains :
      (seen : List String) (l : List RuntimeIdentityFact) (facts : List String) (k : String)
      → collect_facts is_timestamp seen l ≡ ok facts
      → contains facts k ≡ (contains seen k || contains (map fact_of l) k)
  unfolding collect_facts
  facts-contains seen [] facts k h = ground (arith, ap (λ s. contains s k) (ok-inj h))
  facts-contains seen (e ∷ l) facts k h =
      let (b, h1) = >>-eq-ok (fail_if (e.fact == "" || e.method == "") _) _ h in
      let (c, h2) = >>-eq-ok (fail_if (not (is_timestamp e.observed_at)) _) _ h1 in
      ground (arith, facts-contains (e.fact ∷ seen) l facts k h2)

  present :
      (facts : List String) (l : List RuntimeIdentityFact) (k : String)
      → collect_facts is_timestamp [] l ≡ ok facts
      → (not (contains facts k)) ≡ false
      → contains (map fact_of l) k ≡ true
  present facts l k f h = ground (arith, facts-contains [] l facts k f, h)

  identity_accepted :
      (o : RuntimeIdentityObservation) → validate_identity is_timestamp o ≡ ok tt → IsComplete o
  unfolding validate_identity validate_digests require_facts
  identity_accepted o h =
      let (a1, h1) =
        >>-eq-ok (fail_if (not (o.schema_version == runtime_identity_observation_version)) _) _ h in
      let (a2, h2) =
        >>-eq-ok
          (fail_if
            (o.observation_id == ""
              || o.target_id == ""
              || o.product_id == ""
              || not (o.platform == "darwin"))
            _)
          _ h1 in
      let (a3, h3) =
        >>-eq-ok
          (fail_if
            (not (is_positive o.pid)
              || not (is_nonnegative o.parent_pid)
              || not (is_nonnegative o.effective_uid))
            _)
          _ h2 in
      let (a4, h4) =
        >>-eq-ok (fail_if (trim_space o.version == "" || ltb 128 (len o.version)) _) _ h3 in
      let (a5, h5) =
        >>-eq-ok (fail_if (not (is_timestamp o.observed_at) || not (is_timestamp o.start_time)) _) _
          h4 in
      let (d, h6) = >>-eq-ok (validate_digests is_timestamp o) _ h5 in
      let (d1, k1) = >>-eq-ok (fail_if (not (valid_sha256 o.executable_path_digest)) _) _ d in
      let (d2, k2) = >>-eq-ok (fail_if (not (valid_sha256 o.executable_sha256)) _) _ k1 in
      let (d3, d4) =
        >>-eq-ok (fail_if (not (valid_sha256 o.macos_signing.signing_metadata_evidence_digest)) _) _
          k2 in
      let (a6, h7) =
        >>-eq-ok (fail_if (eqb (length o.ancestry) 0 || ltb 64 (length o.ancestry)) _) _ h6 in
      let (a7, h8) = >>-eq-ok (validate_ancestry is_timestamp o.ancestry) _ h7 in
      let (facts, f, h9) = >>=-eq-ok (collect_facts is_timestamp [] o.evidence) _ h8 in
      let (r1, m1) = >>-eq-ok (fail_if (not (contains facts "process")) _) _ h9 in
      let (r2, m2) = >>-eq-ok (fail_if (not (contains facts "ancestry")) _) _ m1 in
      let (r3, m3) = >>-eq-ok (fail_if (not (contains facts "executable")) _) _ m2 in
      let (r4, m4) = >>-eq-ok (fail_if (not (contains facts "macos_signing")) _) _ m3 in
      let g1 = fail_if-ok _ _ a1 in
      let g2 = fail_if-ok _ _ a2 in
      let g3 = fail_if-ok _ _ a3 in
      let g4 = fail_if-ok _ _ a4 in
      let g5 = fail_if-ok _ _ a5 in
      let g6 = fail_if-ok _ _ a6 in
      record {
        version_known = version o.schema_version runtime_identity_observation_version g1;
        observation_given = (identity o.observation_id o.target_id o.product_id o.platform g2).0;
        target_given = (identity o.observation_id o.target_id o.product_id o.platform g2).1;
        product_given = (identity o.observation_id o.target_id o.product_id o.platform g2).2;
        darwin = (identity o.observation_id o.target_id o.product_id o.platform g2).3;
        running = (three _ _ _ g3).0;
        parent = (three _ _ _ g3).1;
        user = (three _ _ _ g3).2;
        version_given = (short o.version g4).0;
        version_short = (short o.version g4).1;
        observed = (two _ _ g5).0;
        started = (two _ _ g5).1;
        path_digest = one _ (fail_if-ok _ _ d1);
        executable_digest = one _ (fail_if-ok _ _ d2);
        signing_digest = one _ (fail_if-ok _ _ d3);
        requirement_digest = some_or_valid _ _ (fail_if-ok _ _ d4);
        has_ancestor = (sized o.ancestry g6).0;
        bounded = (sized o.ancestry g6).1;
        ancestors = ancestry_accepted o.ancestry a7;
        facts = facts_accepted [] o.evidence facts f;
        process = present facts o.evidence "process" f (fail_if-ok _ _ r1);
        lineage = present facts o.evidence "ancestry" f (fail_if-ok _ _ r2);
        executable = present facts o.evidence "executable" f (fail_if-ok _ _ r3);
        signing = present facts o.evidence "macos_signing" f (fail_if-ok _ _ r4);
      }

  identity_complete :
      (o : RuntimeIdentityObservation) → IsComplete o → validate_identity is_timestamp o ≡ ok tt
  unfolding validate_identity validate_digests require_facts
  identity_complete o v =
      let (facts, e) = facts_complete [] o.evidence v.facts in
      ground (
        arith,
        eq_iff o.schema_version runtime_identity_observation_version,
        eq_iff o.observation_id "",
        eq_iff o.target_id "",
        eq_iff o.product_id "",
        eq_iff o.platform "darwin",
        eq_iff (trim_space o.version) "",
        ancestry_complete o.ancestry v.ancestors,
        e,
        facts-contains [] o.evidence facts "process" e,
        facts-contains [] o.evidence facts "ancestry" e,
        facts-contains [] o.evidence facts "executable" e,
        facts-contains [] o.evidence facts "macos_signing" e,
      )

  -- Validate accepts an observation exactly when it is complete: its version is known, its ids are
  -- given, its platform is darwin and its process ids are in range; its version is short, its times
  -- and digests are well formed; it has 1 to 64 valid ancestors; and its evidence is well formed and
  -- names the process, its ancestry, the executable and the signing.
  pub validate_identity-ok_iff :
      (o : RuntimeIdentityObservation) → (validate_identity is_timestamp o ≡ ok tt) ↔ IsComplete o
  validate_identity-ok_iff o = (identity_accepted o, identity_complete o)
