-- ===== src/Probe/Targets/Asked.antt =====
-- Which targets and addresses internal/probe/probe.go asks.
use barrikade_lens.Common.{
  Bool, true, false, ◌||◌, not, String, List, [], ◌∷◌, Option, some, ◌≡◌, ap, ◌∙◌, arith, All,
  subst, some-inj, none-ne-some, ok, fail_if, fail_if-ok, >>-eq-ok, >>=-eq-ok, ok-inj, err-ne-ok,
  Result-cases, Bool-cases, Option-cases, inl, inr,
}
use barrikade_lens.Discovery.Urls.{is_cloud_metadata_host}
use barrikade_lens.Discovery.Privacy.{trim_space}
use barrikade_lens.Probe.{
  ProbeConfig, Target, ResolvedAddress, parameterized, metadata_target, not_allowlisted, allowed,
}
use barrikade_lens.Probe.Targets.{
  Outside, Answer, is_http, read_target, has_parameters, permitted, some_address, client_for,
  parsed, check_target, handshake,
}

module _ (outside : Outside) where
  -- An address that may be dialled.
  abbrev pub MayDial : ResolvedAddress → Type 0
  MayDial address =
      (is_cloud_metadata_host outside.urls address.printed ≡ false)
      × (address.is_link_local_unicast ≡ false)
      × (address.is_unspecified ≡ false)

  permitted-MayDial : (addresses : List ResolvedAddress) → All MayDial (permitted outside addresses)
  unfolding permitted
  permitted-MayDial [] = tt
  permitted-MayDial (address ∷ rest) =
      elim (Bool-cases (
        is_cloud_metadata_host outside.urls address.printed
        || address.is_link_local_unicast
        || address.is_unspecified)) [
          | inl e ↦ rw e (permitted-MayDial rest)
          | inr e ↦ rw e (ground (arith, e), permitted-MayDial rest)
        ]

  -- What a checked target is.
  pub record Checked (raw : String) (config : ProbeConfig) (target : Target)
      (addresses : List ResolvedAddress) : Type 0 where
    pub read : read_target outside.urls (trim_space raw) ≡ some target
    pub http : is_http target ≡ true
    pub plain : has_parameters target ≡ false
    pub no_metadata :
        is_cloud_metadata_host outside.urls (outside.urls.to_lower target.hostname) ≡ false
    pub listed :
        allowed outside.urls.to_lower (outside.urls.to_lower target.hostname) config.allowed_hosts
        ≡ true
    pub dialled : All MayDial addresses

  some_address-MayDial :
      (l : List ResolvedAddress) {addresses : List ResolvedAddress}
      → some_address outside l ≡ ok addresses
      → All MayDial l
      → All MayDial addresses
  unfolding some_address
  some_address-MayDial [] h m = absurd (err-ne-ok h)
  some_address-MayDial (address ∷ rest) h m = subst (All MayDial) (ok-inj h) m

  client_for-MayDial :
      (target : Target) {addresses : List ResolvedAddress}
      → client_for outside target ≡ ok addresses
      → All MayDial addresses
  unfolding client_for
  client_for-MayDial target h = elim (Option-cases (outside.lookup_addresses target.hostname)) [
    | inl e ↦ absurd (err-ne-ok (rw (e, client_for) at h))
    | inr (addresses, e) ↦
        some_address-MayDial (permitted outside addresses) (rw (e, client_for) at h)
          (permitted-MayDial addresses)
  ]

  parsed_target :
      (raw : String) (target : Target)
      → parsed outside raw ≡ ok target
      → (read_target outside.urls (trim_space raw) ≡ some target) × (is_http target ≡ true)
  unfolding parsed
  parsed_target raw target h = elim (Option-cases (read_target outside.urls (trim_space raw))) [
    | inl e ↦ absurd (err-ne-ok (rw (e, parsed) at h))
    | inr (found, e) ↦ elim (Bool-cases (is_http found)) [
      | inl p ↦
          let same : found ≡ target = ok-inj (rw (e, p, parsed) at h) in
          (e ∙ ap (λ t. some t) same, subst (λ t. is_http t ≡ true) same p)
      | inr p ↦ absurd (err-ne-ok (rw (e, p, parsed) at h))
    ]
  ]

  check_target-Checked :
      (raw : String) (config : ProbeConfig) (target : Target) (addresses : List ResolvedAddress)
      → check_target outside raw config ≡ ok (target, addresses)
      → Checked raw config target addresses
  unfolding check_target
  check_target-Checked raw config target addresses h =
      let (t, p, h1) = >>=-eq-ok (parsed outside raw) _ h in
      let (a, h2) = >>-eq-ok (fail_if (has_parameters t) parameterized) _ h1 in
      let (b, h3) =
        >>-eq-ok
          (fail_if (is_cloud_metadata_host outside.urls (outside.urls.to_lower t.hostname))
            metadata_target)
          _ h2 in
      let listed =
        allowed outside.urls.to_lower (outside.urls.to_lower t.hostname) config.allowed_hosts in
      let (c, h4) = >>-eq-ok (fail_if (not listed) not_allowlisted) _ h3 in
      let (found, d, h5) = >>=-eq-ok (client_for outside t) _ h4 in
      subst (λ x. Checked raw config x.0 x.1) (ok-inj h5)
        (record {
          read = (parsed_target raw t p).0;
          http = (parsed_target raw t p).1;
          plain = fail_if-ok _ _ a;
          no_metadata = fail_if-ok _ _ b;
          listed = allow listed (fail_if-ok _ _ c);
          dialled = client_for-MayDial t d;
        })
    where
      allow : (b : Bool) → not b ≡ false → b ≡ true
      allow b e = ground (arith, e)

  -- If Handshake sends a request, its target is what the text without the spaces around it is read
  -- as: an HTTP URL without user, query or fragment, its host on the list and no metadata service; and
  -- none of the addresses dialled is link-local, unspecified or of a metadata service.
  pub handshake-Checked :
      (ask : Target → List ResolvedAddress → Option Answer) (raw : String) (config : ProbeConfig)
      (target : Target) (addresses : List ResolvedAddress)
      → (handshake outside ask raw config).1 ≡ some (target, addresses)
      → Checked raw config target addresses
  unfolding handshake
  handshake-Checked ask raw config target addresses h =
      elim (Result-cases (check_target outside raw config)) [
        | inr (e, q) ↦ absurd (none-ne-some (rw (q, handshake) at h))
        | inl ((t, found), q) ↦
            let same : (t, found) ≡ (target, addresses) = some-inj (rw (q, handshake) at h) in
            subst (λ x. Checked raw config x.0 x.1) same (check_target-Checked raw config t found q)
      ]
