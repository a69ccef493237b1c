-- ===== src/Lib.antt =====
-- Barrikade Lens: the discovery contract, the snapshot builder with the
-- declarations of MCP servers, the detector packs, the managed
-- collector with its hub client, the hub's posture and exposures, the probes of live endpoints, and the
-- quoting of a Windows command.
--
-- A scanner fills a `Builder` with observations and finishes a `Snapshot`; snapshots of several
-- profiles are merged; the collector numbers the result, leaves it out where its digest is the last
-- one, and uploads it with retries, renewing its credentials where the hub asks for that.
--
-- The files, and the code that each is about:
--   * Common: tests on numbers, lists, sets of texts, results, integers, and sort.Slice as an
--     insertion sort (Common/Sorting).
--   * Discovery/Types, Values: pkg/discovery/types.go; `Value` is what `map[string]any` holds.
--   * Discovery/Privacy: `IsSensitiveKey` of pkg/discovery/privacy.go, its pattern as a function;
--     Discovery/Urls: its `SanitizeURL`, `URLHost` and `IsCloudMetadataHost`.
--   * Discovery/Validation: pkg/discovery/validation.go, `Validate`; Accepted says independently what
--     a well-formed snapshot is, Attributes what clean attributes are.
--   * Discovery/Merge: pkg/discovery/merge.go, and `Normalize`; Upsert is the loop that its three
--     parts share.
--   * Discovery/Digest: pkg/discovery/digest.go, what is hashed.
--   * Discovery/RuntimeIdentity: pkg/discovery/runtime_identity.go, `Validate`.
--   * Scanner/Builder: internal/scanner/builder/builder.go, with the parts of an id as in
--     pkg/discovery/identity.go.
--   * Scanner/McpConfig: internal/scanner/mcpconfig/parser.go, with Tools and Servers; Scanner/McpTopology:
--     `Add` of internal/scanner/mcptopology/topology.go, by way of the builder.
--   * Detector/Pack: internal/detector/pack.go.
--   * Hubclient: `Upload`, `refresh` and `validateHubURL` of internal/hubclient/client.go. `World`
--     holds the answers of the network and the disk, and what was sent and stored.
--   * Managed/Collector, Managed/Events: `collectAndUpload` and the loop of `Run` of
--     internal/managed/collector.go; Managed/Profiles: `scanProfilesMode`;
--     Managed/Quick: `RunQuick`.
--   * Hub/Posture: the classification of internal/hub/posture.go; Aggregation what it makes of the rows
--     of observations.
--   * Hub/RateLimit: internal/hub/rate_limit.go, with its table.
--   * Hub/Exposure: internal/hub/exposure.go. Rules is what `recomputeOrganizationExposures` finds, from
--     a record of what its queries read; Table what each statement does to the findings; Session what a
--     transaction is, with the faults of its statements as a list; Jobs `runOne` in one; Context
--     `validateEntityContext`.
--   * Probe: internal/probe/probe.go, Targets with `Handshake` and `clientFor`, Applying with `Apply`; and
--     Mcp with internal/probe/mcp.go. `McpNetwork` holds the answers of a server and what was sent; the
--     loop over the pages recurses on the pages left, of which the code allows 4.
--   * Service/Elevation: internal/service/elevation_args.go, and the script of elevation_windows.go,
--     against readers that follow the documented rules of CommandLineToArgvW and PowerShell.
--   * Examples: tests, and instances of the theorems.
--
-- A Go method that changes its receiver returns the new value; an error is a value of `Result`, its
-- text reduced to a constructor. Loops recurse on their lists; the two that count, the five attempts
-- of an upload and the pages of a probe, recurse on what is left, so no fuel is needed. Counters
-- are unbounded, but for the sequence number, which wraps at 2 ^ 64. Maps are association lists, read
-- in the order of the list; sort.Slice, which is not stable, agrees with the model where ids are
-- distinct.
--
-- Parameters, since they are libraries: time.Parse (`is_timestamp`), url.Parse (`parse_url`), the
-- hash of a snapshot's JSON (`fingerprint`), of a pack's (`hash_pack`) and of the parts of an id
-- (`stable`), strings.ToLower (`to_lower`), strings.EqualFold (`equal_fold`), strconv.Itoa (`itoa`),
-- net.ParseIP (`parse_ip`), the host of url.Parse (`url_hostname`), utf16.Encode and the encoder of
-- base64; for the probes, the records `Outside` and `Decoders` hold the resolver, the parsers and
-- json.Unmarshal, and `UrlLibrary` holds what is asked of net/url and net. The tables of the
-- database are lists of rows with the primary key as the code's conflict clauses name it; a
-- statement that fails changes nothing, nor does a Commit that fails.
--
-- Not modelled: the scanners' readings of files and processes, the hub's handlers and SQL, the cloud
-- adapters, the Kubernetes controller, and the user interfaces. They are input and output around
-- libraries and services.
pub mod Common
pub mod Detector
pub mod Discovery
pub mod Examples
pub mod Hub
pub mod Hubclient
pub mod Managed
pub mod Probe
pub mod Scanner
pub mod Service
