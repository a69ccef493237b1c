-- ===== src/Examples.antt =====
-- Tests on concrete inputs, and instances of the theorems.
mod Data
mod DiscoveryTests
mod MergeTests
mod ManagedTests
mod ScannerTests
mod HubTests
mod ExposureTests
mod ServiceTests
mod ProbeTests
mod McpTests
mod LimitTests
