-- ===== src/Server.antt =====
-- server/services: the request handlers. `Client` is the effect of a handler (calls of the
-- cluster's client, exceptions, the state of a service), and each service is a module below.
pub mod Client
pub mod SpaceCaps
pub mod SpaceFilter
pub mod Decoders
pub mod Policies
pub mod Safe
pub mod Yaml
pub mod Kvdbs
pub mod Filters
pub mod LogTest
pub mod Integrations
pub mod Correlations
mod Tests
pub mod WazuhRules
pub mod Clusters
pub mod Forward
pub mod Detectors
pub mod LogTypes
pub mod Notifications
pub mod OpenSearch
pub mod Indices
pub mod AlertRequests
pub mod ThreatIntel
pub mod FindingRequests
pub mod FieldMappings
pub mod SigmaRules
pub mod Routes
