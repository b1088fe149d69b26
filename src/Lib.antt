-- ===== src/Lib.antt =====
-- The server side of the security analytics plugin, and the parts of its browser side that keep
-- state: a model of what they compute, with proofs.
--
-- A request of the browser reaches a handler of server/services. A handler calls the cluster's
-- client, composes the answers, and replies with status 200 and `ok: true` or `ok: false`. The
-- services of public/services make these requests, and the stores of public/store call the services
-- and keep what the pages show. Spaces
-- (draft, test, custom, standard) say which documents a search sees and what a user may do.
--
-- Json and Json.Text are the JavaScript values that the handlers read and build: parsed JSON and
-- undefined, with truthiness, `??`, `||`, optional chaining, spreads, Map's equality, String(v),
-- length and trim. Numbers are natural. Objects have own properties alone, in the order of their
-- insertion. Json.Members is the lookup of the method that a call names, among an object's members.
--
-- Server.Client is the effect of a handler: an action takes the calls made so far and a service's
-- cached capabilities, and returns or throws. The client (`Host.client`) is any function of the
-- calls made before and the call made now; it and the engine's TypeError are a parameter. get_client
-- is server/services/MDSEnabledClientService.ts, `handle` the try and catch that frame each handler.
-- A request's params and query are objects, as the router makes them. Server.Safe derives that an
-- action throws nothing but errors, and calls only actions that the client has, from how it is built.
--   Server.SpaceCaps     getSpaceFieldCaps of server/services/DecodersService.ts, PoliciesService.ts
--   Server.SpaceFilter   buildSpaceFilter and applySpaceFilter of the same two classes
--   Server.Decoders      server/services/DecodersService.ts
--   Server.Policies      server/services/PoliciesService.ts
--   Server.Integrations  server/services/IntegrationService.ts
--   Server.WazuhRules    server/services/WazuhRuleService.ts
--   Server.Kvdbs         server/services/KVDBsService.ts
--   Server.Filters       server/services/FiltersService.ts
--   Server.LogTest       server/services/LogTestService.ts
--   Server.Correlations  server/services/CorrelationService.ts
--   Server.Detectors, Server.LogTypes, Server.Notifications, Server.OpenSearch, Server.Indices,
--   Server.AlertRequests, Server.ThreatIntel, Server.FindingRequests, Server.FieldMappings and
--   Server.SigmaRules: DetectorService.ts, LogTypeService.ts, NotificationsService.ts,
--                        OpenSearchService.ts, IndexService.ts, AlertService.ts,
--                        ThreatIntelService.ts, FindingsService.ts, FieldMappingService.ts and
--                        RuleService.ts of server/services
--   Server.Clusters      server/clusters: the actions that the plugin adds to the client
--   Server.Forward       the call and the reply that these handlers share
--   Server.Routes        server/plugin.ts: which service answers a handler; Server.Routes.Table has
--                        the routes of server/routes
--   Server.Yaml          buildYamlBody of server/utils/helpers.ts
--   Metrics              aggregateMetrics of common/helpers.ts, server/services/MetricsService.ts
--   Metrics.Manager      public/metrics/DetectorMetricsManager.ts, the steps of types/Metrics.ts
--   Spaces               common/constants.ts and the functions on spaces of common/helpers.ts
--   Stores.Findings      getFindingsPerDetector and getAllFindings of public/store/FindingsStore.ts
--   Stores.Alerts        public/store/AlertsStore.ts
--   Stores.Documents     public/store/DocumentStore.ts
--   Stores.Rules         public/store/RulesStore.ts; Stores.Rules.Uncached is a store that keeps
--                        nothing, which it is compared with
--   Browser              public/services: the requests of the browser. Browser.Detection, Alerts (also
--                        the findings), Correlations (also log types and Sigma rules), Content
--                        (decoders, filters, log tests), Stored (KVDBs and policies), Integrations,
--                        Sources (indices, mappings, notifications, documents) and ThreatIntel have
--                        a function for each method that makes a request; Browser.Api the paths of
--                        server/utils/constants.ts; Browser.Asked lists the methods with the handlers
--                        that they ask for, and Browser.Telemetry is MetricsService.ts
--   Overview             public/pages/Overview/models/OverviewViewModel.ts: Overview.Findings and
--                        Overview.Refresh
--   ThreatIntel          the scan configuration, the files of indicators and the errors of the forms in
--                        public/pages/ThreatIntel/utils/helpers.ts
--   Rules.Mitre          public/pages/WazuhRules/utils/mitre.ts
--   Rules.Compliance     public/pages/WazuhRules/utils/compliance.ts
--   Rules.LogSource      getLogTypeFromLogSource of the helpers of both editors
--   Rules.WazuhEditor    public/pages/WazuhRules/components/RuleEditor/mappers.ts
--   Rules.RuleYaml       public/pages/WazuhRules/utils/mappers.ts
--   Rules.SigmaEditor    public/pages/Rules/components/RuleEditor/mappers.ts
-- Operations bear the names of the source in snake case. The modules below these hold the proofs,
-- the modules named Tests hold runs at concrete inputs. Base has the shared helpers.
--
-- Parameters, since their code is not in the repository: the cluster's client, the yaml package,
-- js-yaml's load and dump, lossless-json, lodash's get, JSON.stringify and JSON.parse, the patterns
-- of names, encodeURIComponent, toLowerCase, the date of today and the parsing and comparing of
-- dates, and for the stores and the overview the services, the stores and the handlers that they
-- call. What is asked of them is a named hypothesis: IsResolver says how a url that a service asks
-- for is read as a path. IsRegular, YamlIsRegular and ServerIsRegular say that what is thrown is
-- neither undefined nor null, IsReadBack that js-yaml reads the one value back that it printed,
-- IsCanonical that it prints the one text again that it read, and AreSeparate that JSON.stringify
-- gives calls with different arguments different texts.
--
-- Fuel: the loop over alerts has rounds; more rounds than there are alerts are enough where at least
-- one alert is asked for. The loop that requests further findings has as many rounds as findings
-- remain, and each round takes some away.
--
-- The loop over the detectors, those over steps and handlers, and extractFieldsFromMappings recurse
-- on their data.
--
-- Not modelled: requests of one service that run at the same time (they share a promise for the
-- field capabilities), calls of a store or of the overview that overlap, logging, the schemas that
-- validate requests, how the client fills a URL template, the wrappers of the platform's saved objects
-- and index patterns, the stores not named above, the YAML mappers of the Sigma editor, and the React
-- components of public/pages and public/components.
pub mod Base
pub mod Json
pub mod Server
pub mod Metrics
pub mod Stores
pub mod Overview
pub mod Rules
pub mod ThreatIntel
pub mod Spaces
pub mod Browser
