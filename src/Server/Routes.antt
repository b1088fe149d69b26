-- ===== src/Server/Routes.antt =====
-- server/routes and the wiring of server/plugin.ts: which handler answers a request. A path is the
-- list of its segments; the router of the platform finds the route, and its schemas refuse what
-- does not fit them. The handlers of the counters are those of Metrics, as they call no client.
pub mod Table
pub mod Replies
pub mod Matching
mod Tests
use wazuh_dashboard_security.Base.{String, Bool, true, false, List, ◌==◌}
use wazuh_dashboard_security.Json.{Json}
use wazuh_dashboard_security.Server.Client.{Outcome, Host, Request, Reply, Action}
pub use wazuh_dashboard_security.Server.Clusters.Action.{Method, get, post, put, delete}
use wazuh_dashboard_security.Server.Yaml.{Yaml}
use wazuh_dashboard_security.Server.Detectors.{
  create_detector, get_detector, search_detectors, update_detector, delete_detector,
}
use wazuh_dashboard_security.Server.Correlations.{
  get_correlation_rules, create_correlation_rule, update_correlation_rule, get_correlated_findings,
  get_all_correlations_in_time_range, delete_correlation_rule, get_all_correlation_alerts,
  acknowledge_correlation_alerts,
}
use wazuh_dashboard_security.Server.Indices.{
  get_indices, get_aliases, get_index_fields, update_aliases,
}
use wazuh_dashboard_security.Server.FindingRequests.{get_findings, get_threat_intel_findings}
use wazuh_dashboard_security.Server.OpenSearch.{document_ids_query, time_range_query, get_plugins}
use wazuh_dashboard_security.Server.FieldMappings.{
  get_mappings_view, get_mappings, create_mappings, get_index_alias_fields,
}
use wazuh_dashboard_security.Server.AlertRequests.{
  get_alerts, acknowledge_alerts, get_threat_intel_alerts, update_threat_intel_alerts_state,
}
use wazuh_dashboard_security.Server.WazuhRules.{get_rules, create_rule, delete_rule, update_rule}
use wazuh_dashboard_security.Server.Notifications.{
  get_channel, get_channels, get_notifications_features,
}
use wazuh_dashboard_security.Server.LogTypes.{
  create_log_type, search_log_types, update_log_type, delete_log_type,
}
use wazuh_dashboard_security.Server.Integrations.{
  create_integration, search_integrations, update_integration, get_promote_by_space,
  promote_integration, delete_integration,
}
use wazuh_dashboard_security.Server.Policies.{
  search_policies, get_policy, update_policy, delete_space,
}
use wazuh_dashboard_security.Server.Kvdbs.{
  search_kvdbs, search_kvdb_integrations, create_kvdb, update_kvdb, delete_kvdb,
}
use wazuh_dashboard_security.Server.Filters.{
  search_filters, create_filter, update_filter, delete_filter,
}
use wazuh_dashboard_security.Server.LogTest.{log_test}
use wazuh_dashboard_security.Server.ThreatIntel.{
  add_threat_intel_source, update_threat_intel_source, search_threat_intel_sources,
  get_threat_intel_source, create_threat_intel_monitor, update_threat_intel_monitor,
  search_threat_intel_monitors, get_threat_intel_iocs, delete_threat_intel_source,
  refresh_threat_intel_source, delete_threat_intel_monitor,
}
use wazuh_dashboard_security.Server.Decoders.{
  search_decoders, get_decoder, create_decoder, update_decoder, delete_decoder,
  get_draft_integrations,
}

pub data Segment : Type 0 where
  literal : String → Segment
  parameter : String → Segment

-- The handlers that call the client.
pub data ClientHandler : Type 0 where
  on_create_detector on_get_detector on_search_detectors on_update_detector on_delete_detector :
      ClientHandler
  on_get_correlation_rules on_create_correlation_rule on_update_correlation_rule
        on_get_correlated_findings on_get_all_correlations_in_time_range on_delete_correlation_rule
        on_get_all_correlation_alerts on_acknowledge_correlation_alerts :
      ClientHandler
  on_get_indices on_get_aliases on_get_index_fields on_update_aliases : ClientHandler
  on_get_findings on_get_threat_intel_findings : ClientHandler
  on_document_ids_query on_time_range_query on_get_plugins : ClientHandler
  on_get_mappings_view on_get_mappings on_create_mappings on_get_index_alias_fields : ClientHandler
  on_get_alerts on_acknowledge_alerts on_get_threat_intel_alerts
        on_update_threat_intel_alerts_state :
      ClientHandler
  on_get_rules on_create_rule on_delete_rule on_update_rule : ClientHandler
  on_get_channel on_get_channels on_get_notifications_features : ClientHandler
  on_create_log_type on_search_log_types on_update_log_type on_delete_log_type : ClientHandler
  on_create_integration on_search_integrations on_update_integration on_get_promote_by_space
        on_promote_integration on_delete_integration :
      ClientHandler
  on_search_policies on_get_policy on_update_policy on_delete_space : ClientHandler
  on_search_kvdbs on_search_kvdb_integrations on_create_kvdb on_update_kvdb on_delete_kvdb :
      ClientHandler
  on_search_filters on_create_filter on_update_filter on_delete_filter : ClientHandler
  on_log_test : ClientHandler
  on_add_threat_intel_source on_update_threat_intel_source on_search_threat_intel_sources
        on_get_threat_intel_source on_create_threat_intel_monitor on_update_threat_intel_monitor
        on_search_threat_intel_monitors on_get_threat_intel_iocs on_delete_threat_intel_source
        on_refresh_threat_intel_source on_delete_threat_intel_monitor :
      ClientHandler
  on_search_decoders on_get_decoder on_create_decoder on_update_decoder on_delete_decoder
        on_get_draft_integrations :
      ClientHandler

pub data Handler : Type 0 where
  client : ClientHandler → Handler
  on_get_metrics on_update_metrics : Handler

pub record Route : Type 0 where
  pub method : Method
  pub path : List Segment
  pub handler : Handler

-- What the handlers take from elsewhere.
pub record Server : Type 0 where
  pub data_source_enabled : Bool
  pub host : Host
  pub yaml : Yaml
  pub stringify : Json → Json
  pub lodash_get : Json → String → Json
  pub load : Json → Outcome Json

-- The services as setup makes them: some do not know of data sources.
unfoldable pub run : Server → ClientHandler → Request → Action Reply
run s on_create_detector = create_detector s.data_source_enabled s.host
run s on_get_detector = get_detector s.data_source_enabled s.host
run s on_search_detectors = search_detectors s.data_source_enabled s.host
run s on_update_detector = update_detector s.data_source_enabled s.host
run s on_delete_detector = delete_detector s.data_source_enabled s.host
run s on_get_correlation_rules = get_correlation_rules s.data_source_enabled s.host
run s on_create_correlation_rule = create_correlation_rule s.data_source_enabled s.host
run s on_update_correlation_rule = update_correlation_rule s.data_source_enabled s.host
run s on_get_correlated_findings = get_correlated_findings s.data_source_enabled s.host
run s on_get_all_correlations_in_time_range =
    get_all_correlations_in_time_range s.data_source_enabled s.host
run s on_delete_correlation_rule = delete_correlation_rule s.data_source_enabled s.host
run s on_get_all_correlation_alerts = get_all_correlation_alerts s.data_source_enabled s.host
run s on_acknowledge_correlation_alerts =
    acknowledge_correlation_alerts s.data_source_enabled s.host
run s on_get_indices = get_indices s.data_source_enabled s.host
run s on_get_aliases = get_aliases s.data_source_enabled s.host
run s on_get_index_fields = get_index_fields s.data_source_enabled s.host
run s on_update_aliases = update_aliases s.data_source_enabled s.host
run s on_get_findings = get_findings s.data_source_enabled s.host
run s on_get_threat_intel_findings = get_threat_intel_findings s.data_source_enabled s.host
run s on_document_ids_query = document_ids_query s.data_source_enabled s.host s.stringify
run s on_time_range_query = time_range_query s.data_source_enabled s.host s.stringify
run s on_get_plugins = get_plugins s.data_source_enabled s.host s.stringify
run s on_get_mappings_view = get_mappings_view s.data_source_enabled s.host
run s on_get_mappings = get_mappings s.data_source_enabled s.host
run s on_create_mappings = create_mappings s.data_source_enabled s.host
run s on_get_index_alias_fields = get_index_alias_fields s.data_source_enabled s.host
run s on_get_alerts = get_alerts s.data_source_enabled s.host
run s on_acknowledge_alerts = acknowledge_alerts s.data_source_enabled s.host
run s on_get_threat_intel_alerts = get_threat_intel_alerts s.data_source_enabled s.host
run s on_update_threat_intel_alerts_state =
    update_threat_intel_alerts_state s.data_source_enabled s.host
run s on_get_rules = get_rules s.host s.load
run s on_create_rule = create_rule s.host s.load
run s on_delete_rule = delete_rule s.host s.load
run s on_update_rule = update_rule s.host s.load
run s on_get_channel = get_channel s.data_source_enabled s.host
run s on_get_channels = get_channels s.data_source_enabled s.host
run s on_get_notifications_features = get_notifications_features s.data_source_enabled s.host
run s on_create_log_type = create_log_type s.data_source_enabled s.host
run s on_search_log_types = search_log_types s.data_source_enabled s.host
run s on_update_log_type = update_log_type s.data_source_enabled s.host
run s on_delete_log_type = delete_log_type s.data_source_enabled s.host
run s on_create_integration = create_integration s.data_source_enabled s.host s.lodash_get
run s on_search_integrations = search_integrations s.data_source_enabled s.host s.lodash_get
run s on_update_integration = update_integration s.data_source_enabled s.host s.lodash_get
run s on_get_promote_by_space = get_promote_by_space s.data_source_enabled s.host s.lodash_get
run s on_promote_integration = promote_integration s.data_source_enabled s.host s.lodash_get
run s on_delete_integration = delete_integration s.data_source_enabled s.host s.lodash_get
run s on_search_policies = search_policies s.data_source_enabled s.host
run s on_get_policy = get_policy s.data_source_enabled s.host
run s on_update_policy = update_policy s.data_source_enabled s.host
run s on_delete_space = delete_space s.data_source_enabled s.host
run s on_search_kvdbs = search_kvdbs false s.host s.yaml s.stringify
run s on_search_kvdb_integrations = search_kvdb_integrations false s.host s.yaml s.stringify
run s on_create_kvdb = create_kvdb false s.host s.yaml s.stringify
run s on_update_kvdb = update_kvdb false s.host s.yaml s.stringify
run s on_delete_kvdb = delete_kvdb false s.host s.yaml s.stringify
run s on_search_filters = search_filters false s.host s.yaml s.stringify
run s on_create_filter = create_filter false s.host s.yaml s.stringify
run s on_update_filter = update_filter false s.host s.yaml s.stringify
run s on_delete_filter = delete_filter false s.host s.yaml s.stringify
run s on_log_test = log_test false s.host
run s on_add_threat_intel_source = add_threat_intel_source s.data_source_enabled s.host
run s on_update_threat_intel_source = update_threat_intel_source s.data_source_enabled s.host
run s on_search_threat_intel_sources = search_threat_intel_sources s.data_source_enabled s.host
run s on_get_threat_intel_source = get_threat_intel_source s.data_source_enabled s.host
run s on_create_threat_intel_monitor = create_threat_intel_monitor s.data_source_enabled s.host
run s on_update_threat_intel_monitor = update_threat_intel_monitor s.data_source_enabled s.host
run s on_search_threat_intel_monitors = search_threat_intel_monitors s.data_source_enabled s.host
run s on_get_threat_intel_iocs = get_threat_intel_iocs s.data_source_enabled s.host
run s on_delete_threat_intel_source = delete_threat_intel_source s.data_source_enabled s.host
run s on_refresh_threat_intel_source = refresh_threat_intel_source s.data_source_enabled s.host
run s on_delete_threat_intel_monitor = delete_threat_intel_monitor s.data_source_enabled s.host
run s on_search_decoders = search_decoders s.host
run s on_get_decoder = get_decoder s.host
run s on_create_decoder = create_decoder s.host
run s on_update_decoder = update_decoder s.host
run s on_delete_decoder = delete_decoder s.host
run s on_get_draft_integrations = get_draft_integrations s.host
