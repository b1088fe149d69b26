-- ===== src/Browser/Api.antt =====
-- BASE_API_PATH and API of server/utils/constants.ts: the paths of the requests.
use wazuh_dashboard_security.Base.{String}
use wazuh_dashboard_security.Json.Text.{◌&◌}

abbrev pub base_api_path : String
base_api_path = "/_plugins/_security_analytics"

abbrev pub detectors_base : String
detectors_base = base_api_path & "/detectors"

abbrev pub correlation_base : String
correlation_base = base_api_path & "/correlation/rules"

abbrev pub search_detectors : String
search_detectors = base_api_path & "/detectors/_search"

abbrev pub indices_base : String
indices_base = base_api_path & "/indices"

abbrev pub aliases_base : String
aliases_base = base_api_path & "/aliases"

abbrev pub findings_base : String
findings_base = base_api_path & "/findings"

abbrev pub get_findings : String
get_findings = base_api_path & "/findings/_search"

abbrev pub document_ids_query : String
document_ids_query = base_api_path & "/document_ids_query"

abbrev pub time_range_query : String
time_range_query = base_api_path & "/time_range_query"

abbrev pub mappings_base : String
mappings_base = base_api_path & "/mappings"

abbrev pub mappings_view : String
mappings_view = base_api_path & "/mappings/view"

abbrev pub get_alerts : String
get_alerts = base_api_path & "/alerts"

abbrev pub rules_base : String
rules_base = base_api_path & "/rules"

abbrev pub channels : String
channels = base_api_path & "/_notifications/channels"

abbrev pub plugins : String
plugins = base_api_path & "/_notifications/plugins"

abbrev pub notification_features : String
notification_features = base_api_path & "/_notifications/features"

abbrev pub acknowledge_alerts : String
acknowledge_alerts = base_api_path & "/detectors/{detector_id}/_acknowledge/alerts"

abbrev pub update_aliases : String
update_aliases = base_api_path & "/update_aliases"

abbrev pub correlations : String
correlations = base_api_path & "/correlations"

abbrev pub integration_base : String
integration_base = base_api_path & "/integrations"

abbrev pub logtype_base : String
logtype_base = base_api_path & "/logtype"

abbrev pub kvdbs_base : String
kvdbs_base = base_api_path & "/kvdbs"

abbrev pub filters_base : String
filters_base = base_api_path & "/filters"

abbrev pub log_test_base : String
log_test_base = base_api_path & "/logtest"

abbrev pub metrics : String
metrics = "/api/security_analytics/stats"

abbrev pub get_correlation_alerts : String
get_correlation_alerts = base_api_path & "/correlationAlerts"

abbrev pub ack_correlation_alerts : String
ack_correlation_alerts = base_api_path & "/_acknowledge/correlationAlerts"

abbrev pub threat_intel_base : String
threat_intel_base = base_api_path & "/threat_intel"

abbrev pub decoders_base : String
decoders_base = base_api_path & "/decoders"

abbrev pub policies_base : String
policies_base = base_api_path & "/policies"

abbrev pub spaces_base : String
spaces_base = base_api_path & "/spaces"
