-- ===== src/Server/Routes/Table.antt =====
-- The routes that server/routes registers, in the order of setup in server/plugin.ts.
use wazuh_dashboard_security.Base.{List, [], ◌∷◌, ◌++◌}
use wazuh_dashboard_security.Server.Routes.{
  Method, Segment, literal, parameter, ClientHandler, Handler, client, Route,
}

abbrev pub base : List Segment
base = literal "_plugins" ∷ literal "_security_analytics" ∷ []

abbrev pub route : Method → List Segment → Handler → Route
route method path handler = record { method = method; path = base ++ path; handler = handler }

unfoldable pub setup_detector_routes : List Route
setup_detector_routes =
    route Method.post (literal "detectors" ∷ []) (client ClientHandler.on_create_detector)
    ∷ route Method.get (literal "detectors" ∷ parameter "detectorId" ∷ [])
        (client ClientHandler.on_get_detector)
    ∷ route Method.post (literal "detectors" ∷ literal "_search" ∷ [])
        (client ClientHandler.on_search_detectors)
    ∷ route Method.put (literal "detectors" ∷ parameter "detectorId" ∷ [])
        (client ClientHandler.on_update_detector)
    ∷ route Method.delete (literal "detectors" ∷ parameter "detectorId" ∷ [])
        (client ClientHandler.on_delete_detector)
    ∷ []

unfoldable pub setup_correlation_routes : List Route
setup_correlation_routes =
    route Method.post (literal "correlation" ∷ literal "rules" ∷ literal "_search" ∷ [])
      (client ClientHandler.on_get_correlation_rules)
    ∷ route Method.post (literal "correlation" ∷ literal "rules" ∷ [])
        (client ClientHandler.on_create_correlation_rule)
    ∷ route Method.put (literal "correlation" ∷ literal "rules" ∷ parameter "ruleId" ∷ [])
        (client ClientHandler.on_update_correlation_rule)
    ∷ route Method.get (literal "findings" ∷ literal "correlate" ∷ [])
        (client ClientHandler.on_get_correlated_findings)
    ∷ route Method.get (literal "correlations" ∷ [])
        (client ClientHandler.on_get_all_correlations_in_time_range)
    ∷ route Method.delete (literal "correlation" ∷ literal "rules" ∷ parameter "ruleId" ∷ [])
        (client ClientHandler.on_delete_correlation_rule)
    ∷ route Method.get (literal "correlationAlerts" ∷ [])
        (client ClientHandler.on_get_all_correlation_alerts)
    ∷ route Method.post (literal "_acknowledge" ∷ literal "correlationAlerts" ∷ [])
        (client ClientHandler.on_acknowledge_correlation_alerts)
    ∷ []

unfoldable pub setup_index_routes : List Route
setup_index_routes =
    route Method.get (literal "indices" ∷ []) (client ClientHandler.on_get_indices)
    ∷ route Method.get (literal "aliases" ∷ []) (client ClientHandler.on_get_aliases)
    ∷ route Method.post (literal "indices" ∷ []) (client ClientHandler.on_get_index_fields)
    ∷ route Method.post (literal "update_aliases" ∷ []) (client ClientHandler.on_update_aliases)
    ∷ []

unfoldable pub setup_findings_routes : List Route
setup_findings_routes =
    route Method.get (literal "findings" ∷ literal "_search" ∷ [])
      (client ClientHandler.on_get_findings)
    ∷ route Method.get (literal "threat_intel" ∷ literal "findings" ∷ literal "_search" ∷ [])
        (client ClientHandler.on_get_threat_intel_findings)
    ∷ []

unfoldable pub setup_opensearch_routes : List Route
setup_opensearch_routes =
    route Method.post (literal "document_ids_query" ∷ [])
      (client ClientHandler.on_document_ids_query)
    ∷ route Method.get (literal "time_range_query" ∷ []) (client ClientHandler.on_time_range_query)
    ∷ route Method.get (literal "_notifications" ∷ literal "plugins" ∷ [])
        (client ClientHandler.on_get_plugins)
    ∷ []

unfoldable pub setup_field_mapping_routes : List Route
setup_field_mapping_routes =
    route Method.get (literal "mappings" ∷ literal "view" ∷ [])
      (client ClientHandler.on_get_mappings_view)
    ∷ route Method.get (literal "mappings" ∷ []) (client ClientHandler.on_get_mappings)
    ∷ route Method.post (literal "mappings" ∷ []) (client ClientHandler.on_create_mappings)
    ∷ route Method.get (literal "mappings" ∷ literal "fields" ∷ parameter "indexName" ∷ [])
        (client ClientHandler.on_get_index_alias_fields)
    ∷ []

unfoldable pub setup_alerts_routes : List Route
setup_alerts_routes =
    route Method.get (literal "alerts" ∷ []) (client ClientHandler.on_get_alerts)
    ∷ route Method.post
        (literal "detectors"
          ∷ parameter "detector_id"
          ∷ literal "_acknowledge"
          ∷ literal "alerts"
          ∷ [])
        (client ClientHandler.on_acknowledge_alerts)
    ∷ route Method.get (literal "threat_intel" ∷ literal "alerts" ∷ [])
        (client ClientHandler.on_get_threat_intel_alerts)
    ∷ route Method.put (literal "threat_intel" ∷ literal "alerts" ∷ literal "status" ∷ [])
        (client ClientHandler.on_update_threat_intel_alerts_state)
    ∷ []

unfoldable pub setup_rules_routes : List Route
setup_rules_routes =
    route Method.post (literal "rules" ∷ literal "_search" ∷ []) (client ClientHandler.on_get_rules)
    ∷ route Method.post (literal "rules" ∷ []) (client ClientHandler.on_create_rule)
    ∷ route Method.delete (literal "rules" ∷ parameter "ruleId" ∷ [])
        (client ClientHandler.on_delete_rule)
    ∷ route Method.put (literal "rules" ∷ parameter "ruleId" ∷ [])
        (client ClientHandler.on_update_rule)
    ∷ []

unfoldable pub setup_notifications_routes : List Route
setup_notifications_routes =
    route Method.get (literal "_notifications" ∷ literal "channels" ∷ parameter "id" ∷ [])
      (client ClientHandler.on_get_channel)
    ∷ route Method.get (literal "_notifications" ∷ literal "channels" ∷ [])
        (client ClientHandler.on_get_channels)
    ∷ route Method.get (literal "_notifications" ∷ literal "features" ∷ [])
        (client ClientHandler.on_get_notifications_features)
    ∷ []

unfoldable pub setup_log_type_routes : List Route
setup_log_type_routes =
    route Method.post (literal "logtype" ∷ []) (client ClientHandler.on_create_log_type)
    ∷ route Method.post (literal "logtype" ∷ literal "_search" ∷ [])
        (client ClientHandler.on_search_log_types)
    ∷ route Method.put (literal "logtype" ∷ parameter "logTypeId" ∷ [])
        (client ClientHandler.on_update_log_type)
    ∷ route Method.delete (literal "logtype" ∷ parameter "logTypeId" ∷ [])
        (client ClientHandler.on_delete_log_type)
    ∷ []

unfoldable pub setup_integration_routes : List Route
setup_integration_routes =
    route Method.post (literal "integrations" ∷ []) (client ClientHandler.on_create_integration)
    ∷ route Method.post (literal "integrations" ∷ literal "_search" ∷ [])
        (client ClientHandler.on_search_integrations)
    ∷ route Method.put (literal "integrations" ∷ parameter "integrationId" ∷ [])
        (client ClientHandler.on_update_integration)
    ∷ route Method.get (literal "integrations" ∷ literal "promote" ∷ parameter "space" ∷ [])
        (client ClientHandler.on_get_promote_by_space)
    ∷ route Method.post (literal "integrations" ∷ literal "promote" ∷ [])
        (client ClientHandler.on_promote_integration)
    ∷ route Method.delete (literal "integrations" ∷ parameter "integrationId" ∷ [])
        (client ClientHandler.on_delete_integration)
    ∷ []

unfoldable pub setup_policies_routes : List Route
setup_policies_routes =
    route Method.post (literal "policies" ∷ literal "_search" ∷ [])
      (client ClientHandler.on_search_policies)
    ∷ route Method.get (literal "policies" ∷ parameter "policyId" ∷ [])
        (client ClientHandler.on_get_policy)
    ∷ route Method.put (literal "policies" ∷ parameter "space" ∷ [])
        (client ClientHandler.on_update_policy)
    ∷ route Method.delete (literal "spaces" ∷ parameter "space" ∷ [])
        (client ClientHandler.on_delete_space)
    ∷ []

unfoldable pub setup_kvdbs_routes : List Route
setup_kvdbs_routes =
    route Method.post (literal "kvdbs" ∷ literal "_search" ∷ [])
      (client ClientHandler.on_search_kvdbs)
    ∷ route Method.post (literal "kvdbs" ∷ literal "_integrations" ∷ [])
        (client ClientHandler.on_search_kvdb_integrations)
    ∷ route Method.post (literal "kvdbs" ∷ []) (client ClientHandler.on_create_kvdb)
    ∷ route Method.put (literal "kvdbs" ∷ parameter "kvdbId" ∷ [])
        (client ClientHandler.on_update_kvdb)
    ∷ route Method.delete (literal "kvdbs" ∷ parameter "kvdbId" ∷ [])
        (client ClientHandler.on_delete_kvdb)
    ∷ []

unfoldable pub setup_filters_routes : List Route
setup_filters_routes =
    route Method.post (literal "filters" ∷ literal "_search" ∷ [])
      (client ClientHandler.on_search_filters)
    ∷ route Method.post (literal "filters" ∷ []) (client ClientHandler.on_create_filter)
    ∷ route Method.put (literal "filters" ∷ parameter "filterId" ∷ [])
        (client ClientHandler.on_update_filter)
    ∷ route Method.delete (literal "filters" ∷ parameter "filterId" ∷ [])
        (client ClientHandler.on_delete_filter)
    ∷ []

unfoldable pub setup_log_test_routes : List Route
setup_log_test_routes =
    route Method.post (literal "logtest" ∷ []) (client ClientHandler.on_log_test) ∷ []

unfoldable pub setup_metrics_routes : List Route
setup_metrics_routes =
    record {
      method = Method.get;
      path = literal "api" ∷ literal "security_analytics" ∷ literal "stats" ∷ [];
      handler = Handler.on_get_metrics;
    }
    ∷ record {
      method = Method.post;
      path = literal "api" ∷ literal "security_analytics" ∷ literal "stats" ∷ [];
      handler = Handler.on_update_metrics;
    }
    ∷ []

unfoldable pub setup_threat_intel_routes : List Route
setup_threat_intel_routes =
    route Method.post (literal "threat_intel" ∷ literal "sources" ∷ [])
      (client ClientHandler.on_add_threat_intel_source)
    ∷ route Method.put (literal "threat_intel" ∷ literal "sources" ∷ parameter "sourceId" ∷ [])
        (client ClientHandler.on_update_threat_intel_source)
    ∷ route Method.post (literal "threat_intel" ∷ literal "sources" ∷ literal "_search" ∷ [])
        (client ClientHandler.on_search_threat_intel_sources)
    ∷ route Method.get (literal "threat_intel" ∷ literal "sources" ∷ parameter "sourceId" ∷ [])
        (client ClientHandler.on_get_threat_intel_source)
    ∷ route Method.post (literal "threat_intel" ∷ literal "monitors" ∷ [])
        (client ClientHandler.on_create_threat_intel_monitor)
    ∷ route Method.put (literal "threat_intel" ∷ literal "monitors" ∷ parameter "monitorId" ∷ [])
        (client ClientHandler.on_update_threat_intel_monitor)
    ∷ route Method.post (literal "threat_intel" ∷ literal "monitors" ∷ literal "_search" ∷ [])
        (client ClientHandler.on_search_threat_intel_monitors)
    ∷ route Method.get (literal "threat_intel" ∷ literal "iocs" ∷ [])
        (client ClientHandler.on_get_threat_intel_iocs)
    ∷ route Method.delete (literal "threat_intel" ∷ literal "sources" ∷ parameter "sourceId" ∷ [])
        (client ClientHandler.on_delete_threat_intel_source)
    ∷ route Method.post
        (literal "threat_intel"
          ∷ literal "sources"
          ∷ parameter "sourceId"
          ∷ literal "_refresh"
          ∷ [])
        (client ClientHandler.on_refresh_threat_intel_source)
    ∷ route Method.delete (literal "threat_intel" ∷ literal "monitors" ∷ parameter "monitorId" ∷ [])
        (client ClientHandler.on_delete_threat_intel_monitor)
    ∷ []

unfoldable pub setup_decoders_routes : List Route
setup_decoders_routes =
    route Method.post (literal "decoders" ∷ literal "_search" ∷ [])
      (client ClientHandler.on_search_decoders)
    ∷ route Method.get (literal "decoders" ∷ parameter "decoderId" ∷ [])
        (client ClientHandler.on_get_decoder)
    ∷ route Method.post (literal "decoders" ∷ []) (client ClientHandler.on_create_decoder)
    ∷ route Method.put (literal "decoders" ∷ parameter "decoderId" ∷ [])
        (client ClientHandler.on_update_decoder)
    ∷ route Method.delete (literal "decoders" ∷ parameter "decoderId" ∷ [])
        (client ClientHandler.on_delete_decoder)
    ∷ route Method.get (literal "decoders" ∷ literal "integrations" ∷ literal "draft" ∷ [])
        (client ClientHandler.on_get_draft_integrations)
    ∷ []

unfoldable pub routes : List Route
unfolding setup_detector_routes setup_correlation_routes setup_index_routes setup_findings_routes
    setup_opensearch_routes setup_field_mapping_routes setup_alerts_routes setup_rules_routes
    setup_notifications_routes setup_log_type_routes setup_integration_routes setup_policies_routes
    setup_kvdbs_routes setup_filters_routes setup_log_test_routes setup_metrics_routes
    setup_threat_intel_routes setup_decoders_routes
routes =
    setup_detector_routes ++ setup_correlation_routes ++ setup_index_routes ++ setup_findings_routes
    ++ setup_opensearch_routes ++ setup_field_mapping_routes ++ setup_alerts_routes
    ++ setup_rules_routes ++ setup_notifications_routes ++ setup_log_type_routes
    ++ setup_integration_routes ++ setup_policies_routes ++ setup_kvdbs_routes
    ++ setup_filters_routes ++ setup_log_test_routes ++ setup_metrics_routes
    ++ setup_threat_intel_routes ++ setup_decoders_routes
