-- ===== src/Server/Routes/Replies.antt =====
-- The replies to the requests of the routes whose handlers call the client.
use wazuh_dashboard_security.Base.{Bool, true, false, ◌≡◌, subst}
use wazuh_dashboard_security.Json.{Json}
use wazuh_dashboard_security.Server.Client.{
  IsRegular, IsError, throw, Request, Reply, Action, error_body_message_unguarded, handle,
}
use wazuh_dashboard_security.Server.Safe.{IsTotal, IsSafe, safe_rules}
use wazuh_dashboard_security.Server.Integrations.{update_integration}
use wazuh_dashboard_security.Server.Yaml.{YamlIsRegular}
use wazuh_dashboard_security.Server.Routes.{ClientHandler, Server, run}
use wazuh_dashboard_security.Server.Detectors.Replies.{detector_handlers-IsTotal}
use wazuh_dashboard_security.Server.Correlations.Replies.{correlation_handlers-IsTotal}
use wazuh_dashboard_security.Server.Indices.Replies.{index_handlers-IsTotal}
use wazuh_dashboard_security.Server.FindingRequests.Replies.{finding_handlers-IsTotal}
use wazuh_dashboard_security.Server.OpenSearch.Replies.{search_handlers-IsTotal}
use wazuh_dashboard_security.Server.FieldMappings.Replies.{field_mapping_handlers-IsTotal}
use wazuh_dashboard_security.Server.AlertRequests.Replies.{alert_handlers-IsTotal}
use wazuh_dashboard_security.Server.WazuhRules.Replies.{wazuh_rule_handlers-IsTotal}
use wazuh_dashboard_security.Server.Notifications.Replies.{notification_handlers-IsTotal}
use wazuh_dashboard_security.Server.LogTypes.Replies.{log_type_handlers-IsTotal}
use wazuh_dashboard_security.Server.Integrations.Replies.{integration_handlers-IsTotal}
use wazuh_dashboard_security.Server.Policies.Replies.{policy_handlers-IsTotal}
use wazuh_dashboard_security.Server.Kvdbs.Replies.{kvdb_handlers-IsTotal}
use wazuh_dashboard_security.Server.Filters.Replies.{filter_handlers-IsTotal}
use wazuh_dashboard_security.Server.LogTest.Replies.{log_test-IsTotal}
use wazuh_dashboard_security.Server.ThreatIntel.Replies.{threat_intel_handlers-IsTotal}
use wazuh_dashboard_security.Server.Decoders.Replies.{decoder_handlers-IsTotal}

-- What the packages and the client throw are errors.
pub record ServerIsRegular (s : Server) : Type 0 where
  pub host : IsRegular s.host
  pub yaml : YamlIsRegular s.yaml
  pub load : (text error : Json) → s.load text ≡ throw error → IsError error

-- The handler that does not catch all that it throws.
abbrev pub may_reject : ClientHandler → Bool
may_reject ClientHandler.on_update_integration = true
may_reject _ = false

abbrev IsAnswered : Bool → Action Reply → Type 0
IsAnswered true m = IsSafe m
IsAnswered false m = IsTotal m

module _ (s : Server) (regular : ServerIsRegular s) where
  -- The handler that may reject is safe too: it throws errors.
  update_integration-IsSafe :
      (request : Request) → IsSafe (run s ClientHandler.on_update_integration request)
  unfolding run update_integration handle error_body_message_unguarded
  update_integration-IsSafe request = search (tt, safe_rules, regular.host) depth 20

  run-IsAnswered :
      (handler : ClientHandler) (request : Request)
      → IsAnswered (may_reject handler) (run s handler request)
  unfolding run
  run-IsAnswered ClientHandler.on_create_detector request =
      (detector_handlers-IsTotal regular.host s.data_source_enabled request).0
  run-IsAnswered ClientHandler.on_get_detector request =
      (detector_handlers-IsTotal regular.host s.data_source_enabled request).1
  run-IsAnswered ClientHandler.on_search_detectors request =
      (detector_handlers-IsTotal regular.host s.data_source_enabled request).2
  run-IsAnswered ClientHandler.on_update_detector request =
      (detector_handlers-IsTotal regular.host s.data_source_enabled request).4
  run-IsAnswered ClientHandler.on_delete_detector request =
      (detector_handlers-IsTotal regular.host s.data_source_enabled request).3
  run-IsAnswered ClientHandler.on_get_correlation_rules request =
      (correlation_handlers-IsTotal regular.host s.data_source_enabled request).4
  run-IsAnswered ClientHandler.on_create_correlation_rule request =
      (correlation_handlers-IsTotal regular.host s.data_source_enabled request).2
  run-IsAnswered ClientHandler.on_update_correlation_rule request =
      (correlation_handlers-IsTotal regular.host s.data_source_enabled request).3
  run-IsAnswered ClientHandler.on_get_correlated_findings request =
      (correlation_handlers-IsTotal regular.host s.data_source_enabled request).6
  run-IsAnswered ClientHandler.on_get_all_correlations_in_time_range request =
      (correlation_handlers-IsTotal regular.host s.data_source_enabled request).7
  run-IsAnswered ClientHandler.on_delete_correlation_rule request =
      (correlation_handlers-IsTotal regular.host s.data_source_enabled request).5
  run-IsAnswered ClientHandler.on_get_all_correlation_alerts request =
      (correlation_handlers-IsTotal regular.host s.data_source_enabled request).1
  run-IsAnswered ClientHandler.on_acknowledge_correlation_alerts request =
      (correlation_handlers-IsTotal regular.host s.data_source_enabled request).0
  run-IsAnswered ClientHandler.on_get_indices request =
      (index_handlers-IsTotal regular.host s.data_source_enabled request).1
  run-IsAnswered ClientHandler.on_get_aliases request =
      (index_handlers-IsTotal regular.host s.data_source_enabled request).2
  run-IsAnswered ClientHandler.on_get_index_fields request =
      (index_handlers-IsTotal regular.host s.data_source_enabled request).0
  run-IsAnswered ClientHandler.on_update_aliases request =
      (index_handlers-IsTotal regular.host s.data_source_enabled request).3
  run-IsAnswered ClientHandler.on_get_findings request =
      (finding_handlers-IsTotal regular.host s.data_source_enabled request).0
  run-IsAnswered ClientHandler.on_get_threat_intel_findings request =
      (finding_handlers-IsTotal regular.host s.data_source_enabled request).1
  run-IsAnswered ClientHandler.on_document_ids_query request =
      (search_handlers-IsTotal regular.host s.data_source_enabled s.stringify request).0
  run-IsAnswered ClientHandler.on_time_range_query request =
      (search_handlers-IsTotal regular.host s.data_source_enabled s.stringify request).1
  run-IsAnswered ClientHandler.on_get_plugins request =
      (search_handlers-IsTotal regular.host s.data_source_enabled s.stringify request).2
  run-IsAnswered ClientHandler.on_get_mappings_view request =
      (field_mapping_handlers-IsTotal regular.host s.data_source_enabled request).0
  run-IsAnswered ClientHandler.on_get_mappings request =
      (field_mapping_handlers-IsTotal regular.host s.data_source_enabled request).2
  run-IsAnswered ClientHandler.on_create_mappings request =
      (field_mapping_handlers-IsTotal regular.host s.data_source_enabled request).1
  run-IsAnswered ClientHandler.on_get_index_alias_fields request =
      (field_mapping_handlers-IsTotal regular.host s.data_source_enabled request).3
  run-IsAnswered ClientHandler.on_get_alerts request =
      (alert_handlers-IsTotal regular.host s.data_source_enabled request).0
  run-IsAnswered ClientHandler.on_acknowledge_alerts request =
      (alert_handlers-IsTotal regular.host s.data_source_enabled request).1
  run-IsAnswered ClientHandler.on_get_threat_intel_alerts request =
      (alert_handlers-IsTotal regular.host s.data_source_enabled request).2
  run-IsAnswered ClientHandler.on_update_threat_intel_alerts_state request =
      (alert_handlers-IsTotal regular.host s.data_source_enabled request).3
  run-IsAnswered ClientHandler.on_get_rules request =
      (wazuh_rule_handlers-IsTotal regular.host s.load regular.load request).0
  run-IsAnswered ClientHandler.on_create_rule request =
      (wazuh_rule_handlers-IsTotal regular.host s.load regular.load request).1
  run-IsAnswered ClientHandler.on_delete_rule request =
      (wazuh_rule_handlers-IsTotal regular.host s.load regular.load request).3
  run-IsAnswered ClientHandler.on_update_rule request =
      (wazuh_rule_handlers-IsTotal regular.host s.load regular.load request).2
  run-IsAnswered ClientHandler.on_get_channel request =
      (notification_handlers-IsTotal regular.host s.data_source_enabled request).0
  run-IsAnswered ClientHandler.on_get_channels request =
      (notification_handlers-IsTotal regular.host s.data_source_enabled request).1
  run-IsAnswered ClientHandler.on_get_notifications_features request =
      (notification_handlers-IsTotal regular.host s.data_source_enabled request).2
  run-IsAnswered ClientHandler.on_create_log_type request =
      (log_type_handlers-IsTotal regular.host s.data_source_enabled request).0
  run-IsAnswered ClientHandler.on_search_log_types request =
      (log_type_handlers-IsTotal regular.host s.data_source_enabled request).1
  run-IsAnswered ClientHandler.on_update_log_type request =
      (log_type_handlers-IsTotal regular.host s.data_source_enabled request).2
  run-IsAnswered ClientHandler.on_delete_log_type request =
      (log_type_handlers-IsTotal regular.host s.data_source_enabled request).3
  run-IsAnswered ClientHandler.on_create_integration request =
      (integration_handlers-IsTotal regular.host s.lodash_get s.data_source_enabled request).0
  run-IsAnswered ClientHandler.on_search_integrations request =
      (integration_handlers-IsTotal regular.host s.lodash_get s.data_source_enabled request).1
  run-IsAnswered ClientHandler.on_update_integration request = update_integration-IsSafe request
  run-IsAnswered ClientHandler.on_get_promote_by_space request =
      (integration_handlers-IsTotal regular.host s.lodash_get s.data_source_enabled request).2
  run-IsAnswered ClientHandler.on_promote_integration request =
      (integration_handlers-IsTotal regular.host s.lodash_get s.data_source_enabled request).3
  run-IsAnswered ClientHandler.on_delete_integration request =
      (integration_handlers-IsTotal regular.host s.lodash_get s.data_source_enabled request).4
  run-IsAnswered ClientHandler.on_search_policies request =
      (policy_handlers-IsTotal regular.host s.data_source_enabled request).0
  run-IsAnswered ClientHandler.on_get_policy request =
      (policy_handlers-IsTotal regular.host s.data_source_enabled request).1
  run-IsAnswered ClientHandler.on_update_policy request =
      (policy_handlers-IsTotal regular.host s.data_source_enabled request).2
  run-IsAnswered ClientHandler.on_delete_space request =
      (policy_handlers-IsTotal regular.host s.data_source_enabled request).3
  run-IsAnswered ClientHandler.on_search_kvdbs request =
      (kvdb_handlers-IsTotal regular.host regular.yaml false s.stringify request).0
  run-IsAnswered ClientHandler.on_search_kvdb_integrations request =
      (kvdb_handlers-IsTotal regular.host regular.yaml false s.stringify request).1
  run-IsAnswered ClientHandler.on_create_kvdb request =
      (kvdb_handlers-IsTotal regular.host regular.yaml false s.stringify request).2
  run-IsAnswered ClientHandler.on_update_kvdb request =
      (kvdb_handlers-IsTotal regular.host regular.yaml false s.stringify request).3
  run-IsAnswered ClientHandler.on_delete_kvdb request =
      (kvdb_handlers-IsTotal regular.host regular.yaml false s.stringify request).4
  run-IsAnswered ClientHandler.on_search_filters request =
      (filter_handlers-IsTotal regular.host regular.yaml false s.stringify request).0
  run-IsAnswered ClientHandler.on_create_filter request =
      (filter_handlers-IsTotal regular.host regular.yaml false s.stringify request).1
  run-IsAnswered ClientHandler.on_update_filter request =
      (filter_handlers-IsTotal regular.host regular.yaml false s.stringify request).2
  run-IsAnswered ClientHandler.on_delete_filter request =
      (filter_handlers-IsTotal regular.host regular.yaml false s.stringify request).3
  run-IsAnswered ClientHandler.on_log_test request = log_test-IsTotal regular.host false request
  run-IsAnswered ClientHandler.on_add_threat_intel_source request =
      (threat_intel_handlers-IsTotal regular.host s.data_source_enabled request).0
  run-IsAnswered ClientHandler.on_update_threat_intel_source request =
      (threat_intel_handlers-IsTotal regular.host s.data_source_enabled request).1
  run-IsAnswered ClientHandler.on_search_threat_intel_sources request =
      (threat_intel_handlers-IsTotal regular.host s.data_source_enabled request).3
  run-IsAnswered ClientHandler.on_get_threat_intel_source request =
      (threat_intel_handlers-IsTotal regular.host s.data_source_enabled request).2
  run-IsAnswered ClientHandler.on_create_threat_intel_monitor request =
      (threat_intel_handlers-IsTotal regular.host s.data_source_enabled request).7
  run-IsAnswered ClientHandler.on_update_threat_intel_monitor request =
      (threat_intel_handlers-IsTotal regular.host s.data_source_enabled request).8
  run-IsAnswered ClientHandler.on_search_threat_intel_monitors request =
      (threat_intel_handlers-IsTotal regular.host s.data_source_enabled request).9
  run-IsAnswered ClientHandler.on_get_threat_intel_iocs request =
      (threat_intel_handlers-IsTotal regular.host s.data_source_enabled request).6
  run-IsAnswered ClientHandler.on_delete_threat_intel_source request =
      (threat_intel_handlers-IsTotal regular.host s.data_source_enabled request).4
  run-IsAnswered ClientHandler.on_refresh_threat_intel_source request =
      (threat_intel_handlers-IsTotal regular.host s.data_source_enabled request).5
  run-IsAnswered ClientHandler.on_delete_threat_intel_monitor request =
      (threat_intel_handlers-IsTotal regular.host s.data_source_enabled request).10
  run-IsAnswered ClientHandler.on_search_decoders request =
      (decoder_handlers-IsTotal regular.host request).0
  run-IsAnswered ClientHandler.on_get_decoder request =
      (decoder_handlers-IsTotal regular.host request).1
  run-IsAnswered ClientHandler.on_create_decoder request =
      (decoder_handlers-IsTotal regular.host request).2
  run-IsAnswered ClientHandler.on_update_decoder request =
      (decoder_handlers-IsTotal regular.host request).3
  run-IsAnswered ClientHandler.on_delete_decoder request =
      (decoder_handlers-IsTotal regular.host request).4
  run-IsAnswered ClientHandler.on_get_draft_integrations request =
      (decoder_handlers-IsTotal regular.host request).5

  -- Every handler that calls the client, but updateIntegration, replies to every request, whatever
  -- the cluster answers: it does not reject. What the client and the packages throw is to be an
  -- error, neither undefined nor null.
  pub run-IsTotal :
      (handler : ClientHandler) (request : Request)
      → may_reject handler ≡ false
      → IsTotal (run s handler request)
  run-IsTotal handler request other =
      subst (λ b. IsAnswered b (run s handler request)) other (run-IsAnswered handler request)
