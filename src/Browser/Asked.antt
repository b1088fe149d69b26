-- ===== src/Browser/Asked.antt =====
-- The exchanges that the methods of the services start, each with the handler that it asks for.
use wazuh_dashboard_security.Base.{String, Bool, true, List, [], ◌∷◌, Option}
use wazuh_dashboard_security.Json.{Json}
use wazuh_dashboard_security.Server.Routes.{Handler, client, ClientHandler}
use wazuh_dashboard_security.Metrics.{Counter}
use wazuh_dashboard_security.Browser.{Exchange, Page, ask}
use wazuh_dashboard_security.Browser.Telemetry.{metrics_request}
use wazuh_dashboard_security.Browser.Sources.{FieldMapping}
use wazuh_dashboard_security.Browser.Detection
use wazuh_dashboard_security.Browser.Alerts
use wazuh_dashboard_security.Browser.Correlations
use wazuh_dashboard_security.Browser.Content
use wazuh_dashboard_security.Browser.Stored
use wazuh_dashboard_security.Browser.Integrations
use wazuh_dashboard_security.Browser.Sources
use wazuh_dashboard_security.Browser.ThreatIntel

-- What the methods are given. Where THREAT_INTEL_ENABLED guards a method it is taken to be set:
-- otherwise the method sends nothing.
pub record Given : Type 0 where
  pub id : String
  pub text : String
  pub other : String
  pub v : Json
  pub w : Json
  pub texts : List String
  pub choice : Option String
  pub second : Option String
  pub number : Option Json
  pub flag : Bool
  pub mappings : List FieldMapping
  pub counter : Counter

module _ (page : Page) (g : Given) where
  unfoldable pub detection_asks : List (Exchange × Handler)
  detection_asks =
      (Detection.create_detector page g.v, client ClientHandler.on_create_detector)
      ∷ (Detection.get_detectors page g.v, client ClientHandler.on_search_detectors)
      ∷ (Detection.get_detector_with_id page g.text, client ClientHandler.on_search_detectors)
      ∷ (Detection.update_detector page g.id g.v, client ClientHandler.on_update_detector)
      ∷ (Detection.delete_detector page g.id, client ClientHandler.on_delete_detector)
      ∷ []

  unfoldable pub alerts_asks : List (Exchange × Handler)
  alerts_asks =
      (Alerts.get_alerts page g.v, client ClientHandler.on_get_alerts)
      ∷ (Alerts.acknowledge_alerts page g.texts g.id, client ClientHandler.on_acknowledge_alerts)
      ∷ (
        Alerts.get_threat_intel_alerts page true g.v,
        client ClientHandler.on_get_threat_intel_alerts,
      )
      ∷ (
        Alerts.update_threat_intel_alerts_state page true g.text g.texts,
        client ClientHandler.on_update_threat_intel_alerts_state,
      )
      ∷ (Alerts.get_findings page g.v, client ClientHandler.on_get_findings)
      ∷ (
        Alerts.get_threat_intel_findings page true g.v,
        client ClientHandler.on_get_threat_intel_findings,
      )
      ∷ []

  unfoldable pub correlations_asks : List (Exchange × Handler)
  correlations_asks =
      (
        Correlations.acknowledge_correlation_alerts page g.v,
        client ClientHandler.on_acknowledge_correlation_alerts,
      )
      ∷ (
        Correlations.get_correlation_alerts page,
        client ClientHandler.on_get_all_correlation_alerts,
      )
      ∷ (
        Correlations.get_correlated_findings page g.text g.other g.number,
        client ClientHandler.on_get_correlated_findings,
      )
      ∷ (
        Correlations.get_correlation_rules page g.choice g.v,
        client ClientHandler.on_get_correlation_rules,
      )
      ∷ (
        Correlations.create_correlation_rule page g.v,
        client ClientHandler.on_create_correlation_rule,
      )
      ∷ (
        Correlations.update_correlation_rule page g.id g.v,
        client ClientHandler.on_update_correlation_rule,
      )
      ∷ (
        Correlations.delete_correlation_rule page g.id,
        client ClientHandler.on_delete_correlation_rule,
      )
      ∷ (
        Correlations.get_all_correlations_in_time_window page g.text g.other,
        client ClientHandler.on_get_all_correlations_in_time_range,
      )
      ∷ (Correlations.create_log_type page g.v, client ClientHandler.on_create_log_type)
      ∷ (Correlations.search_log_types page g.choice, client ClientHandler.on_search_log_types)
      ∷ (Correlations.update_log_type page g.id g.v, client ClientHandler.on_update_log_type)
      ∷ (Correlations.delete_log_type page g.id, client ClientHandler.on_delete_log_type)
      ∷ (Correlations.get_rules page g.flag g.v g.choice, client ClientHandler.on_get_rules)
      ∷ (Correlations.create_rule page g.v, client ClientHandler.on_create_rule)
      ∷ (Correlations.update_rule page g.id g.v, client ClientHandler.on_update_rule)
      ∷ (Correlations.delete_rule page g.id, client ClientHandler.on_delete_rule)
      ∷ []

  unfoldable pub content_asks : List (Exchange × Handler)
  content_asks =
      (Content.search_decoders page g.v g.w, client ClientHandler.on_search_decoders)
      ∷ (Content.get_decoder page g.id g.v, client ClientHandler.on_get_decoder)
      ∷ (Content.create_decoder page g.v g.w, client ClientHandler.on_create_decoder)
      ∷ (Content.update_decoder page g.id g.v, client ClientHandler.on_update_decoder)
      ∷ (Content.delete_decoder page g.id, client ClientHandler.on_delete_decoder)
      ∷ (Content.get_draft_integrations page, client ClientHandler.on_get_draft_integrations)
      ∷ (Content.search_filters page g.v, client ClientHandler.on_search_filters)
      ∷ (Content.create_filter page g.v, client ClientHandler.on_create_filter)
      ∷ (Content.update_filter page g.id g.v, client ClientHandler.on_update_filter)
      ∷ (Content.delete_filter page g.id, client ClientHandler.on_delete_filter)
      ∷ (Content.execute_log_test page g.v, client ClientHandler.on_log_test)
      ∷ []

  unfoldable pub stored_asks : List (Exchange × Handler)
  stored_asks =
      (Stored.search_kvdbs page g.v, client ClientHandler.on_search_kvdbs)
      ∷ (Stored.search_integrations page g.texts, client ClientHandler.on_search_kvdb_integrations)
      ∷ (Stored.create_kvdb page g.v, client ClientHandler.on_create_kvdb)
      ∷ (Stored.update_kvdb page g.id g.v, client ClientHandler.on_update_kvdb)
      ∷ (Stored.delete_kvdb page g.id, client ClientHandler.on_delete_kvdb)
      ∷ (Stored.search_policies page g.text g.v, client ClientHandler.on_search_policies)
      ∷ (Stored.get_policy page g.id, client ClientHandler.on_get_policy)
      ∷ (Stored.update_policy page g.id g.v, client ClientHandler.on_update_policy)
      ∷ (Stored.delete_space page g.id, client ClientHandler.on_delete_space)
      ∷ []

  unfoldable pub integrations_asks : List (Exchange × Handler)
  integrations_asks =
      (Integrations.create_integration page g.v, client ClientHandler.on_create_integration)
      ∷ (
        Integrations.search_integrations page g.choice g.second,
        client ClientHandler.on_search_integrations,
      )
      ∷ (Integrations.update_integration page g.id g.v, client ClientHandler.on_update_integration)
      ∷ (Integrations.delete_integration page g.id, client ClientHandler.on_delete_integration)
      ∷ (
        Integrations.get_promote_integration page g.id,
        client ClientHandler.on_get_promote_by_space,
      )
      ∷ (Integrations.promote_integration page g.v, client ClientHandler.on_promote_integration)
      ∷ []

  unfoldable pub sources_asks : List (Exchange × Handler)
  sources_asks =
      (Sources.get_index_fields page g.text, client ClientHandler.on_get_index_fields)
      ∷ (Sources.get_indices page, client ClientHandler.on_get_indices)
      ∷ (Sources.get_aliases page, client ClientHandler.on_get_aliases)
      ∷ (Sources.update_aliases page g.v, client ClientHandler.on_update_aliases)
      ∷ (Sources.get_mappings_view page g.text g.v, client ClientHandler.on_get_mappings_view)
      ∷ (
        Sources.create_mappings page g.text g.other g.mappings,
        client ClientHandler.on_create_mappings,
      )
      ∷ (Sources.get_mappings page g.text, client ClientHandler.on_get_mappings)
      ∷ (Sources.get_index_alias_fields page g.id, client ClientHandler.on_get_index_alias_fields)
      ∷ (Sources.get_channel page g.id, client ClientHandler.on_get_channel)
      ∷ (Sources.get_channels page, client ClientHandler.on_get_channels)
      ∷ (Sources.get_server_features page, client ClientHandler.on_get_notifications_features)
      ∷ (Sources.get_plugins page, client ClientHandler.on_get_plugins)
      ∷ (Sources.get_documents page g.text g.texts, client ClientHandler.on_document_ids_query)
      ∷ []

  unfoldable pub threat_intel_asks : List (Exchange × Handler)
  threat_intel_asks =
      (
        ThreatIntel.add_threat_intel_source page g.v,
        client ClientHandler.on_add_threat_intel_source,
      )
      ∷ (
        ThreatIntel.update_threat_intel_source page g.id g.v,
        client ClientHandler.on_update_threat_intel_source,
      )
      ∷ (
        ThreatIntel.search_threat_intel_source page,
        client ClientHandler.on_search_threat_intel_sources,
      )
      ∷ (
        ThreatIntel.get_threat_intel_source page g.id,
        client ClientHandler.on_get_threat_intel_source,
      )
      ∷ (
        ThreatIntel.delete_threat_intel_source page g.id,
        client ClientHandler.on_delete_threat_intel_source,
      )
      ∷ (
        ThreatIntel.refresh_threat_intel_source page g.id,
        client ClientHandler.on_refresh_threat_intel_source,
      )
      ∷ (
        ThreatIntel.create_threat_intel_monitor page g.v,
        client ClientHandler.on_create_threat_intel_monitor,
      )
      ∷ (
        ThreatIntel.update_threat_intel_monitor page g.id g.v,
        client ClientHandler.on_update_threat_intel_monitor,
      )
      ∷ (
        ThreatIntel.delete_threat_intel_monitor page g.id,
        client ClientHandler.on_delete_threat_intel_monitor,
      )
      ∷ (
        ThreatIntel.get_threat_intel_scan_config page,
        client ClientHandler.on_search_threat_intel_monitors,
      )
      ∷ (ThreatIntel.get_threat_intel_iocs page g.v, client ClientHandler.on_get_threat_intel_iocs)
      ∷ []

  unfoldable pub telemetry_asks : List (Exchange × Handler)
  telemetry_asks = (ask (metrics_request page g.counter), Handler.on_update_metrics) ∷ []

  -- All of them, service by service.
  unfoldable pub asked : List (List (Exchange × Handler))
  unfolding detection_asks alerts_asks correlations_asks content_asks stored_asks integrations_asks
      sources_asks threat_intel_asks telemetry_asks
  asked =
      detection_asks ∷ alerts_asks ∷ correlations_asks ∷ content_asks ∷ stored_asks
      ∷ integrations_asks ∷ sources_asks ∷ threat_intel_asks ∷ telemetry_asks ∷ []
