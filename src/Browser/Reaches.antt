-- ===== src/Browser/Reaches.antt =====
-- Every request of the services is one that the routes of the server answer.
use wazuh_dashboard_security.Base.{String, List, [], ◌∷◌, refl, arith, All}
use wazuh_dashboard_security.Server.Routes.Table.{routes}
use wazuh_dashboard_security.Server.Routes.Matching.{fitting, answers, matches}
use wazuh_dashboard_security.Browser.{Page}
use wazuh_dashboard_security.Browser.Paths.{IsSegment, is_segment, are_plain, path_text, IsResolver}
use wazuh_dashboard_security.Browser.Answered.{
  handlers, Reaches, under, id-nonempty, at_path, at_item,
}
use wazuh_dashboard_security.Browser.Asked.{
  Given, asked, telemetry_asks, detection_asks, alerts_asks, correlations_asks, content_asks,
  stored_asks, integrations_asks, sources_asks, threat_intel_asks,
}
use wazuh_dashboard_security.Browser.Telemetry.{metrics_request}
use wazuh_dashboard_security.Browser.Detection
use wazuh_dashboard_security.Browser.Alerts
use wazuh_dashboard_security.Browser.Correlations
use wazuh_dashboard_security.Browser.Content
use wazuh_dashboard_security.Browser.Stored
use wazuh_dashboard_security.Browser.Integrations
use wazuh_dashboard_security.Browser.Sources
use wazuh_dashboard_security.Browser.ThreatIntel
use text.Mathlib.TextLemmas.{append_assoc, append-nil}
use wazuh_dashboard_security.Browser.Urls.{ends_refresh, ends_alerts, log_test-reach, decoder-reach}

infixr 4 ◌▹◌
abbrev ◌▹◌ : {A : Type 0} {B : Type 0} → A → B → A × B
a ▹ b = (a, b)

module _ (resolve : String → List String) (resolver : IsResolver resolve) (page : Page) (g : Given)
    (good : IsSegment g.id) where
  detection-reach : All (Reaches resolve) (detection_asks page g)
  unfolding handlers fitting answers matches routes is_segment are_plain path_text detection_asks
      Detection.create_detector Detection.get_detectors Detection.get_detector_with_id
      Detection.update_detector Detection.delete_detector
  detection-reach =
      at_path resolve resolver (under ("detectors" ∷ [])) refl refl refl
      ▹ at_path resolve resolver (under ("detectors" ∷ "_search" ∷ [])) refl refl refl
      ▹ at_path resolve resolver (under ("detectors" ∷ "_search" ∷ [])) refl refl refl
      ▹ at_item resolve resolver ("detectors" ∷ []) g.id refl good refl (λ e. rw e refl)
      ▹ at_item resolve resolver ("detectors" ∷ []) g.id refl good refl (λ e. rw e refl)
      ▹ tt

  alerts-reach : All (Reaches resolve) (alerts_asks page g)
  unfolding handlers fitting answers matches routes is_segment are_plain path_text Alerts.replace
      alerts_asks Alerts.get_alerts Alerts.acknowledge_alerts Alerts.get_threat_intel_alerts
      Alerts.update_threat_intel_alerts_state Alerts.get_findings Alerts.get_threat_intel_findings
  alerts-reach =
      at_path resolve resolver (under ("alerts" ∷ [])) refl refl refl
      ▹ at_path resolve resolver (under ("detectors" ∷ g.id ∷ "_acknowledge" ∷ "alerts" ∷ []))
          (rw good refl) (simp (← append_assoc, append-nil, ends_alerts))
          (ground (arith, id-nonempty g.id good))
      ▹ at_path resolve resolver (under ("threat_intel" ∷ "alerts" ∷ [])) refl refl refl
      ▹ at_path resolve resolver (under ("threat_intel" ∷ "alerts" ∷ "status" ∷ [])) refl refl refl
      ▹ at_path resolve resolver (under ("findings" ∷ "_search" ∷ [])) refl refl refl
      ▹ at_path resolve resolver (under ("threat_intel" ∷ "findings" ∷ "_search" ∷ [])) refl refl
          refl
      ▹ tt

  correlations-reach : All (Reaches resolve) (correlations_asks page g)
  unfolding handlers fitting answers matches routes is_segment are_plain path_text correlations_asks
      Correlations.acknowledge_correlation_alerts Correlations.get_correlation_alerts
      Correlations.get_correlated_findings Correlations.get_correlation_rules
      Correlations.create_correlation_rule Correlations.update_correlation_rule
      Correlations.delete_correlation_rule Correlations.get_all_correlations_in_time_window
      Correlations.create_log_type Correlations.search_log_types Correlations.update_log_type
      Correlations.delete_log_type Correlations.get_rules Correlations.create_rule
      Correlations.update_rule Correlations.delete_rule
  correlations-reach =
      at_path resolve resolver (under ("_acknowledge" ∷ "correlationAlerts" ∷ [])) refl refl refl
      ▹ at_path resolve resolver (under ("correlationAlerts" ∷ [])) refl refl refl
      ▹ at_path resolve resolver (under ("findings" ∷ "correlate" ∷ [])) refl refl refl
      ▹ at_path resolve resolver (under ("correlation" ∷ "rules" ∷ "_search" ∷ [])) refl refl refl
      ▹ at_path resolve resolver (under ("correlation" ∷ "rules" ∷ [])) refl refl refl
      ▹ at_item resolve resolver ("correlation" ∷ "rules" ∷ []) g.id refl good refl (λ e. rw e refl)
      ▹ at_item resolve resolver ("correlation" ∷ "rules" ∷ []) g.id refl good refl (λ e. rw e refl)
      ▹ at_path resolve resolver (under ("correlations" ∷ [])) refl refl refl
      ▹ at_path resolve resolver (under ("logtype" ∷ [])) refl refl refl
      ▹ at_path resolve resolver (under ("logtype" ∷ "_search" ∷ [])) refl refl refl
      ▹ at_item resolve resolver ("logtype" ∷ []) g.id refl good refl (λ e. rw e refl)
      ▹ at_item resolve resolver ("logtype" ∷ []) g.id refl good refl (λ e. rw e refl)
      ▹ at_path resolve resolver (under ("rules" ∷ "_search" ∷ [])) refl refl refl
      ▹ at_path resolve resolver (under ("rules" ∷ [])) refl refl refl
      ▹ at_item resolve resolver ("rules" ∷ []) g.id refl good refl (λ e. rw e refl)
      ▹ at_item resolve resolver ("rules" ∷ []) g.id refl good refl (λ e. rw e refl)
      ▹ tt

  content-reach : All (Reaches resolve) (content_asks page g)
  unfolding handlers fitting answers matches routes is_segment are_plain path_text content_asks
      Content.search_decoders Content.create_decoder Content.update_decoder Content.delete_decoder
      Content.get_draft_integrations Content.search_filters Content.create_filter
      Content.update_filter Content.delete_filter
  content-reach =
      at_path resolve resolver (under ("decoders" ∷ "_search" ∷ [])) refl refl refl
      ▹ decoder-reach resolve resolver page g.id g.v good
      ▹ at_path resolve resolver (under ("decoders" ∷ [])) refl refl refl
      ▹ at_item resolve resolver ("decoders" ∷ []) g.id refl good refl (λ e. rw e refl)
      ▹ at_item resolve resolver ("decoders" ∷ []) g.id refl good refl (λ e. rw e refl)
      ▹ at_path resolve resolver (under ("decoders" ∷ "integrations" ∷ "draft" ∷ [])) refl refl refl
      ▹ at_path resolve resolver (under ("filters" ∷ "_search" ∷ [])) refl refl refl
      ▹ at_path resolve resolver (under ("filters" ∷ [])) refl refl refl
      ▹ at_item resolve resolver ("filters" ∷ []) g.id refl good refl (λ e. rw e refl)
      ▹ at_item resolve resolver ("filters" ∷ []) g.id refl good refl (λ e. rw e refl)
      ▹ log_test-reach resolve resolver page g.v
      ▹ tt

  stored-reach : All (Reaches resolve) (stored_asks page g)
  unfolding handlers fitting answers matches routes is_segment are_plain path_text stored_asks
      Stored.search_kvdbs Stored.search_integrations Stored.create_kvdb Stored.update_kvdb
      Stored.delete_kvdb Stored.search_policies Stored.get_policy Stored.update_policy
      Stored.delete_space
  stored-reach =
      at_path resolve resolver (under ("kvdbs" ∷ "_search" ∷ [])) refl refl refl
      ▹ at_path resolve resolver (under ("kvdbs" ∷ "_integrations" ∷ [])) refl refl refl
      ▹ at_path resolve resolver (under ("kvdbs" ∷ [])) refl refl refl
      ▹ at_item resolve resolver ("kvdbs" ∷ []) g.id refl good refl (λ e. rw e refl)
      ▹ at_item resolve resolver ("kvdbs" ∷ []) g.id refl good refl (λ e. rw e refl)
      ▹ at_path resolve resolver (under ("policies" ∷ "_search" ∷ [])) refl refl refl
      ▹ at_item resolve resolver ("policies" ∷ []) g.id refl good refl (λ e. rw e refl)
      ▹ at_item resolve resolver ("policies" ∷ []) g.id refl good refl (λ e. rw e refl)
      ▹ at_item resolve resolver ("spaces" ∷ []) g.id refl good refl (λ e. rw e refl)
      ▹ tt

  integrations-reach : All (Reaches resolve) (integrations_asks page g)
  unfolding handlers fitting answers matches routes is_segment are_plain path_text integrations_asks
      Integrations.create_integration Integrations.search_integrations
      Integrations.update_integration Integrations.delete_integration
      Integrations.get_promote_integration Integrations.promote_integration
  integrations-reach =
      at_path resolve resolver (under ("integrations" ∷ [])) refl refl refl
      ▹ at_path resolve resolver (under ("integrations" ∷ "_search" ∷ [])) refl refl refl
      ▹ at_item resolve resolver ("integrations" ∷ []) g.id refl good refl (λ e. rw e refl)
      ▹ at_item resolve resolver ("integrations" ∷ []) g.id refl good refl (λ e. rw e refl)
      ▹ at_item resolve resolver ("integrations" ∷ "promote" ∷ []) g.id refl good refl
          (λ e. rw e refl)
      ▹ at_path resolve resolver (under ("integrations" ∷ "promote" ∷ [])) refl refl refl
      ▹ tt

  sources-reach : All (Reaches resolve) (sources_asks page g)
  unfolding handlers fitting answers matches routes is_segment are_plain path_text sources_asks
      Sources.get_index_fields Sources.get_indices Sources.get_aliases Sources.update_aliases
      Sources.get_mappings_view Sources.create_mappings Sources.get_mappings
      Sources.get_index_alias_fields Sources.get_channel Sources.get_channels
      Sources.get_server_features Sources.get_plugins Sources.get_documents
  sources-reach =
      at_path resolve resolver (under ("indices" ∷ [])) refl refl refl
      ▹ at_path resolve resolver (under ("indices" ∷ [])) refl refl refl
      ▹ at_path resolve resolver (under ("aliases" ∷ [])) refl refl refl
      ▹ at_path resolve resolver (under ("update_aliases" ∷ [])) refl refl refl
      ▹ at_path resolve resolver (under ("mappings" ∷ "view" ∷ [])) refl refl refl
      ▹ at_path resolve resolver (under ("mappings" ∷ [])) refl refl refl
      ▹ at_path resolve resolver (under ("mappings" ∷ [])) refl refl refl
      ▹ at_item resolve resolver ("mappings" ∷ "fields" ∷ []) g.id refl good refl (λ e. rw e refl)
      ▹ at_item resolve resolver ("_notifications" ∷ "channels" ∷ []) g.id refl good refl
          (λ e. rw e refl)
      ▹ at_path resolve resolver (under ("_notifications" ∷ "channels" ∷ [])) refl refl refl
      ▹ at_path resolve resolver (under ("_notifications" ∷ "features" ∷ [])) refl refl refl
      ▹ at_path resolve resolver (under ("_notifications" ∷ "plugins" ∷ [])) refl refl refl
      ▹ at_path resolve resolver (under ("document_ids_query" ∷ [])) refl refl refl
      ▹ tt

  threat_intel-reach : All (Reaches resolve) (threat_intel_asks page g)
  unfolding handlers fitting answers matches routes is_segment are_plain path_text threat_intel_asks
      ThreatIntel.add_threat_intel_source ThreatIntel.update_threat_intel_source
      ThreatIntel.search_threat_intel_source ThreatIntel.get_threat_intel_source
      ThreatIntel.delete_threat_intel_source ThreatIntel.refresh_threat_intel_source
      ThreatIntel.create_threat_intel_monitor ThreatIntel.update_threat_intel_monitor
      ThreatIntel.delete_threat_intel_monitor ThreatIntel.get_threat_intel_scan_config
      ThreatIntel.get_threat_intel_iocs
  threat_intel-reach =
      at_path resolve resolver (under ("threat_intel" ∷ "sources" ∷ [])) refl refl refl
      ▹ at_item resolve resolver ("threat_intel" ∷ "sources" ∷ []) g.id refl good refl
          (λ e. rw e refl)
      ▹ at_path resolve resolver (under ("threat_intel" ∷ "sources" ∷ "_search" ∷ [])) refl refl
          refl
      ▹ at_item resolve resolver ("threat_intel" ∷ "sources" ∷ []) g.id refl good refl
          (λ e. rw e refl)
      ▹ at_item resolve resolver ("threat_intel" ∷ "sources" ∷ []) g.id refl good refl
          (λ e. rw e refl)
      ▹ at_path resolve resolver (under ("threat_intel" ∷ "sources" ∷ g.id ∷ "_refresh" ∷ []))
          (rw good refl) (simp (← append_assoc, append-nil, ends_refresh))
          (ground (arith, id-nonempty g.id good))
      ▹ at_path resolve resolver (under ("threat_intel" ∷ "monitors" ∷ [])) refl refl refl
      ▹ at_item resolve resolver ("threat_intel" ∷ "monitors" ∷ []) g.id refl good refl
          (λ e. rw e refl)
      ▹ at_item resolve resolver ("threat_intel" ∷ "monitors" ∷ []) g.id refl good refl
          (λ e. rw e refl)
      ▹ at_path resolve resolver (under ("threat_intel" ∷ "monitors" ∷ "_search" ∷ [])) refl refl
          refl
      ▹ at_path resolve resolver (under ("threat_intel" ∷ "iocs" ∷ [])) refl refl refl
      ▹ tt

  telemetry-reach : All (Reaches resolve) (telemetry_asks page g)
  unfolding handlers fitting answers matches routes is_segment are_plain path_text telemetry_asks
      metrics_request
  telemetry-reach =
      at_path resolve resolver ("api" ∷ "security_analytics" ∷ "stats" ∷ []) refl refl refl ▹ tt

  -- Whatever a method of the services sends, once THREAT_INTEL_ENABLED is set, exactly one route of
  -- the server fits it: that of the handler that the method asks for. Ids, spaces and names of
  -- indices that stand in a url are to be segments of a path, and the url is to be read as
  -- IsResolver says.
  pub asked-Reaches : All (All (Reaches resolve)) (asked page g)
  unfolding asked
  asked-Reaches =
      detection-reach ▹ alerts-reach ▹ correlations-reach ▹ content-reach ▹ stored-reach
      ▹ integrations-reach ▹ sources-reach ▹ threat_intel-reach ▹ telemetry-reach ▹ tt
