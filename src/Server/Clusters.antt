-- ===== src/Server/Clusters.antt =====
-- server/clusters/securityAnalyticsPlugin.ts: the actions that the plugin adds to the client.
pub mod Action
mod Detection
mod Observation
mod Resources
mod Intelligence
mod ContentManager
use wazuh_dashboard_security.Base.{String, Bool, true, false, List, [], ◌∷◌, ◌++◌, ◌==◌, ◌||◌}
use wazuh_dashboard_security.Json.Text.{◌&◌}
use wazuh_dashboard_security.Server.Clusters.Action.{ClientAction}
use wazuh_dashboard_security.Server.Clusters.Detection.{
  add_detector_methods, add_correlation_methods,
}
use wazuh_dashboard_security.Server.Clusters.Observation.{
  add_field_mapping_methods, add_findings_methods, add_alerts_methods,
}
use wazuh_dashboard_security.Server.Clusters.Resources.{
  add_rules_methods, add_notifications_methods, add_log_type_methods,
}
use wazuh_dashboard_security.Server.Clusters.Intelligence.{add_threat_intel_methods}
use wazuh_dashboard_security.Server.Clusters.ContentManager.{
  add_integrations_methods, add_policies_methods, add_decoder_methods, add_kvdbs_methods,
  add_filters_methods, add_log_test_methods, add_wazuh_rules_methods,
}

-- In the order of securityAnalyticsPlugin.
abbrev pub security_analytics_actions : List ClientAction
security_analytics_actions =
    add_detector_methods ++ add_correlation_methods ++ add_field_mapping_methods
    ++ add_findings_methods ++ add_alerts_methods ++ add_rules_methods ++ add_notifications_methods
    ++ add_log_type_methods ++ add_threat_intel_methods ++ add_integrations_methods
    ++ add_policies_methods ++ add_decoder_methods ++ add_kvdbs_methods ++ add_filters_methods
    ++ add_log_test_methods ++ add_wazuh_rules_methods

-- The actions of the client itself that the services call.
abbrev pub core_actions : List String
core_actions =
    "search" ∷ "fieldCaps" ∷ "cat.indices" ∷ "cat.aliases" ∷ "cat.plugins"
    ∷ "indices.getFieldMapping" ∷ "indices.updateAliases" ∷ []

-- The paths of the added actions, below the property of the plugin.
abbrev pub action_paths : List ClientAction → List String
action_paths [] = []
action_paths (a ∷ rest) = ("securityAnalytics." & a.name) ∷ action_paths rest

abbrev pub is_one_of : String → List String → Bool
is_one_of path [] = false
is_one_of path (p ∷ ps) = path == p || is_one_of path ps

abbrev pub IsAnAction : Bool → Type 0
IsAnAction true = Unit
IsAnAction false = ⊥

-- The client has the action that is called.
abbrev pub IsDefined : String → Type 0
IsDefined path =
    IsAnAction (is_one_of path (core_actions ++ action_paths security_analytics_actions))
