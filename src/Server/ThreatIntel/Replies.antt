-- ===== src/Server/ThreatIntel/Replies.antt =====
-- The replies of ThreatIntelService, server/services/ThreatIntelService.ts.
use wazuh_dashboard_security.Base.{Bool}
use wazuh_dashboard_security.Server.Client.{Host, IsRegular, Request}
use wazuh_dashboard_security.Server.Safe.{
  IsTotal, handle-IsTotal, safe_rules, error_message-IsTotal,
}
use wazuh_dashboard_security.Server.Forward.{forward-IsSafe}
use wazuh_dashboard_security.Server.ThreatIntel.{
  source_item, add_threat_intel_source, update_threat_intel_source, get_threat_intel_source,
  search_threat_intel_sources, delete_threat_intel_source, refresh_threat_intel_source,
  get_threat_intel_iocs, create_threat_intel_monitor, update_threat_intel_monitor,
  search_threat_intel_monitors, delete_threat_intel_monitor,
}

module _ {host : Host} (regular : IsRegular host) where
  pub threat_intel_handlers-IsTotal :
      (enabled : Bool) (request : Request)
      → IsTotal (add_threat_intel_source enabled host request)
        × IsTotal (update_threat_intel_source enabled host request)
        × IsTotal (get_threat_intel_source enabled host request)
        × IsTotal (search_threat_intel_sources enabled host request)
        × IsTotal (delete_threat_intel_source enabled host request)
        × IsTotal (refresh_threat_intel_source enabled host request)
        × IsTotal (get_threat_intel_iocs enabled host request)
        × IsTotal (create_threat_intel_monitor enabled host request)
        × IsTotal (update_threat_intel_monitor enabled host request)
        × IsTotal (search_threat_intel_monitors enabled host request)
        × IsTotal (delete_threat_intel_monitor enabled host request)
  unfolding source_item add_threat_intel_source update_threat_intel_source get_threat_intel_source
      search_threat_intel_sources delete_threat_intel_source refresh_threat_intel_source
      get_threat_intel_iocs create_threat_intel_monitor update_threat_intel_monitor
      search_threat_intel_monitors delete_threat_intel_monitor
  threat_intel_handlers-IsTotal enabled request =
      let message = error_message-IsTotal regular in
      (
        handle-IsTotal _ _ (search (tt, safe_rules, regular) depth 16) message,
        handle-IsTotal _ _ (search (tt, safe_rules, regular) depth 16) message,
        handle-IsTotal _ _ (search (tt, safe_rules, regular) depth 16) message,
        handle-IsTotal _ _ (search (tt, safe_rules, regular) depth 16) message,
        handle-IsTotal _ _ (search (tt, safe_rules, regular, forward-IsSafe) depth 16) message,
        handle-IsTotal _ _ (search (tt, safe_rules, regular, forward-IsSafe) depth 16) message,
        handle-IsTotal _ _ (search (tt, regular, forward-IsSafe) depth 16) message,
        handle-IsTotal _ _ (search (tt, regular, forward-IsSafe) depth 16) message,
        handle-IsTotal _ _ (search (tt, safe_rules, regular, forward-IsSafe) depth 16) message,
        handle-IsTotal _ _ (search (tt, regular, forward-IsSafe) depth 16) message,
        handle-IsTotal _ _ (search (tt, safe_rules, regular, forward-IsSafe) depth 16) message,
      )
