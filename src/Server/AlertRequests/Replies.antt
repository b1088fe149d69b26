-- ===== src/Server/AlertRequests/Replies.antt =====
-- The replies of AlertService, server/services/AlertService.ts.
use wazuh_dashboard_security.Base.{Bool}
use wazuh_dashboard_security.Server.Client.{Host, IsRegular, Request}
use wazuh_dashboard_security.Server.Safe.{
  IsTotal, handle-IsTotal, safe_rules, raise-IsSafe, error_message-IsTotal,
}
use wazuh_dashboard_security.Server.Forward.{forward-IsSafe}
use wazuh_dashboard_security.Server.AlertRequests.{
  get_alerts, acknowledge_alerts, get_threat_intel_alerts, update_threat_intel_alerts_state,
}

module _ {host : Host} (regular : IsRegular host) where
  pub alert_handlers-IsTotal :
      (enabled : Bool) (request : Request)
      → IsTotal (get_alerts enabled host request)
        × IsTotal (acknowledge_alerts enabled host request)
        × IsTotal (get_threat_intel_alerts enabled host request)
        × IsTotal (update_threat_intel_alerts_state enabled host request)
  unfolding get_alerts acknowledge_alerts get_threat_intel_alerts update_threat_intel_alerts_state
  alert_handlers-IsTotal enabled request =
      let message = error_message-IsTotal regular in
      (
        handle-IsTotal _ _ (search (tt, safe_rules, regular, forward-IsSafe, raise-IsSafe) depth 16)
            message,
        handle-IsTotal _ _ (search (tt, safe_rules, regular, forward-IsSafe) depth 16) message,
        handle-IsTotal _ _ (search (tt, safe_rules, regular, forward-IsSafe) depth 16) message,
        handle-IsTotal _ _ (search (tt, safe_rules, regular, forward-IsSafe) depth 16) message,
      )
