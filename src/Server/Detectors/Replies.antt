-- ===== src/Server/Detectors/Replies.antt =====
-- The replies of DetectorService, server/services/DetectorService.ts.
use wazuh_dashboard_security.Base.{Bool}
use wazuh_dashboard_security.Server.Client.{Host, IsRegular, Request}
use wazuh_dashboard_security.Server.Safe.{
  IsTotal, handle-IsTotal, safe_rules, error_message-IsTotal,
}
use wazuh_dashboard_security.Server.Forward.{forward-IsSafe}
use wazuh_dashboard_security.Server.Detectors.{
  create_detector, get_detector, search_detectors, delete_detector, update_detector,
}

module _ {host : Host} (regular : IsRegular host) where
  pub detector_handlers-IsTotal :
      (enabled : Bool) (request : Request)
      → IsTotal (create_detector enabled host request)
        × IsTotal (get_detector enabled host request)
        × IsTotal (search_detectors enabled host request)
        × IsTotal (delete_detector enabled host request)
        × IsTotal (update_detector enabled host request)
  unfolding create_detector get_detector search_detectors delete_detector update_detector
  detector_handlers-IsTotal enabled request =
      let message = error_message-IsTotal regular in
      (
        handle-IsTotal _ _ (search (tt, regular, forward-IsSafe) depth 16) message,
        handle-IsTotal _ _ (search (tt, safe_rules, regular, forward-IsSafe) depth 16) message,
        handle-IsTotal _ _ (search (tt, safe_rules, regular, forward-IsSafe) depth 16) message,
        handle-IsTotal _ _ (search (tt, safe_rules, regular, forward-IsSafe) depth 16) message,
        handle-IsTotal _ _ (search (tt, safe_rules, regular, forward-IsSafe) depth 16) message,
      )
