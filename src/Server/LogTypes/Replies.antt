-- ===== src/Server/LogTypes/Replies.antt =====
-- The replies of LogTypeService, server/services/LogTypeService.ts.
use wazuh_dashboard_security.Base.{Bool}
use wazuh_dashboard_security.Server.Client.{Host, IsRegular, Request}
use wazuh_dashboard_security.Server.Safe.{
  IsTotal, handle-IsTotal, safe_rules, error_message-IsTotal,
}
use wazuh_dashboard_security.Server.Forward.{forward-IsSafe}
use wazuh_dashboard_security.Server.LogTypes.{
  create_log_type, search_log_types, update_log_type, delete_log_type,
}

module _ {host : Host} (regular : IsRegular host) where
  pub log_type_handlers-IsTotal :
      (enabled : Bool) (request : Request)
      → IsTotal (create_log_type enabled host request)
        × IsTotal (search_log_types enabled host request)
        × IsTotal (update_log_type enabled host request)
        × IsTotal (delete_log_type enabled host request)
  unfolding create_log_type search_log_types update_log_type delete_log_type
  log_type_handlers-IsTotal enabled request =
      let message = error_message-IsTotal regular in
      (
        handle-IsTotal _ _ (search (tt, regular, forward-IsSafe) depth 16) message,
        handle-IsTotal _ _ (search (tt, regular, forward-IsSafe) depth 16) message,
        handle-IsTotal _ _ (search (tt, safe_rules, regular, forward-IsSafe) depth 16) message,
        handle-IsTotal _ _ (search (tt, safe_rules, regular, forward-IsSafe) depth 16) message,
      )
