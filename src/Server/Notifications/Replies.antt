-- ===== src/Server/Notifications/Replies.antt =====
-- The replies of NotificationsService, server/services/NotificationsService.ts.
use wazuh_dashboard_security.Base.{Bool}
use wazuh_dashboard_security.Server.Client.{Host, IsRegular, Request}
use wazuh_dashboard_security.Server.Safe.{
  IsTotal, handle-IsTotal, safe_rules, error_message-IsTotal,
}
use wazuh_dashboard_security.Server.Forward.{forward-IsSafe}
use wazuh_dashboard_security.Server.Notifications.{
  get_channel, get_channels, get_notifications_features,
}

module _ {host : Host} (regular : IsRegular host) where
  pub notification_handlers-IsTotal :
      (enabled : Bool) (request : Request)
      → IsTotal (get_channel enabled host request)
        × IsTotal (get_channels enabled host request)
        × IsTotal (get_notifications_features enabled host request)
  unfolding get_channel get_channels get_notifications_features
  notification_handlers-IsTotal enabled request =
      let message = error_message-IsTotal regular in
      (
        handle-IsTotal _ _ (search (tt, safe_rules, regular, forward-IsSafe) depth 16) message,
        handle-IsTotal _ _ (search (tt, regular, forward-IsSafe) depth 16) message,
        handle-IsTotal _ _ (search (tt, safe_rules, regular) depth 16) message,
      )
