-- ===== src/Server/Notifications.antt =====
-- server/services/NotificationsService.ts: every handler of the class.
pub mod Replies
use wazuh_dashboard_security.Base.{Bool, [], ◌∷◌}
use wazuh_dashboard_security.Json.{Json, undefined, object}
use wazuh_dashboard_security.Server.Client.{
  Host, Request, Reply, succeed, Action, pure, get_client, ◌>>=◌, call, get, error_message, handle,
}
use wazuh_dashboard_security.Server.Forward.{forward}

module _ (data_source_enabled : Bool) (host : Host) where
  unfoldable pub get_channel : Request → Action Reply
  get_channel request =
      handle
        (do
          id ← get host request.params "id"
          forward host (get_client data_source_enabled request) "securityAnalytics.getChannel"
              (object (("id", id) ∷ [])))
        (error_message host)

  unfoldable pub get_channels : Request → Action Reply
  get_channels request =
      handle
        (forward host (get_client data_source_enabled request) "securityAnalytics.getChannels"
          (undefined))
        (error_message host)

  unfoldable pub get_notifications_features : Request → Action Reply
  get_notifications_features request =
      handle
        (do
          response ←
              call host (get_client data_source_enabled request) "securityAnalytics.getFeatures"
                (undefined)
          types ← get host response "allowed_config_type_list"
          pure (succeed types))
        (error_message host)
