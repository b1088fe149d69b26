-- ===== src/Server/LogTypes.antt =====
-- server/services/LogTypeService.ts: every handler of the class.
pub mod Replies
use wazuh_dashboard_security.Base.{Bool, [], ◌∷◌}
use wazuh_dashboard_security.Json.{Json, num, object, nullish}
use wazuh_dashboard_security.Server.Client.{
  Host, Request, Reply, succeed, Action, pure, get_client, ◌>>=◌, call, get, error_message, handle,
}
use wazuh_dashboard_security.Server.Forward.{forward}

module _ (data_source_enabled : Bool) (host : Host) where
  unfoldable pub create_log_type : Request → Action Reply
  create_log_type request =
      handle
        (forward host (get_client data_source_enabled request) "securityAnalytics.createLogType"
          (object (("body", request.body) ∷ [])))
        (error_message host)

  unfoldable pub search_log_types : Request → Action Reply
  search_log_types request =
      handle
        (forward host (get_client data_source_enabled request) "securityAnalytics.searchLogTypes" (
          object (
            (
              "body",
              object (
                  ("size", num 10000)
                  ∷ ("query", nullish request.body (object (("match_all", object []) ∷ [])))
                  ∷ []),
            )
            ∷ [])))
        (error_message host)

  unfoldable pub update_log_type : Request → Action Reply
  update_log_type request =
      handle
        (do
          log_type_id ← get host request.params "logTypeId"
          forward host (get_client data_source_enabled request) "securityAnalytics.updateLogType"
              (object (("body", request.body) ∷ ("logTypeId", log_type_id) ∷ [])))
        (error_message host)

  unfoldable pub delete_log_type : Request → Action Reply
  delete_log_type request =
      handle
        (do
          log_type_id ← get host request.params "logTypeId"
          forward host (get_client data_source_enabled request) "securityAnalytics.deleteLogType"
              (object (("logTypeId", log_type_id) ∷ [])))
        (error_message host)
