-- ===== src/Server/AlertRequests.antt =====
-- server/services/AlertService.ts: every handler of the class.
pub mod Replies
use wazuh_dashboard_security.Base.{Bool, [], ◌∷◌}
use wazuh_dashboard_security.Json.{Json, str, object, opt, truthy}
use wazuh_dashboard_security.Server.Client.{
  Host, Request, Reply, succeed, Action, pure, get_client, ◌>>=◌, call, get, error_message, handle,
}
use wazuh_dashboard_security.Server.Forward.{forward}
use wazuh_dashboard_security.Base.{◌++◌, if◌then◌else◌}
use wazuh_dashboard_security.Server.Client.{raise}

abbrev pub invalid_params : Json
invalid_params =
    object
      (("message", str "Invalid request params: detectorId or detectorType must be specified") ∷ [])

module _ (data_source_enabled : Bool) (host : Host) where
  unfoldable pub get_alerts : Request → Action Reply
  get_alerts request =
      handle
        (do
          detector_type ← get host request.query "detectorType"
          let detector_id = opt request.query "detector_id"
          let default_params =
              ("sortOrder", opt request.query "sortOrder")
              ∷ ("size", opt request.query "size")
              ∷ ("startTime", opt request.query "startTime")
              ∷ ("endTime", opt request.query "endTime")
              ∷ []
          let target = get_client data_source_enabled request
          if truthy detector_id
              then forward host target "securityAnalytics.getAlerts"
                  (object (default_params ++ ("detector_id", detector_id) ∷ []))
              else (if truthy detector_type
                  then forward host target "securityAnalytics.getAlerts"
                      (object (default_params ++ ("detectorType", detector_type) ∷ []))
                  else raise invalid_params))
        (error_message host)

  unfoldable pub acknowledge_alerts : Request → Action Reply
  acknowledge_alerts request =
      handle
        (do
          detector_id ← get host request.params "detector_id"
          alerts ← get host request.body "alerts"
          forward host (get_client data_source_enabled request)
              "securityAnalytics.acknowledgeAlerts"
              (object
                (("body", object (("alerts", alerts) ∷ [])) ∷ ("detector_id", detector_id) ∷ [])))
        (error_message host)

  unfoldable pub get_threat_intel_alerts : Request → Action Reply
  get_threat_intel_alerts request =
      handle
        (do
          sort_order ← get host request.query "sortOrder"
          forward host (get_client data_source_enabled request)
              "securityAnalytics.getThreatIntelAlerts"
              (object (
                ("sortOrder", sort_order)
                ∷ ("size", opt request.query "size")
                ∷ ("startIndex", opt request.query "startIndex")
                ∷ ("startTime", opt request.query "startTime")
                ∷ ("endTime", opt request.query "endTime")
                ∷ [])))
        (error_message host)

  unfoldable pub update_threat_intel_alerts_state : Request → Action Reply
  update_threat_intel_alerts_state request =
      handle
        (do
          state ← get host request.query "state"
          forward host (get_client data_source_enabled request)
              "securityAnalytics.updateThreatIntelAlertsStatus"
              (object (("state", state) ∷ ("alert_ids", opt request.query "alert_ids") ∷ [])))
        (error_message host)
