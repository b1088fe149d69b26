-- ===== src/Server/Detectors.antt =====
-- server/services/DetectorService.ts: every handler of the class.
pub mod Replies
use wazuh_dashboard_security.Base.{Bool, [], ◌∷◌}
use wazuh_dashboard_security.Json.{Json, num, object}
use wazuh_dashboard_security.Server.Client.{
  Host, Request, Reply, succeed, Action, pure, get_client, ◌>>=◌, call, get, error_message, handle,
}
use wazuh_dashboard_security.Server.Forward.{forward}

module _ (data_source_enabled : Bool) (host : Host) where
  unfoldable pub create_detector : Request → Action Reply
  create_detector request =
      handle
        (forward host (get_client data_source_enabled request) "securityAnalytics.createDetector"
          (object (("body", request.body) ∷ [])))
        (error_message host)

  unfoldable pub get_detector : Request → Action Reply
  get_detector request =
      handle
        (do
          detector_id ← get host request.params "detectorId"
          forward host (get_client data_source_enabled request) "securityAnalytics.getDetector"
              (object (("detectorId", detector_id) ∷ [])))
        (error_message host)

  unfoldable pub search_detectors : Request → Action Reply
  search_detectors request =
      handle
        (do
          query ← get host request.body "query"
          forward host (get_client data_source_enabled request) "securityAnalytics.searchDetectors"
              (object (("body", object (("size", num 10000) ∷ ("query", query) ∷ [])) ∷ [])))
        (error_message host)

  unfoldable pub delete_detector : Request → Action Reply
  delete_detector request =
      handle
        (do
          detector_id ← get host request.params "detectorId"
          forward host (get_client data_source_enabled request) "securityAnalytics.deleteDetector"
              (object (("detectorId", detector_id) ∷ [])))
        (error_message host)

  unfoldable pub update_detector : Request → Action Reply
  update_detector request =
      handle
        (do
          detector_id ← get host request.params "detectorId"
          forward host (get_client data_source_enabled request) "securityAnalytics.updateDetector"
              (object (("body", request.body) ∷ ("detectorId", detector_id) ∷ [])))
        (error_message host)
