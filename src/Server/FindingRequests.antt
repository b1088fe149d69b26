-- ===== src/Server/FindingRequests.antt =====
-- server/services/FindingsService.ts: every handler of the class. getFindings writes to the
-- findings of the answer before it replies with it.
pub mod Replies
pub mod Labels
use wazuh_dashboard_security.Base.{
  Bool, true, false, not, String, List, [], ◌∷◌, ◌++◌, if◌then◌else◌,
}
use wazuh_dashboard_security.Json.{
  Json, str, obj, array, Fields, end, opt, omit, spread, assign, set_field,
}
use wazuh_dashboard_security.Json.Text.{is_prefix}
use wazuh_dashboard_security.Server.Client.{
  Host, Request, Reply, succeed, Action, pure, raise, get_client, ◌>>=◌, call, get, each, map_each,
  error_message, handle,
}
use wazuh_dashboard_security.Server.Forward.{forward}

-- types.join(', ')
abbrev pub detection_type : (all some : Bool) → String
detection_type true true = "Threat intelligence"
detection_type true false = ""
detection_type false true = "Rules, Threat intelligence"
detection_type false false = "Rules"

unfoldable pub label : (all some : Bool) → Json → Json
unfolding set_field
label all true finding = obj (
    set_field "detectionType" (str (detection_type all true))
      (set_field "ruleSeverity" (str "high") (spread finding)))
label all false finding =
    obj (set_field "detectionType" (str (detection_type all false)) (spread finding))

module _ (host : Host) where
  abbrev pub starts : Json → Action Bool
  starts (str id) = pure (is_prefix "threat_intel_" id)
  starts _ = raise host.type_error

  -- query.id.startsWith('threat_intel_')
  unfoldable pub is_threat_intel : Json → Action Bool
  unfolding is_prefix
  is_threat_intel query = do id ← get host query "id"; starts id

  -- queries.every and queries.some, which ask no more than they must.
  unfoldable pub every_threat_intel : List Json → Action Bool
  unfolding is_threat_intel
  every_threat_intel [] = pure true
  every_threat_intel (q ∷ qs) = do
    b ← is_threat_intel q
    if b then every_threat_intel qs else pure false

  unfoldable pub some_threat_intel : List Json → Action Bool
  unfolding is_threat_intel
  some_threat_intel [] = pure false
  some_threat_intel (q ∷ qs) = do
    b ← is_threat_intel q
    if b then pure true else some_threat_intel qs

  unfoldable pub labelled : Json → Action Json
  unfolding every_threat_intel some_threat_intel label
  labelled finding = do
    queries ← get host finding "queries"
    qs ← each host queries
    all ← every_threat_intel qs
    some ← some_threat_intel qs
    pure (label all some finding)

module _ (data_source_enabled : Bool) (host : Host) where
  unfoldable pub get_findings : Request → Action Reply
  unfolding labelled
  get_findings request =
      handle
        (do
          response ←
              call host (get_client data_source_enabled request) "securityAnalytics.getFindings"
                (obj (omit "dataSourceId" (spread request.query)))
          findings ← get host response "findings"
          listed ← each host findings
          marked ← map_each host (labelled host) listed
          pure (succeed (obj (set_field "findings" (array marked) (spread response)))))
        (error_message host)

  unfoldable pub get_threat_intel_findings : Request → Action Reply
  get_threat_intel_findings request =
      handle
        (forward host (get_client data_source_enabled request)
          "securityAnalytics.getThreatIntelFindings"
          (obj (omit "dataSourceId" (spread request.query))))
        (error_message host)
