-- ===== src/Server/Correlations.antt =====
-- server/services/CorrelationService.ts: every handler of the class.
pub mod Replies
use wazuh_dashboard_security.Base.{Bool, [], ◌∷◌}
use wazuh_dashboard_security.Json.{undefined, num, object, opt, default}
use wazuh_dashboard_security.Server.Client.{
  Host, Request, Reply, succeed, Action, pure, get_client, ◌>>=◌, call, get, error_message, handle,
}

module _ (data_source_enabled : Bool) (host : Host) where
  unfoldable pub acknowledge_correlation_alerts : Request → Action Reply
  acknowledge_correlation_alerts request =
      handle
        (do
          response ←
              call host (get_client data_source_enabled request)
                "securityAnalytics.acknowledgeCorrelationAlerts"
                (object (("body", request.body) ∷ []))
          pure (succeed response))
        (error_message host)

  unfoldable pub get_all_correlation_alerts : Request → Action Reply
  get_all_correlation_alerts request =
      handle
        (do
          response ←
              call host (get_client data_source_enabled request)
                "securityAnalytics.getAllCorrelationAlerts" undefined
          pure (succeed response))
        (error_message host)

  unfoldable pub create_correlation_rule : Request → Action Reply
  create_correlation_rule request =
      handle
        (do
          response ←
              call host (get_client data_source_enabled request)
                "securityAnalytics.createCorrelationRule" (object (("body", request.body) ∷ []))
          pure (succeed response))
        (error_message host)

  unfoldable pub update_correlation_rule : Request → Action Reply
  update_correlation_rule request =
      handle
        (do
          rule_id ← get host request.params "ruleId"
          response ←
              call host (get_client data_source_enabled request)
                "securityAnalytics.updateCorrelationRule"
                (object (("body", request.body) ∷ ("ruleId", rule_id) ∷ []))
          pure (succeed response))
        (error_message host)

  unfoldable pub get_correlation_rules : Request → Action Reply
  get_correlation_rules request =
      handle
        (do
          query ← get host request.body "query"
          response ←
              call host (get_client data_source_enabled request)
                "securityAnalytics.getCorrelationRules"
                (object (
                  ("body", object (("from", num 0) ∷ ("size", num 10000) ∷ ("query", query) ∷ []))
                  ∷ []))
          pure (succeed response))
        (error_message host)

  unfoldable pub delete_correlation_rule : Request → Action Reply
  delete_correlation_rule request =
      handle
        (do
          response ←
              call host (get_client data_source_enabled request)
                "securityAnalytics.deleteCorrelationRule" request.params
          pure (succeed response))
        (error_message host)

  unfoldable pub get_correlated_findings : Request → Action Reply
  get_correlated_findings request =
      handle
        (do
          finding ← get host request.query "finding"
          response ←
              call host (get_client data_source_enabled request)
                "securityAnalytics.getCorrelatedFindings"
                (object (
                  ("finding", finding)
                  ∷ ("detector_type", opt request.query "detector_type")
                  ∷ ("nearby_findings", default (opt request.query "nearby_findings") (num 20))
                  ∷ []))
          pure (succeed response))
        (error_message host)

  unfoldable pub get_all_correlations_in_time_range : Request → Action Reply
  get_all_correlations_in_time_range request =
      handle
        (do
          start_time ← get host request.query "start_time"
          response ←
              call host (get_client data_source_enabled request)
                "securityAnalytics.getAllCorrelations"
                (object (
                  ("start_timestamp", start_time)
                  ∷ ("end_timestamp", opt request.query "end_time")
                  ∷ []))
          pure (succeed response))
        (error_message host)
