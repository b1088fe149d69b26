-- ===== src/Server/Correlations/Replies.antt =====
-- The replies of CorrelationService, server/services/CorrelationService.ts.
use wazuh_dashboard_security.Base.{Bool}
use wazuh_dashboard_security.Server.Client.{Host, IsRegular, Request}
use wazuh_dashboard_security.Server.Safe.{
  IsTotal, handle-IsTotal, safe_rules, error_message-IsTotal,
}
use wazuh_dashboard_security.Server.Correlations.{
  acknowledge_correlation_alerts, get_all_correlation_alerts, create_correlation_rule,
  update_correlation_rule, get_correlation_rules, delete_correlation_rule, get_correlated_findings,
  get_all_correlations_in_time_range,
}

module _ {host : Host} (regular : IsRegular host) where
  -- Every handler of the service replies, whatever the client answers: none of them rejects.
  pub correlation_handlers-IsTotal :
      (enabled : Bool) (request : Request)
      → IsTotal (acknowledge_correlation_alerts enabled host request)
        × IsTotal (get_all_correlation_alerts enabled host request)
        × IsTotal (create_correlation_rule enabled host request)
        × IsTotal (update_correlation_rule enabled host request)
        × IsTotal (get_correlation_rules enabled host request)
        × IsTotal (delete_correlation_rule enabled host request)
        × IsTotal (get_correlated_findings enabled host request)
        × IsTotal (get_all_correlations_in_time_range enabled host request)
  unfolding acknowledge_correlation_alerts get_all_correlation_alerts create_correlation_rule
      update_correlation_rule get_correlation_rules delete_correlation_rule get_correlated_findings
      get_all_correlations_in_time_range
  correlation_handlers-IsTotal enabled request =
      let described = error_message-IsTotal regular in
      (
        handle-IsTotal _ _ (search (tt, safe_rules, regular) depth 16) described,
        handle-IsTotal _ _ (search (tt, safe_rules, regular) depth 16) described,
        handle-IsTotal _ _ (search (tt, safe_rules, regular) depth 16) described,
        handle-IsTotal _ _ (search (tt, safe_rules, regular) depth 16) described,
        handle-IsTotal _ _ (search (tt, safe_rules, regular) depth 16) described,
        handle-IsTotal _ _ (search (tt, safe_rules, regular) depth 16) described,
        handle-IsTotal _ _ (search (tt, safe_rules, regular) depth 16) described,
        handle-IsTotal _ _ (search (tt, safe_rules, regular) depth 16) described,
      )
