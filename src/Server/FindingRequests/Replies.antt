-- ===== src/Server/FindingRequests/Replies.antt =====
-- The replies of FindingsService, server/services/FindingsService.ts.
use wazuh_dashboard_security.Base.{Bool, true, false, List, [], ◌∷◌}
use wazuh_dashboard_security.Json.{Json, str}
use wazuh_dashboard_security.Json.Text.{is_prefix}
use wazuh_dashboard_security.Server.Client.{Host, IsRegular, Request}
use wazuh_dashboard_security.Server.Safe.{
  IsSafe, pure-IsSafe, raise-IsSafe, bind-IsSafe, if-IsSafe, IsTotal, handle-IsTotal, safe_rules,
  error_message-IsTotal,
}
use wazuh_dashboard_security.Server.Forward.{forward-IsSafe}
use wazuh_dashboard_security.Server.FindingRequests.{
  starts, is_threat_intel, every_threat_intel, some_threat_intel, labelled, get_findings,
  get_threat_intel_findings,
}

module _ {host : Host} (regular : IsRegular host) where
  starts-IsSafe : (id : Json) → IsSafe (starts host id)
  starts-IsSafe (str id) = pure-IsSafe (is_prefix "threat_intel_" id)
  starts-IsSafe _ = raise-IsSafe host.type_error regular.type_errors

  is_threat_intel-IsSafe : (query : Json) → IsSafe (is_threat_intel host query)
  unfolding is_threat_intel
  is_threat_intel-IsSafe query = search (safe_rules, regular, starts-IsSafe) depth 16

  every_threat_intel-IsSafe : (qs : List Json) → IsSafe (every_threat_intel host qs)
  unfolding every_threat_intel
  every_threat_intel-IsSafe [] = pure-IsSafe true
  every_threat_intel-IsSafe (q ∷ qs) =
      bind-IsSafe _ _ (is_threat_intel-IsSafe q)
        (λ b. if-IsSafe b _ _ (every_threat_intel-IsSafe qs) (pure-IsSafe false))

  some_threat_intel-IsSafe : (qs : List Json) → IsSafe (some_threat_intel host qs)
  unfolding some_threat_intel
  some_threat_intel-IsSafe [] = pure-IsSafe false
  some_threat_intel-IsSafe (q ∷ qs) =
      bind-IsSafe _ _ (is_threat_intel-IsSafe q)
        (λ b. if-IsSafe b _ _ (pure-IsSafe true) (some_threat_intel-IsSafe qs))

  labelled-IsSafe : (finding : Json) → IsSafe (labelled host finding)
  unfolding labelled
  labelled-IsSafe finding =
      search (safe_rules, regular, every_threat_intel-IsSafe, some_threat_intel-IsSafe) depth 16

  pub finding_handlers-IsTotal :
      (enabled : Bool) (request : Request)
      → IsTotal (get_findings enabled host request)
        × IsTotal (get_threat_intel_findings enabled host request)
  unfolding get_findings get_threat_intel_findings
  finding_handlers-IsTotal enabled request =
      let message = error_message-IsTotal regular in
      (
        handle-IsTotal _ _ (search (tt, safe_rules, regular, labelled-IsSafe) depth 16) message,
        handle-IsTotal _ _ (search (tt, regular, forward-IsSafe) depth 16) message,
      )
