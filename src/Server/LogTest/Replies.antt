-- ===== src/Server/LogTest/Replies.antt =====
-- The replies of the log test handler, server/services/LogTestService.ts.
use wazuh_dashboard_security.Base.{Bool}
use wazuh_dashboard_security.Json.{Json, undefined, null, str}
use wazuh_dashboard_security.Server.Client.{Host, IsRegular, Request}
use wazuh_dashboard_security.Server.Safe.{
  IsSafe, IsTotal, pure-IsTotal, handle-IsTotal, safe_rules, pure-IsSafe, raise-IsSafe, bind-IsSafe,
}
use wazuh_dashboard_security.Server.LogTest.{location_of, read_log_test, send_log_test, log_test}

module _ {host : Host} (regular : IsRegular host) where
  location_of-IsSafe : (v : Json) → IsSafe (location_of host v)
  unfolding location_of
  location_of-IsSafe undefined = pure-IsSafe _
  location_of-IsSafe null = pure-IsSafe _
  location_of-IsSafe (str t) = pure-IsSafe _
  location_of-IsSafe _ = raise-IsSafe _ regular.type_errors

  read-IsSafe : (request : Request) → IsSafe (read_log_test host request)
  unfolding read_log_test
  read-IsSafe request = search (safe_rules, regular, location_of-IsSafe) depth 12

  send-IsSafe :
      (enabled : Bool) (request : Request) (test : Json)
      → IsSafe (send_log_test enabled host request test)
  unfolding send_log_test
  send-IsSafe enabled request test = search (tt, safe_rules, regular) depth 12

  -- A log test is answered, whatever the request holds and whatever the client answers: the handler
  -- does not reject.
  pub log_test-IsTotal :
      (enabled : Bool) (request : Request) → IsTotal (log_test enabled host request)
  unfolding log_test
  log_test-IsTotal enabled request =
      handle-IsTotal _ _ (bind-IsSafe _ _ (read-IsSafe request) (send-IsSafe enabled request))
        (λ error e. pure-IsTotal _)
