-- ===== src/Server/SigmaRules/Replies.antt =====
-- The replies of RuleService, server/services/RuleService.ts.
use wazuh_dashboard_security.Base.{Bool, String, ◌≡◌}
use wazuh_dashboard_security.Json.{Json, Fields}
use wazuh_dashboard_security.Server.Client.{Host, IsRegular, IsError, Request, throw}
use wazuh_dashboard_security.Server.Safe.{
  IsSafe, IsTotal, handle-IsTotal, safe_rules, error_message-IsTotal,
}
use wazuh_dashboard_security.Server.Yaml.{lift, lift-IsSafe}
use wazuh_dashboard_security.Server.Forward.{forward-IsSafe}
use wazuh_dashboard_security.Server.SigmaRules.{
  with_values, rule_payload, RuleLibrary, create_rule, delete_rule, update_rule,
}

-- What the parameters throw are errors.
pub record LibraryIsRegular (library : RuleLibrary) : Type 0 where
  pub load_errors : (v error : Json) → library.load v ≡ throw error → IsError error
  pub dump_errors : (v error : Json) → library.dump v ≡ throw error → IsError error
  pub encode_errors : (v error : Json) → library.encode v ≡ throw error → IsError error

module _ {host : Host} (regular : IsRegular host) {library : RuleLibrary}
    (known : LibraryIsRegular library) where
  with_values-IsSafe :
      (key : String) (values : Json) (payload : Fields)
      → IsSafe (with_values host key values payload)
  unfolding with_values
  with_values-IsSafe key values payload = search (safe_rules, regular) depth 16

  load-IsSafe : (v : Json) → IsSafe (lift (library.load v))
  load-IsSafe v = lift-IsSafe (library.load v) (known.load_errors v)

  dump-IsSafe : (v : Json) → IsSafe (lift (library.dump v))
  dump-IsSafe v = lift-IsSafe (library.dump v) (known.dump_errors v)

  encode-IsSafe : (v : Json) → IsSafe (lift (library.encode v))
  encode-IsSafe v = lift-IsSafe (library.encode v) (known.encode_errors v)

  rule_payload-IsSafe : (rule id : Json) → IsSafe (rule_payload host library rule id)
  unfolding rule_payload
  rule_payload-IsSafe rule id =
      search (safe_rules, regular, load-IsSafe, dump-IsSafe, with_values-IsSafe) depth 16

  pub sigma_rule_handlers-IsTotal :
      (enabled : Bool) (request : Request)
      → IsTotal (create_rule enabled host library request)
        × IsTotal (delete_rule enabled host library request)
        × IsTotal (update_rule enabled host library request)
  unfolding create_rule delete_rule update_rule
  sigma_rule_handlers-IsTotal enabled request =
      let message = error_message-IsTotal regular in
      (
        handle-IsTotal _ _
            (search (tt, safe_rules, regular, forward-IsSafe, encode-IsSafe, rule_payload-IsSafe)
              depth 16)
            message,
        handle-IsTotal _ _ (search (tt, regular, forward-IsSafe) depth 16) message,
        handle-IsTotal _ _
            (search (tt, safe_rules, regular, forward-IsSafe, rule_payload-IsSafe) depth 16)
            message,
      )
