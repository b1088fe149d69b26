-- ===== src/Server/WazuhRules/Replies.antt =====
-- The replies of WazuhRulesService, server/services/WazuhRuleService.ts.
use wazuh_dashboard_security.Base.{List, [], ◌∷◌, ◌≡◌}
use wazuh_dashboard_security.Json.{Json}
use wazuh_dashboard_security.Server.Client.{Host, IsRegular, IsError, Outcome, throw, Request}
use wazuh_dashboard_security.Server.Safe.{
  IsSafe, IsTotal, handle-IsTotal, safe_rules, error_body_message-IsTotal, error_message-IsTotal,
  pure-IsSafe,
}
use wazuh_dashboard_security.Server.Yaml.{lift, lift-IsSafe}
use wazuh_dashboard_security.Server.WazuhRules.{
  RuleMap, values_of, build_rule_resource, rule_id, fetch_integrations, enriched_hit, get_rules,
  create_rule, update_rule, delete_rule,
}

module _ {host : Host} (regular : IsRegular host) (load : Json → Outcome Json)
    (load_errors : (text error : Json) → load text ≡ throw error → IsError error) where
  load-IsSafe : (text : Json) → IsSafe (lift (load text))
  load-IsSafe text = lift-IsSafe (load text) (load_errors text)

  values_of-IsSafe : (list : Json) → IsSafe (values_of host load list)
  unfolding values_of
  values_of-IsSafe list = search (safe_rules, regular) depth 10

  build_rule_resource-IsSafe : (rule : Json) → IsSafe (build_rule_resource host load rule)
  unfolding build_rule_resource
  build_rule_resource-IsSafe rule = search (safe_rules, load-IsSafe, values_of-IsSafe) depth 10

  rule_id-IsSafe : (hit : Json) → IsSafe (rule_id host load hit)
  unfolding rule_id
  rule_id-IsSafe hit = search (safe_rules, regular)

  fetch_rules-IsSafe :
      (ids : List Json) (space : Json) → IsSafe (fetch_integrations host load ids space)
  unfolding fetch_integrations
  fetch_rules-IsSafe [] space = pure-IsSafe []
  fetch_rules-IsSafe (id ∷ ids) space = search safe_rules

  enriched_hit-IsSafe : (m : RuleMap) (hit : Json) → IsSafe (enriched_hit host load m hit)
  unfolding enriched_hit
  enriched_hit-IsSafe m hit = search (safe_rules, rule_id-IsSafe)

  -- Every handler of the service replies, whatever the client answers and whatever the yaml loader
  -- does, if what it throws are errors: none of them rejects.
  pub wazuh_rule_handlers-IsTotal :
      (request : Request)
      → IsTotal (get_rules host load request)
        × IsTotal (create_rule host load request)
        × IsTotal (update_rule host load request)
        × IsTotal (delete_rule host load request)
  unfolding get_rules create_rule update_rule delete_rule
  wazuh_rule_handlers-IsTotal request = (
    handle-IsTotal _ _
        (search (tt, safe_rules, regular, rule_id-IsSafe, fetch_rules-IsSafe, enriched_hit-IsSafe)
          depth 20)
        (error_message-IsTotal regular),
    handle-IsTotal _ _ (search (tt, safe_rules, regular, build_rule_resource-IsSafe) depth 16)
        (error_body_message-IsTotal regular),
    handle-IsTotal _ _ (search (tt, safe_rules, regular, build_rule_resource-IsSafe) depth 16)
        (error_body_message-IsTotal regular),
    handle-IsTotal _ _ (search (tt, safe_rules, regular) depth 16) (error_message-IsTotal regular),
  )
