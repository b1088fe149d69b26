-- ===== src/Server/Filters/Replies.antt =====
-- The replies of FiltersService, server/services/FiltersService.ts.
use wazuh_dashboard_security.Base.{Bool}
use wazuh_dashboard_security.Json.{Json}
use wazuh_dashboard_security.Server.Client.{Host, IsRegular, Request}
use wazuh_dashboard_security.Server.Safe.{
  IsTotal, handle-IsTotal, safe_rules, error_body_message-IsTotal, error_message-IsTotal,
}
use wazuh_dashboard_security.Server.Yaml.{Yaml, YamlIsRegular, build_yaml_body-IsSafe}
use wazuh_dashboard_security.Server.Filters.{
  search_filters, create_filter, update_filter, delete_filter,
}

module _ {host : Host} (regular : IsRegular host) {yaml : Yaml}
    (yaml_regular : YamlIsRegular yaml) where
  -- Every handler of the service replies, whatever the client answers and whatever the parser
  -- does with the resource: none of them rejects.
  pub filter_handlers-IsTotal :
      (enabled : Bool) (stringify : Json → Json) (request : Request)
      → IsTotal (search_filters enabled host yaml stringify request)
        × IsTotal (create_filter enabled host yaml stringify request)
        × IsTotal (update_filter enabled host yaml stringify request)
        × IsTotal (delete_filter enabled host yaml stringify request)
  unfolding search_filters create_filter update_filter delete_filter
  filter_handlers-IsTotal enabled stringify request =
      let message = error_message-IsTotal regular in
      let body_message = error_body_message-IsTotal regular in
      (
        handle-IsTotal _ _ (search (tt, safe_rules, regular) depth 16) message,
        handle-IsTotal _ _
            (search (tt, safe_rules, regular, yaml_regular, build_yaml_body-IsSafe) depth 16)
            body_message,
        handle-IsTotal _ _
            (search (tt, safe_rules, regular, yaml_regular, build_yaml_body-IsSafe) depth 16)
            body_message,
        handle-IsTotal _ _ (search (tt, safe_rules, regular) depth 16) message,
      )
