-- ===== src/Server/OpenSearch/Replies.antt =====
-- The replies of OpenSearchService, server/services/OpenSearchService.ts.
use wazuh_dashboard_security.Base.{Bool}
use wazuh_dashboard_security.Json.{Json}
use wazuh_dashboard_security.Server.Client.{error_message, Host, IsRegular, Request}
use wazuh_dashboard_security.Server.Safe.{
  IsTotal, handle-IsTotal, try_catch-IsTotal, bind-IsTotal, pure-IsTotal, safe_rules,
  error_message-IsTotal,
}
use wazuh_dashboard_security.Server.Forward.{forward-IsSafe}
use wazuh_dashboard_security.Server.OpenSearch.{document_ids_query, time_range_query, get_plugins}

module _ {host : Host} (regular : IsRegular host) where
  pub search_handlers-IsTotal :
      (enabled : Bool) (stringify : Json → Json) (request : Request)
      → IsTotal (document_ids_query enabled host stringify request)
        × IsTotal (time_range_query enabled host stringify request)
        × IsTotal (get_plugins enabled host stringify request)
  unfolding document_ids_query time_range_query get_plugins
  search_handlers-IsTotal enabled stringify request =
      let message = error_message-IsTotal regular in
      (
        handle-IsTotal _ _ (search (tt, safe_rules, regular, forward-IsSafe) depth 16) message,
        handle-IsTotal _ _ (search (tt, safe_rules, regular, forward-IsSafe) depth 16) message,
        try_catch-IsTotal _ _ (search (tt, regular, forward-IsSafe) depth 16) (λ e known.
            bind-IsTotal (error_message host e) _ (message e known) (λ v. pure-IsTotal _)),
      )
