-- ===== src/Server/Indices/Replies.antt =====
-- The replies of IndexService, server/services/IndexService.ts.
use wazuh_dashboard_security.Base.{Bool}
use wazuh_dashboard_security.Server.Client.{Host, IsRegular, Request}
use wazuh_dashboard_security.Server.Safe.{
  IsTotal, handle-IsTotal, safe_rules, error_message-IsTotal,
}
use wazuh_dashboard_security.Server.Indices.{
  get_index_fields, get_indices, get_aliases, update_aliases,
}

module _ {host : Host} (regular : IsRegular host) where
  pub index_handlers-IsTotal :
      (enabled : Bool) (request : Request)
      → IsTotal (get_index_fields enabled host request)
        × IsTotal (get_indices enabled host request)
        × IsTotal (get_aliases enabled host request)
        × IsTotal (update_aliases enabled host request)
  unfolding get_index_fields get_indices get_aliases update_aliases
  index_handlers-IsTotal enabled request =
      let message = error_message-IsTotal regular in
      (
        handle-IsTotal _ _ (search (tt, safe_rules, regular) depth 16) message,
        handle-IsTotal _ _ (search (tt, safe_rules, regular) depth 16) message,
        handle-IsTotal _ _ (search (tt, safe_rules, regular) depth 16) message,
        handle-IsTotal _ _ (search (tt, safe_rules, regular) depth 16) message,
      )
