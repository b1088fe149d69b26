-- ===== src/Server/Decoders/Replies.antt =====
-- The replies of DecodersService, server/services/DecodersService.ts.
use wazuh_dashboard_security.Base.{List, [], ◌∷◌}
use wazuh_dashboard_security.Json.{Json}
use wazuh_dashboard_security.Server.Client.{Host, IsRegular, Request}
use wazuh_dashboard_security.Server.Safe.{
  caps-IsSafe, IsSafe, IsTotal, handle-IsTotal, safe_rules, error_body_message-IsTotal, pure-IsSafe,
}
use wazuh_dashboard_security.Server.Decoders.{
  IntegrationMap, fetch_integration_map, decoder_id, decoder_item, search_decoders, get_decoder,
  create_decoder, update_decoder, delete_decoder, get_draft_integrations,
}

module _ {host : Host} (regular : IsRegular host) where
  fetch-IsSafe : (ids : List Json) → IsSafe (fetch_integration_map host ids)
  unfolding fetch_integration_map
  fetch-IsSafe [] = pure-IsSafe []
  fetch-IsSafe (id ∷ ids) = search safe_rules

  decoder_id-IsSafe : (hit : Json) → IsSafe (decoder_id host hit)
  unfolding decoder_id
  decoder_id-IsSafe hit = search (safe_rules, regular)

  decoder_item-IsSafe : (m : IntegrationMap) (hit : Json) → IsSafe (decoder_item host m hit)
  unfolding decoder_item
  decoder_item-IsSafe m hit = search (safe_rules, regular, decoder_id-IsSafe) depth 8

  -- Every handler of the service replies, whatever the client answers: none of them rejects.
  pub decoder_handlers-IsTotal :
      (request : Request)
      → IsTotal (search_decoders host request)
        × IsTotal (get_decoder host request)
        × IsTotal (create_decoder host request)
        × IsTotal (update_decoder host request)
        × IsTotal (delete_decoder host request)
        × IsTotal (get_draft_integrations host request)
  unfolding search_decoders get_decoder create_decoder update_decoder delete_decoder
      get_draft_integrations
  decoder_handlers-IsTotal request =
      let described = error_body_message-IsTotal regular in
      (
        handle-IsTotal _ _
            (search
              (
                safe_rules, regular, caps-IsSafe, fetch-IsSafe, decoder_id-IsSafe,
                decoder_item-IsSafe,
              )
              depth 16)
            described,
        handle-IsTotal _ _
            (search
              (
                safe_rules, regular, caps-IsSafe, fetch-IsSafe, decoder_id-IsSafe,
                decoder_item-IsSafe,
              )
              depth 16)
            described,
        handle-IsTotal _ _ (search (tt, safe_rules, regular) depth 16) described,
        handle-IsTotal _ _ (search (tt, safe_rules, regular) depth 16) described,
        handle-IsTotal _ _ (search (tt, safe_rules, regular) depth 16) described,
        handle-IsTotal _ _ (search (tt, safe_rules, regular) depth 16) described,
      )
