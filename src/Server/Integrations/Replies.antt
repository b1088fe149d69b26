-- ===== src/Server/Integrations/Replies.antt =====
-- The replies of IntegrationService, server/services/IntegrationService.ts.
use wazuh_dashboard_security.Base.{String, Bool, List, [], ◌∷◌, Option, none, some}
use wazuh_dashboard_security.Json.{Json, str, Fields}
use wazuh_dashboard_security.Server.Client.{Target, Host, IsRegular, Request}
use wazuh_dashboard_security.Server.Safe.{
  IsSafe, IsTotal, handle-IsTotal, safe_rules, error_body_message-IsTotal, error_message-IsTotal,
  error_body-IsTotal, pure-IsSafe, bind-IsSafe, raise-IsSafe, get-IsSafe,
}
use wazuh_dashboard_security.Server.Integrations.{
  EntityQuery, strip_id, entity_ids, names_of, search_entity_by_ids_and_space, in_target_space,
  resolve_promote_entity, promote_entities, create_integration, search_integrations,
  available_promotions, get_promote_by_space, promote_integration, delete_integration,
}

module _ {host : Host} (regular : IsRegular host) (lodash_get : Json → String → Json) where
  strip_id-IsSafe : (id : Json) → IsSafe (strip_id host lodash_get id)
  unfolding strip_id
  strip_id-IsSafe (str id) = pure-IsSafe _
  strip_id-IsSafe _ = raise-IsSafe _ regular.type_errors

  entity_ids-IsSafe : (entities : List Json) → IsSafe (entity_ids host lodash_get entities)
  unfolding entity_ids
  entity_ids-IsSafe [] = pure-IsSafe []
  entity_ids-IsSafe (entity ∷ entities) = bind-IsSafe _ _ (get-IsSafe regular entity "id") (λ id.
      bind-IsSafe _ _ (strip_id-IsSafe id) (λ stripped.
        bind-IsSafe _ _ (entity_ids-IsSafe entities) (λ rest. pure-IsSafe (stripped ∷ rest))))

  names_of-IsSafe :
      (q : EntityQuery) (hits : List Json) (out : Fields)
      → IsSafe (names_of host lodash_get q hits out)
  unfolding names_of
  names_of-IsSafe q [] out = pure-IsSafe out
  names_of-IsSafe q (hit ∷ hits) out =
      bind-IsSafe _ _ (get-IsSafe regular hit "_source") (λ source. names_of-IsSafe q hits _)

  search_entity-IsSafe :
      (client : Target) (q : EntityQuery) (ids : List String) (space : Json)
      → IsSafe (search_entity_by_ids_and_space host lodash_get client q ids space)
  unfolding search_entity_by_ids_and_space
  search_entity-IsSafe client q [] space = pure-IsSafe _
  search_entity-IsSafe client q (id ∷ ids) space =
      search (tt, safe_rules, regular, names_of-IsSafe) depth 12

  in_target_space-IsSafe :
      (client : Target) (q : EntityQuery) (ids : List String) (current : Fields) (target : String)
      → IsSafe (in_target_space host lodash_get client q ids current target)
  unfolding in_target_space
  in_target_space-IsSafe client q [] current target = pure-IsSafe _
  in_target_space-IsSafe client q (id ∷ ids) current target =
      search (safe_rules, search_entity-IsSafe) depth 6

  resolve-IsSafe :
      (client : Target) (entity_data : Json) (q : EntityQuery) (target_space : Option String)
      → IsSafe (resolve_promote_entity host lodash_get client entity_data q target_space)
  unfolding resolve_promote_entity
  resolve-IsSafe client entity_data q none =
      search (safe_rules, regular, entity_ids-IsSafe, search_entity-IsSafe) depth 12
  resolve-IsSafe client entity_data q (some target) =
      search (safe_rules, regular, entity_ids-IsSafe, search_entity-IsSafe, in_target_space-IsSafe)
        depth 12

  promote_entities-IsSafe :
      (client : Target) (entity_data : Json) (q : EntityQuery) (target_space : Option String)
      (count : Json)
      → IsSafe (promote_entities host lodash_get client entity_data q target_space count)
  unfolding promote_entities
  promote_entities-IsSafe client entity_data q target_space count =
      search (safe_rules, resolve-IsSafe) depth 8

  available_promotions-IsSafe :
      (enabled : Bool) (client : Target) (space changes : Json) (target_space : Option String)
      → IsSafe (available_promotions enabled host lodash_get client space changes target_space)
  unfolding available_promotions
  available_promotions-IsSafe enabled client space changes target_space =
      search (safe_rules, regular, promote_entities-IsSafe) depth 40

  -- Every handler of the service but updateIntegration replies, whatever the client answers: none
  -- of them rejects.
  pub integration_handlers-IsTotal :
      (enabled : Bool) (request : Request)
      → IsTotal (create_integration enabled host lodash_get request)
        × IsTotal (search_integrations enabled host lodash_get request)
        × IsTotal (get_promote_by_space enabled host lodash_get request)
        × IsTotal (promote_integration enabled host lodash_get request)
        × IsTotal (delete_integration enabled host lodash_get request)
  unfolding create_integration search_integrations get_promote_by_space promote_integration
      delete_integration
  integration_handlers-IsTotal enabled request =
      let described = error_body-IsTotal regular in
      (
        handle-IsTotal _ _ (search (tt, safe_rules, regular) depth 16) described,
        handle-IsTotal _ _ (search (tt, safe_rules, regular) depth 16)
            (error_message-IsTotal regular),
        handle-IsTotal _ _ (search (tt, safe_rules, regular, available_promotions-IsSafe) depth 16)
            described,
        handle-IsTotal _ _ (search (tt, safe_rules, regular) depth 16)
            (error_body_message-IsTotal regular),
        handle-IsTotal _ _ (search (tt, safe_rules, regular) depth 16) described,
      )
