-- ===== src/Server/Policies/Replies.antt =====
-- The replies of PoliciesService, server/services/PoliciesService.ts.
use wazuh_dashboard_security.Base.{String, Bool, List, [], ◌∷◌, Option, none, some}
use wazuh_dashboard_security.Json.{Json}
use wazuh_dashboard_security.Json.Members.{Members, method_of}
use wazuh_dashboard_security.Server.Client.{Target, Host, IsRegular, Request, Action, pure, raise}
use wazuh_dashboard_security.Server.Safe.{
  IsSafe, IsTotal, handle-IsTotal, safe_rules, error_body_message-IsTotal, error_message-IsTotal,
  caps-IsSafe, raise-IsSafe, pure-IsSafe, bind-IsSafe, get-IsSafe,
}
use wazuh_dashboard_security.Server.Policies.{
  IntegrationMap, fetch_integration_map, integration_pairs, policy_item, policy_search,
  policy_reply, invoke, search_policies, get_policy, update_policy, delete_space,
}

module _ {host : Host} (regular : IsRegular host) where
  raised-IsSafe : {A : Type 0} → IsSafe {A = A} (raise host.type_error)
  raised-IsSafe = raise-IsSafe _ regular.type_errors

  integration_pairs-IsSafe : (hits : List Json) → IsSafe (integration_pairs host hits)
  unfolding integration_pairs
  integration_pairs-IsSafe [] = pure-IsSafe []
  integration_pairs-IsSafe (hit ∷ hits) = bind-IsSafe _ _ (get-IsSafe regular hit "_id") (λ id.
      bind-IsSafe _ _ (get-IsSafe regular hit "_source")
        (λ source. bind-IsSafe _ _ (integration_pairs-IsSafe hits) (λ rest. pure-IsSafe _)))

  fetch_map-IsSafe :
      (client : Target) (space ids options : Json)
      → IsSafe (fetch_integration_map host client space ids options)
  unfolding fetch_integration_map
  fetch_map-IsSafe client space ids options =
      search (tt, safe_rules, regular, raised-IsSafe, caps-IsSafe, integration_pairs-IsSafe) depth
        20

  policy_item-IsSafe :
      (with_map : Bool) (m : IntegrationMap) (total hit : Json)
      → IsSafe (policy_item host with_map m total hit)
  unfolding policy_item
  policy_item-IsSafe with_map m total hit = search (safe_rules, regular) depth 12

  policy_search-IsSafe :
      (enabled : Bool) (request : Request) → IsSafe (policy_search enabled host request)
  unfolding policy_search
  policy_search-IsSafe enabled request = search (tt, safe_rules, regular, caps-IsSafe) depth 16

  invoke-IsSafe :
      (name : String) (members : Members) (argument : Json)
      → IsSafe (invoke host name members argument)
  unfolding invoke
  invoke-IsSafe name members argument = go (method_of name members)
    where
      go :
          (o : Option (Json → Json))
          → IsSafe (elim o as (λ _. Action Json) [
            | none ↦ raise host.type_error
            | some f ↦ pure (f argument)
          ])
      go none = raised-IsSafe
      go (some f) = pure-IsSafe _

  policy_reply-IsSafe :
      (enabled : Bool) (request : Request) (response : Json)
      → IsSafe (policy_reply enabled host request response)
  unfolding policy_reply
  policy_reply-IsSafe enabled request response =
      search (safe_rules, regular, fetch_map-IsSafe, invoke-IsSafe) depth 16

  -- Every handler of the service replies, whatever the client answers: none of them rejects.
  pub policy_handlers-IsTotal :
      (enabled : Bool) (request : Request)
      → IsTotal (search_policies enabled host request)
        × IsTotal (get_policy enabled host request)
        × IsTotal (update_policy enabled host request)
        × IsTotal (delete_space enabled host request)
  unfolding search_policies get_policy update_policy delete_space
  policy_handlers-IsTotal enabled request = (
    handle-IsTotal _ _
        (search (tt, safe_rules, regular, caps-IsSafe, fetch_map-IsSafe, policy_item-IsSafe) depth
          20)
        (error_message-IsTotal regular),
    handle-IsTotal _ _ (search (safe_rules, policy_search-IsSafe, policy_reply-IsSafe) depth 6)
        (error_message-IsTotal regular),
    handle-IsTotal _ _ (search (tt, safe_rules, regular) depth 16)
        (error_body_message-IsTotal regular),
    handle-IsTotal _ _ (search (tt, safe_rules, regular) depth 16)
        (error_body_message-IsTotal regular),
  )
