-- ===== src/Server/Policies/Lookup.antt =====
-- The lookup of one policy: getPolicy of server/services/PoliciesService.ts.
use wazuh_dashboard_security.Base.{Bool, true, false, [], ◌∷◌, ◌≡◌, refl, arith}
use wazuh_dashboard_security.Json.{
  Json, undefined, null, bool, num, str, arr, obj, opt, path, truthy, is_nullish, at_zero,
}
use wazuh_dashboard_security.Server.Client.{
  Host, Session, Request, return, throw, raise, error_message, fail, IsError,
}
use wazuh_dashboard_security.Server.Client.Steps.{get-present, returning, throwing, handle-answers}
use wazuh_dashboard_security.Server.Policies.{
  fetch_integration_map, policy_search, policy_reply, get_policy,
}

truthy-is_nullish : (v : Json) → truthy v ≡ true → is_nullish v ≡ false
truthy-is_nullish undefined e = absurd (ground arith)
truthy-is_nullish null e = absurd (ground arith)
truthy-is_nullish (bool b) e = refl
truthy-is_nullish (num n) e = refl
truthy-is_nullish (str s) e = refl
truthy-is_nullish (arr vs) e = refl
truthy-is_nullish (obj fs) e = refl

module _ (enabled : Bool) (host : Host) (request : Request) where
  reply-found :
      (response : Json) (s : Session)
      → truthy (at_zero (path response ("hits" ∷ "hits" ∷ []))) ≡ true
      → policy_reply enabled host request response s ≡ (throw host.type_error, s)
  unfolding policy_reply fetch_integration_map raise
  reply-found response s e = rw e (
      returning _ _ s s _ _ (get-present host _ "_id" s (truthy-is_nullish _ e))
        (throwing _ _ s s _ refl))

  -- A policy that is found is not shown: if the search answers with a hit, the reply is the
  -- message of the TypeError, and no request is made after the search.
  pub get_policy-found_fails :
      (s after : Session) (response : Json)
      → policy_search enabled host request s ≡ (return response, after)
      → truthy (at_zero (path response ("hits" ∷ "hits" ∷ []))) ≡ true
      → IsError host.type_error
      → get_policy enabled host request s ≡ (return (fail (opt host.type_error "message")), after)
  unfolding get_policy error_message
  get_policy-found_fails s after response found hit error =
      handle-answers _ _ s after after host.type_error _
        (returning _ _ s after response _ found (reply-found response after hit))
        (get-present host host.type_error "message" after error)
