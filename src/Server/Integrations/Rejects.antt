-- ===== src/Server/Integrations/Rejects.antt =====
-- The catch block of updateIntegration, server/services/IntegrationService.ts.
use wazuh_dashboard_security.Base.{String, Bool, true, false, [], ◌∷◌, ◌≡◌, ◌++◌}
use wazuh_dashboard_security.Json.{Json, obj, object, opt, omit, spread, is_nullish}
use wazuh_dashboard_security.Server.Client.{
  Host, Request, Session, Call, throw, get_client, error_body_message_unguarded,
}
use wazuh_dashboard_security.Server.Client.Steps.{
  get-present, get-missing, returning, throwing, handle-throws, call-throws,
}
use wazuh_dashboard_security.Server.Integrations.{update_integration}

-- The call that updateIntegration makes.
abbrev pub update_call : Bool → Request → Call
update_call enabled request = record {
  target = get_client enabled request;
  method = "securityAnalytics.updateIntegration";
  params = object (
      (
        "body",
        object (
            (
              "resource",
              obj (
                  omit "modified" (omit "date" (omit "id" (spread (opt request.body "document"))))),
            )
            ∷ []),
      )
      ∷ ("integrationId", opt request.params "integrationId")
      ∷ []);
}

-- Where the client rejects the update of an integration with an error that has no body, the
-- handler does not reply: it rejects with a TypeError, for every well-formed request.
pub update_integration-rejects :
    (enabled : Bool) (host : Host) (lodash_get : Json → String → Json) (request : Request)
    → (s : Session) (error : Json) → is_nullish request.body ≡ false
    → is_nullish (opt request.body "document") ≡ false
    → is_nullish request.params ≡ false
    → host.client s.calls (update_call enabled request) ≡ throw error
    → is_nullish error ≡ false
    → is_nullish (opt error "body") ≡ true
    → (update_integration enabled host lodash_get request s).0 ≡ throw host.type_error
unfolding update_integration error_body_message_unguarded
update_integration-rejects enabled host lodash_get request s error b d p rejected e missing =
    let after : Session = record s { calls = s.calls ++ update_call enabled request ∷ [] } in
    handle-throws _ _ s after after error host.type_error
      (returning _ _ s s _ _ (get-present host request.body "document" s b) (
        returning _ _ s s _ _ (get-present host _ "id" s d) (
          returning _ _ s s _ _ (get-present host request.params "integrationId" s p) (
            throwing _ _ s after error
              (call-throws host (update_call enabled request) s error rejected)))))
      (returning _ _ after after _ _ (get-present host error "body" after e)
        (throwing _ _ after after _ (get-missing host (opt error "body") "message" after missing)))
