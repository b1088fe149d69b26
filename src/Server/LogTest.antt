-- ===== src/Server/LogTest.antt =====
-- server/services/LogTestService.ts: the handler, and formatLogTestServiceError.
pub mod Errors
pub mod Guards
pub mod Replies
use wazuh_dashboard_security.Base.{
  String, Bool, true, false, not, List, [], ◌∷◌, ◌==◌, if◌then◌else◌, Option, none, some,
}
use wazuh_dashboard_security.Json.{
  Json, undefined, null, str, arr, obj, end, elems, field, object, truthy, is_nullish, or_else, opt,
  set_field, spread,
}
use wazuh_dashboard_security.Json.Text.{trim}
use wazuh_dashboard_security.Server.Client.{
  Host, Request, Reply, succeed, fail, Action, pure, raise, get_client, ◌>>=◌, call, get, handle,
}

-- typeof v === 'string' && v.trim(), as the trimmed text where it is not empty
unfoldable pub text_of : Json → Option String
unfolding trim
text_of (str s) = if trim s == "" then none else some (trim s)
text_of _ = none

-- root.find(c => typeof c?.reason === 'string' && c.reason.trim()), and its reason
unfoldable pub first_reason : List Json → Option String
unfolding text_of opt
first_reason [] = none
first_reason (c ∷ causes) = elim (text_of (opt c "reason")) [
  | some reason ↦ some reason
  | none ↦ first_reason causes
]

unfoldable pub root_reason : Json → Option String
unfolding first_reason
root_reason (arr causes) = first_reason (elems causes)
root_reason _ = none

infixr 30 ◌otherwise◌
abbrev pub ◌otherwise◌ : Option String → Option String → Option String
some s otherwise o = some s
none otherwise o = o

unfoldable pub nested_text : Json → Option String
unfolding text_of root_reason opt
nested_text nested =
    text_of nested
    otherwise text_of (opt nested "reason")
    otherwise root_reason (opt nested "root_cause")

unfoldable pub body_text : Json → Option String
unfolding text_of nested_text opt
body_text body =
    text_of body otherwise text_of (opt body "message") otherwise nested_text (opt body "error")

abbrev pub unexpected : String
unexpected = "Log test failed due to an unexpected error."

unfoldable pub format_log_test_service_error : Json → String
unfolding body_text text_of opt
format_log_test_service_error error =
    elim (body_text (opt error "body") otherwise text_of (opt error "message")) [
      | some s ↦ s
      | none ↦ unexpected
    ]

-- rawMeta && typeof rawMeta === 'object' && !Array.isArray(rawMeta) && Object.keys(rawMeta).length
abbrev pub has_metadata : Json → Bool
has_metadata (obj end) = false
has_metadata (obj (field k v fs)) = true
has_metadata _ = false

module _ (host : Host) where
  -- location?.trim() || '-': only a text has a trim.
  unfoldable pub location_of : Json → Action Json
  unfolding trim
  location_of undefined = pure (str "-")
  location_of null = pure (str "-")
  location_of (str s) = pure (or_else (str (trim s)) (str "-"))
  location_of _ = raise host.type_error

  unfoldable pub read_log_test : Request → Action Json
  read_log_test request = do
    raw ← get host request.body "document"
    meta ← get host raw "metadata"
    location ← location_of (opt raw "location")
    pure (
        obj (
          set_field "metadata" (if has_metadata meta then meta else object [])
            (set_field "location" location (spread raw))))

module _ (data_source_enabled : Bool) (host : Host) where
  -- What follows once the client is there: the guards, and the call.
  unfoldable pub send_log_test : Request → Json → Action Reply
  send_log_test request test =
      if is_nullish (opt test "queue")
      then pure (fail (str "Queue is required."))
      else (if not (truthy (opt test "event"))
          then pure (fail (str "Event is required."))
          else (if not (truthy (opt test "space"))
              then pure (fail (str "Space is required."))
              else (do
                response ←
                    call host (get_client data_source_enabled request)
                      "securityAnalytics.executeLogtest" (object (("body", test) ∷ []))
                pure (succeed response))))

  unfoldable pub log_test : Request → Action Reply
  log_test request =
      handle (read_log_test host request >>= send_log_test request)
        (λ error. pure (str (format_log_test_service_error error)))
