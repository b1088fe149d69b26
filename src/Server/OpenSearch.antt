-- ===== src/Server/OpenSearch.antt =====
-- server/services/OpenSearchService.ts: every handler of the class. JSON.stringify is `stringify`.
pub mod Replies
use wazuh_dashboard_security.Base.{Bool, [], ◌∷◌}
use wazuh_dashboard_security.Json.{Json, str, object, opt, default, obj, field, end}
use wazuh_dashboard_security.Server.Client.{
  Host, Request, Reply, succeed, Action, pure, get_client, ◌>>=◌, call, get, error_message, handle,
}
use wazuh_dashboard_security.Server.Forward.{forward}
use wazuh_dashboard_security.Json.Text.{to_text}
use wazuh_dashboard_security.Server.Client.{try_catch, ServerResponse}

module _ (data_source_enabled : Bool) (host : Host) (stringify : Json → Json) where
  unfoldable pub document_ids_query : Request → Action Reply
  document_ids_query request =
      handle
        (do
          index ← get host request.body "index"
          let document_ids = opt request.body "documentIds"
          forward host (get_client data_source_enabled request) "search" (
              object (
                ("index", index)
                ∷ (
                  "body",
                  stringify (
                      object (
                        ("query", object (("terms", object (("_id", document_ids) ∷ [])) ∷ []))
                        ∷ [])),
                )
                ∷ [])))
        (error_message host)

  unfoldable pub time_range_query : Request → Action Reply
  time_range_query request =
      handle
        (do
          index ← get host request.query "index"
          let time_field = default (opt request.query "timeField") (str "timestamp")
          let start_time = default (opt request.query "startTime") (str "now-15m")
          let end_time = default (opt request.query "endTime") (str "now")
          let between = object (("gte", start_time) ∷ ("lt", end_time) ∷ [])
          forward host (get_client data_source_enabled request) "search" (
              object (
                ("index", index)
                ∷ (
                  "body",
                  stringify (
                      object (
                        (
                          "query",
                          object (("range", obj (field (to_text time_field) between end)) ∷ []),
                        )
                        ∷ [])),
                )
                ∷ [])))
        (error_message host)

  -- A failure carries the message as its response.
  unfoldable pub get_plugins : Request → Action Reply
  get_plugins request =
      try_catch
        (forward host (get_client data_source_enabled request) "cat.plugins"
          (object (("format", str "json") ∷ ("h", str "component") ∷ [])))
        (λ error. do
          message ← error_message host error
          pure (record { status_code = 200; body = ServerResponse.refusal message }))
