-- ===== src/Server/Indices.antt =====
-- server/services/IndexService.ts: every handler of the class.
pub mod Replies
use wazuh_dashboard_security.Base.{Bool, [], ◌∷◌}
use wazuh_dashboard_security.Json.{
  Json, str, object, obj, end, Fields, field, opt, or_else, text_array,
}
use wazuh_dashboard_security.Server.Client.{
  Host, Request, Reply, succeed, Action, pure, get_client, ◌>>=◌, call, get, error_message, handle,
}
use wazuh_dashboard_security.Server.Forward.{forward}
use wazuh_dashboard_security.Base.{List, String}
use wazuh_dashboard_security.Json.Text.{to_text}
use wazuh_dashboard_security.Server.Client.{ServerResponse}

-- Object.keys(v), of an object.
abbrev pub field_names : Fields → List String
field_names end = []
field_names (field k v fs) = k ∷ field_names fs

abbrev pub names : Json → List String
names (obj fs) = field_names fs
names _ = []

module _ (data_source_enabled : Bool) (host : Host) where
  unfoldable pub get_index_fields : Request → Action Reply
  get_index_fields request =
      handle
        (do
          index ← get host request.body "index"
          response ←
              call host (get_client data_source_enabled request) "indices.getFieldMapping"
                (object (("index", index) ∷ ("fields", text_array ("*" ∷ [])) ∷ []))
          found ← get host response (to_text index)
          pure (succeed (text_array (names (or_else (opt found "mappings") (object []))))))
        (error_message host)

  unfoldable pub get_indices : Request → Action Reply
  get_indices request =
      handle
        (do
          response ←
              call host (get_client data_source_enabled request) "cat.indices"
                (object (("format", str "json") ∷ []))
          pure (succeed (object (("indices", response) ∷ []))))
        (error_message host)

  unfoldable pub get_aliases : Request → Action Reply
  get_aliases request =
      handle
        (do
          response ←
              call host (get_client data_source_enabled request) "cat.aliases"
                (object (("format", str "json") ∷ ("h", str "alias,index") ∷ []))
          pure (succeed (object (("aliases", response) ∷ []))))
        (error_message host)

  unfoldable pub update_aliases : Request → Action Reply
  update_aliases request =
      handle
        (do
          response ←
              call host (get_client data_source_enabled request) "indices.updateAliases"
                (object (("body", request.body) ∷ []))
          pure (record { status_code = 200; body = ServerResponse.no_body }))
        (error_message host)
