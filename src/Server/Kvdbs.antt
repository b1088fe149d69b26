-- ===== src/Server/Kvdbs.antt =====
-- server/services/KVDBsService.ts: every handler of the class.
pub mod Replies
use wazuh_dashboard_security.Base.{Bool, not, [], ◌∷◌, if◌then◌else◌}
use wazuh_dashboard_security.Json.{Json, null, str, object, array, text_array, truthy, nullish, opt}
use wazuh_dashboard_security.Server.Client.{
  Host, Request, Reply, succeed, fail, Action, pure, ◌>>=◌, get_client, call, get, get_length,
  error_body_message, error_message, handle,
}
use wazuh_dashboard_security.Server.Yaml.{Yaml, match_all, yaml_headers, build_yaml_body}

-- JSON.stringify is `stringify`.
module _ (data_source_enabled : Bool) (host : Host) (yaml : Yaml) (stringify : Json → Json) where
  unfoldable pub search_kvdbs : Request → Action Reply
  search_kvdbs request =
      handle
        (do
          let body = nullish request.body match_all
          response ←
              call host (get_client data_source_enabled request) "search"
                (object (("index", str "wazuh-threatintel-kvdbs") ∷ ("body", stringify body) ∷ []))
          pure (succeed response))
        (error_message host)

  unfoldable pub search_kvdb_integrations : Request → Action Reply
  search_kvdb_integrations request =
      handle
        (do
          let kvdb_ids = opt (nullish request.body (object (("kvdbIds", array []) ∷ []))) "kvdbIds"
          count ← get_length host kvdb_ids
          if not (truthy count)
              then pure (succeed (object (("hits", object (("hits", array []) ∷ [])) ∷ [])))
              else (do
                response ← call host (get_client data_source_enabled request) "search" (
                    object (
                      ("index", str "wazuh-threatintel-integrations")
                      ∷ (
                        "body",
                        stringify (
                            object (
                              ("size", count)
                              ∷ (
                                "query",
                                object (("terms", object (("document.kvdbs", kvdb_ids) ∷ [])) ∷ []),
                              )
                              ∷ (
                                "_source",
                                text_array (
                                    "document.id" ∷ "document.metadata.title" ∷ "document.kvdbs"
                                    ∷ []),
                              )
                              ∷ [])),
                      )
                      ∷ []))
                pure (succeed response)))
        (error_message host)

  unfoldable pub create_kvdb : Request → Action Reply
  create_kvdb request =
      handle
        (do
          resource ← get host request.body "resourceYaml"
          let integration_id = opt request.body "integrationId"
          if not (truthy resource) then pure (fail (str "KVDB resource is required")) else (do
            body ←
                build_yaml_body yaml resource
                  (if truthy integration_id then ("integration", integration_id) ∷ [] else [])
            response ←
                call host (get_client data_source_enabled request) "securityAnalytics.createKvdb"
                  (object (("body", body) ∷ ("headers", yaml_headers) ∷ []))
            pure (succeed response)))
        (error_body_message host)

  unfoldable pub update_kvdb : Request → Action Reply
  update_kvdb request =
      handle
        (do
          kvdb_id ← get host request.params "kvdbId"
          resource ← get host request.body "resourceYaml"
          if not (truthy resource) then pure (fail (str "KVDB resource is required")) else (do
            body ← build_yaml_body yaml resource []
            response ←
                call host (get_client data_source_enabled request) "securityAnalytics.updateKvdb"
                  (object (("body", body) ∷ ("kvdbId", kvdb_id) ∷ ("headers", yaml_headers) ∷ []))
            pure (succeed response)))
        (error_body_message host)

  unfoldable pub delete_kvdb : Request → Action Reply
  delete_kvdb request =
      handle
        (do
          kvdb_id ← get host request.params "kvdbId"
          response ←
              call host (get_client data_source_enabled request) "securityAnalytics.deleteKvdb"
                (object (("kvdbId", kvdb_id) ∷ []))
          pure (succeed null))
        (error_message host)
