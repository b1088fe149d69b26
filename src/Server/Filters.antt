-- ===== src/Server/Filters.antt =====
-- server/services/FiltersService.ts: every handler of the class.
pub mod Replies
use wazuh_dashboard_security.Base.{Bool, [], ◌∷◌}
use wazuh_dashboard_security.Json.{Json, null, str, object, nullish, opt}
use wazuh_dashboard_security.Server.Client.{
  Host, Request, Reply, succeed, Action, pure, get_client, ◌>>=◌, call, get, error_body_message,
  error_message, handle,
}
use wazuh_dashboard_security.Server.Yaml.{Yaml, match_all, yaml_headers, build_yaml_body}

module _ (data_source_enabled : Bool) (host : Host) (yaml : Yaml) (stringify : Json → Json) where
  unfoldable pub search_filters : Request → Action Reply
  search_filters request =
      handle
        (do
          let body = nullish request.body match_all
          response ←
              call host (get_client data_source_enabled request) "search" (
                object (("index", str "wazuh-threatintel-filters") ∷ ("body", stringify body) ∷ []))
          pure (succeed response))
        (error_message host)

  unfoldable pub create_filter : Request → Action Reply
  create_filter request =
      handle
        (do
          resource ← get host request.body "resourceYaml"
          body ← build_yaml_body yaml resource (("space", opt request.body "space") ∷ [])
          response ←
              call host (get_client data_source_enabled request) "securityAnalytics.createFilter"
                (object (("body", body) ∷ ("headers", yaml_headers) ∷ []))
          pure (succeed response))
        (error_body_message host)

  unfoldable pub update_filter : Request → Action Reply
  update_filter request =
      handle
        (do
          filter_id ← get host request.params "filterId"
          resource ← get host request.body "resourceYaml"
          body ← build_yaml_body yaml resource (("space", opt request.body "space") ∷ [])
          response ←
              call host (get_client data_source_enabled request) "securityAnalytics.updateFilter"
                (object (("filterId", filter_id) ∷ ("body", body) ∷ ("headers", yaml_headers) ∷ []))
          pure (succeed response))
        (error_body_message host)

  unfoldable pub delete_filter : Request → Action Reply
  delete_filter request =
      handle
        (do
          filter_id ← get host request.params "filterId"
          response ←
              call host (get_client data_source_enabled request) "securityAnalytics.deleteFilter"
                (object (("filterId", filter_id) ∷ []))
          pure (succeed null))
        (error_message host)
