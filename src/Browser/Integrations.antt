-- ===== src/Browser/Integrations.antt =====
-- public/services/IntegrationService.ts.
use wazuh_dashboard_security.Base.{String, [], ◌∷◌, Option, none, some, if◌then◌else◌, ◌==◌}
use wazuh_dashboard_security.Json.{Json, str, object, text_array, opt}
use wazuh_dashboard_security.Json.Text.{◌&◌}
use wazuh_dashboard_security.Server.Routes.{Method}
use wazuh_dashboard_security.Browser.{Exchange, Page, ask, scoped, json_body}
use wazuh_dashboard_security.Browser.Api

-- What is missing counts as the empty text.
abbrev or_empty : Option String → String
or_empty none = ""
or_empty (some s) = s

-- By its id alone, or all of a space, or of every space.
unfoldable pub integrations_query : Option String → Option String → Json
integrations_query space_filter id =
    if or_empty id == ""
    then object (
        (
          "bool",
          object (
              (
                "must",
                object (
                    (
                      "query_string",
                      object (
                          (
                            "query",
                            str (
                                "space.name:"
                                & (if or_empty space_filter == ""
                                    then "*"
                                    else or_empty space_filter)),
                          )
                          ∷ []),
                    )
                    ∷ []),
              )
              ∷ []),
        )
        ∷ [])
    else object (("terms", object (("_id", text_array (or_empty id ∷ [])) ∷ [])) ∷ [])

module _ (page : Page) where
  unfoldable pub create_integration : Json → Exchange
  create_integration integration = ask (record {
    method = Method.post;
    url = ".." & Api.integration_base;
    query = scoped page;
    body = json_body page integration;
  })

  unfoldable pub search_integrations : Option String → Option String → Exchange
  unfolding integrations_query
  search_integrations space_filter id = ask (record {
    method = Method.post;
    url = ".." & Api.integration_base & "/_search";
    query = scoped page;
    body = json_body page (integrations_query space_filter id);
  })

  -- The document and the space alone.
  unfoldable pub update_integration : String → Json → Exchange
  unfolding opt
  update_integration integration_id integration = ask (record {
    method = Method.put;
    url = ".." & Api.integration_base & "/" & integration_id;
    query = scoped page;
    body = json_body page (
        object
          (("document", opt integration "document") ∷ ("space", opt integration "space") ∷ []));
  })

  unfoldable pub delete_integration : String → Exchange
  delete_integration integration_id = ask (record {
    method = Method.delete;
    url = ".." & Api.integration_base & "/" & integration_id;
    query = scoped page;
    body = none;
  })

  unfoldable pub get_promote_integration : String → Exchange
  get_promote_integration space = ask (record {
    method = Method.get;
    url = ".." & Api.integration_base & "/promote/" & space;
    query = scoped page;
    body = none;
  })

  unfoldable pub promote_integration : Json → Exchange
  promote_integration data_ = ask (record {
    method = Method.post;
    url = ".." & Api.integration_base & "/promote";
    query = scoped page;
    body = json_body page data_;
  })
