-- ===== src/Browser/Sources.antt =====
-- public/services: IndexService.ts, FieldMappingService.ts, NotificationsService.ts and the
-- requests of OpenSearchService.ts.
use wazuh_dashboard_security.Base.{String, true, List, [], ◌∷◌, none, if◌then◌else◌, ◌==◌}
use wazuh_dashboard_security.Json.{
  Json, bool, str, arr, obj, nil, cons, Fields, end, object, array, text_array, truthy, opt,
  set_field, assign, spread, field, elems,
}
use wazuh_dashboard_security.Json.Text.{◌&◌}
use wazuh_dashboard_security.Server.Client.{Outcome, return, throw}
use wazuh_dashboard_security.Server.Routes.{Method}
use wazuh_dashboard_security.Browser.{
  Exchange, send, Page, quietly, ask, scoped, json_body, read, ◌>>=◌,
}
use wazuh_dashboard_security.Browser.Api

-- FieldMapping: the field of the rules, and that of the index.
pub record FieldMapping : Type 0 where
  pub rule_field_name : String
  pub index_field_name : String

-- alias_mappings.properties, write by write: a field that has the name already needs no alias.
unfoldable pub alias_properties : List FieldMapping → Fields → Fields
unfolding set_field
alias_properties [] properties = properties
alias_properties (mapping ∷ mappings) properties =
    let alias_ = object (("type", str "alias") ∷ ("path", str mapping.index_field_name) ∷ []) in
    alias_properties mappings (
      if mapping.rule_field_name == mapping.index_field_name
      then properties
      else set_field mapping.rule_field_name alias_ properties)

abbrev in_front : Json → Json → Json
in_front v (arr vs) = arr (cons v vs)
in_front v _ = arr (cons v nil)

module _ (page : Page) where
  unfoldable pub get_index_fields : String → Exchange
  get_index_fields index_name = ask (record {
    method = Method.post;
    url = ".." & Api.indices_base;
    query = scoped page;
    body = json_body page (object (("index", str index_name) ∷ []));
  })

  unfoldable pub get_indices : Exchange
  get_indices = ask (record {
    method = Method.get;
    url = ".." & Api.indices_base;
    query = scoped page;
    body = none;
  })

  unfoldable pub get_aliases : Exchange
  get_aliases = ask (record {
    method = Method.get;
    url = ".." & Api.aliases_base;
    query = scoped page;
    body = none;
  })

  unfoldable pub update_aliases : Json → Exchange
  update_aliases actions = ask (record {
    method = Method.post;
    url = ".." & Api.update_aliases;
    query = scoped page;
    body = json_body page actions;
  })

  unfoldable pub get_mappings_view : String → Json → Exchange
  get_mappings_view index_name rule_topic = ask (record {
    method = Method.get;
    url = ".." & Api.mappings_view;
    query = object (
        ("indexName", str index_name)
        ∷ ("ruleTopic", rule_topic)
        ∷ ("dataSourceId", page.data_source_id)
        ∷ []);
    body = none;
  })

  unfoldable pub create_mappings : String → String → List FieldMapping → Exchange
  unfolding alias_properties
  create_mappings index_name rule_topic field_mappings = ask (record {
    method = Method.post;
    url = ".." & Api.mappings_base;
    query = scoped page;
    body = json_body page (
        object (
          ("index_name", str index_name)
          ∷ ("rule_topic", str rule_topic)
          ∷ ("partial", bool true)
          ∷ (
            "alias_mappings",
            object (("properties", obj (alias_properties field_mappings end)) ∷ []),
          )
          ∷ []));
  })

  unfoldable pub get_mappings : String → Exchange
  get_mappings index_name = ask (record {
    method = Method.get;
    url = ".." & Api.mappings_base;
    query = object (("indexName", str index_name) ∷ ("dataSourceId", page.data_source_id) ∷ []);
    body = none;
  })

  unfoldable pub get_index_alias_fields : String → Exchange
  get_index_alias_fields index_name = ask (record {
    method = Method.get;
    url = ".." & Api.mappings_base & "/fields/" & index_name;
    query = scoped page;
    body = none;
  })

  unfoldable pub get_channel : String → Exchange
  get_channel channel_id = ask (record {
    method = Method.get;
    url = ".." & Api.channels & "/" & channel_id;
    query = scoped page;
    body = none;
  })

  unfoldable pub get_channels : Exchange
  get_channels =
      ask (record {
        method = Method.get;
        url = ".." & Api.channels;
        query = scoped page;
        body = none;
      })

  unfoldable pub get_server_features : Exchange
  get_server_features = ask (record {
    method = Method.get;
    url = ".." & Api.notification_features;
    query = scoped page;
    body = none;
  })

  unfoldable pub get_plugins : Exchange
  get_plugins =
      ask
        (record { method = Method.get; url = ".." & Api.plugins; query = scoped page; body = none })

  -- ({ _id, _source }) => ({ id: _id, ..._source })
  unfoldable pub document_of : Json → Outcome Json
  unfolding read opt assign
  document_of hit = read page hit "_id" >>= λ id.
      return (obj (assign (field "id" id end) (spread (opt hit "_source"))))

  unfoldable pub documents_of : List Json → Outcome Json
  unfolding document_of
  documents_of [] = return (array [])
  documents_of (hit ∷ hits) =
      let rest = documents_of hits in
      document_of hit >>= λ document. (rest >>= λ found. return (in_front document found))

  -- res.response.hits.hits.map(…), or no documents.
  unfoldable pub documents_of_search : Json → Outcome Json
  unfolding read documents_of
  documents_of_search res = read page res "ok" >>= λ ok.
      if truthy ok
      then (read page res "response" >>= λ response.
          (read page response "hits" >>= λ hits.
          (read page hits "hits" >>= λ found. elim found [
            | arr vs ↦ documents_of (elems vs)
            | _ ↦ throw page.type_error
          ])))
      else return (array [])

  unfoldable pub get_documents : String → List String → Exchange
  unfolding documents_of_search
  get_documents index document_ids =
      send
        (record {
          method = Method.post;
          url = ".." & Api.document_ids_query;
          query = scoped page;
          body =
              json_body page
                (object (("index", str index) ∷ ("documentIds", text_array document_ids) ∷ []));
        })
        (λ result. quietly (result >>= documents_of_search))
