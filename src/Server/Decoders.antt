-- ===== src/Server/Decoders.antt =====
-- server/services/DecodersService.ts: every handler of the class. The answers of the client are
-- arbitrary values, so each property read is the one of the source, with its optional chaining.
pub mod Replies
pub mod Titles
use wazuh_dashboard_security.Base.{
  String, Bool, true, List, [], ◌∷◌, ◌++◌, if◌then◌else◌, length, any, Option, none, some,
}
use wazuh_dashboard_security.Json.{
  at_zero, Json, undefined, null, bool, num, str, arr, obj, end, elems, field, object, array,
  text_array, truthy, nullish, default, opt, path, set_field, assign, spread, same_value,
}
use wazuh_dashboard_security.Json.Text.{◌&◌, to_text, js_length}
use wazuh_dashboard_security.Server.Client.{
  current_user, Host, Request, Reply, succeed, fail, Action, pure, ◌>>=◌, try_catch, call, get,
  each, map_each, error_body_message, handle,
}
use wazuh_dashboard_security.Server.SpaceCaps.{get_space_field_caps}
use wazuh_dashboard_security.Server.SpaceFilter.{apply_space_filter}

abbrev pub decoders_index : String
decoders_index = "wazuh-threatintel-decoders"

abbrev pub integrations_index : String
integrations_index = "wazuh-threatintel-integrations"

-- Map<string, string[]>: decoder id to the titles of its integrations.
abbrev pub IntegrationMap : Type 0
IntegrationMap = List (Json × List Json)

unfoldable pub titles_of : Json → IntegrationMap → Option (List Json)
titles_of id [] = none
titles_of id ((k, titles) ∷ m) = if same_value k id then some titles else titles_of id m

abbrev pub has_value : Json → List Json → Bool
has_value v vs = any (λ w. same_value w v) vs

-- title && !titles.includes(title) ? titles.push(title)
unfoldable pub add_title : Json → List Json → List Json
unfolding same_value
add_title title titles =
    if truthy title
    then (if has_value title titles then titles else titles ++ title ∷ [])
    else titles

-- One decoder id of one hit: the key is created if missing, then the title is added.
unfoldable pub add_integration : Json → Json → IntegrationMap → IntegrationMap
unfolding add_title
add_integration title id [] = (id, add_title title []) ∷ []
add_integration title id ((k, titles) ∷ m) =
    if same_value k id
    then (k, add_title title titles) ∷ m
    else (k, titles) ∷ add_integration title id m

unfoldable pub add_all : Json → List Json → IntegrationMap → IntegrationMap
unfolding add_integration
add_all title [] m = m
add_all title (id ∷ ids) m = add_all title ids (add_integration title id m)

-- Array.isArray(decoderRefs) ? decoderRefs : decoderRefs ? [decoderRefs] : []
abbrev pub refs_list : Json → List Json
refs_list (arr vs) = elems vs
refs_list v = if truthy v then v ∷ [] else []

unfoldable pub collect_hits : List Json → IntegrationMap → IntegrationMap
unfolding add_all path
collect_hits [] m = m
collect_hits (hit ∷ hits) m =
    let title = path hit ("_source" ∷ "document" ∷ "metadata" ∷ "title" ∷ []) in
    let ids = refs_list (path hit ("_source" ∷ "document" ∷ "decoders" ∷ [])) in
    collect_hits hits (add_all title ids m)

module _ (host : Host) where
  unfoldable pub fetch_integration_map : List Json → Action IntegrationMap
  fetch_integration_map [] = pure []
  fetch_integration_map (id ∷ ids) =
      try_catch
        (do
          response ← call host current_user "search" (
              object (
                ("index", str integrations_index)
                ∷ (
                  "body",
                  object (
                      ("size", num 10000)
                      ∷ (
                        "query",
                        object
                            (("terms", object (("document.decoders", array (id ∷ ids)) ∷ [])) ∷ []),
                      )
                      ∷ (
                        "_source",
                        text_array ("document.metadata.title" ∷ "document.decoders" ∷ []),
                      )
                      ∷ []),
                )
                ∷ []))
          hits ← each host (nullish (path response ("hits" ∷ "hits" ∷ [])) (array []))
          pure (collect_hits hits []))
        (λ error. pure [])

  -- hit._source?.document?.id ?? hit._id
  unfoldable pub decoder_id : Json → Action Json
  decoder_id hit = do
    source ← get host hit "_source"
    _id ← get host hit "_id"
    pure (nullish (path source ("document" ∷ "id" ∷ [])) _id)

  -- { id: hit._id, ...hit._source, integrations: integrationMap.get(id) ?? [] }
  unfoldable pub decoder_item : IntegrationMap → Json → Action Json
  decoder_item m hit = do
    id ← decoder_id hit
    _id ← get host hit "_id"
    source ← get host hit "_source"
    pure (
        obj (
          set_field "integrations"
            (array (elim (titles_of id m) [ none ↦ [] | some titles ↦ titles ]))
            (assign (field "id" _id end) (spread source))))

-- typeof hits.total === 'number' ? hits.total : hits.total?.value ?? items.length
unfoldable pub total_of : Json → List Json → Json
unfolding path
total_of response found = elim (path response ("hits" ∷ "total" ∷ [])) [
  | num n ↦ num n
  | other ↦ nullish (path other ("value" ∷ [])) (num (length found))
]

-- _source === undefined ? { includes: […] } : _source
abbrev pub default_source : Json
default_source = object (
    (
      "includes",
      text_array (
          "document.id" ∷ "document.name" ∷ "document.metadata.title" ∷ "document.metadata.author"
          ∷ "space" ∷ []),
    )
    ∷ [])

module _ (host : Host) where
  unfoldable pub search_decoders : Request → Action Reply
  search_decoders request =
      let body = nullish request.body (obj end) in
      let space = path request.query ("space" ∷ []) in
      handle
        (do
          caps ← get_space_field_caps host current_user decoders_index
          response ← call host current_user "search" (
              object (
                ("index", str decoders_index)
                ∷ (
                  "body",
                  object (
                      ("from", default (opt body "from") (num 0))
                      ∷ ("size", default (opt body "size") (num 25))
                      ∷ ("sort", opt body "sort")
                      ∷ ("track_total_hits", bool true)
                      ∷ ("_source", default (opt body "_source") default_source)
                      ∷ ("query", apply_space_filter (opt body "query") space caps.search_fields)
                      ∷ []),
                )
                ∷ []))
          hits ← each host (nullish (path response ("hits" ∷ "hits" ∷ [])) (array []))
          ids ← map_each host (decoder_id host) hits
          m ← fetch_integration_map host ids
          found ← map_each host (decoder_item host m) hits
          pure
              (succeed (object (("total", total_of response found) ∷ ("items", array found) ∷ []))))
        (error_body_message host)

  -- searchResponse?.hits?.hits?.[0]
  abbrev pub first_hit : Json → Json
  first_hit response = at_zero (path response ("hits" ∷ "hits" ∷ []))

  unfoldable pub get_decoder : Request → Action Reply
  get_decoder request =
      let space = path request.query ("space" ∷ []) in
      let decoder_id' = opt request.params "decoderId" in
      handle
        (do
          caps ← get_space_field_caps host current_user decoders_index
          response ← call host current_user "search" (
              object (
                ("index", str decoders_index)
                ∷ (
                  "body",
                  object (
                      ("size", num 1)
                      ∷ (
                        "query",
                        apply_space_filter
                            (object (("term", object (("document.id", decoder_id') ∷ [])) ∷ []))
                            space caps.search_fields,
                      )
                      ∷ []),
                )
                ∷ []))
          let hit = first_hit response
          if truthy hit
              then (do
                doc_id ← decoder_id host hit
                m ← fetch_integration_map host (doc_id ∷ [])
                item ← decoder_item host m hit
                pure (succeed (object (("item", item) ∷ []))))
              else pure (fail (str "Decoder not found")))
        (error_body_message host)

  unfoldable pub create_decoder : Request → Action Reply
  create_decoder request =
      handle
        (do
          document ← get host request.body "documentJson"
          integration ← get host request.body "integrationId"
          if truthy document
              then (do
                response ← call host current_user "securityAnalytics.createDecoder" (
                    object (
                      (
                        "body",
                        str (
                            "{\"resource\":"
                            & to_text document
                            & ",\"integration\":\""
                            & to_text integration
                            & "\"}"),
                      )
                      ∷ []))
                pure (succeed response))
              else pure (fail (str "Decoder document is required")))
        (error_body_message host)

  unfoldable pub update_decoder : Request → Action Reply
  update_decoder request =
      handle
        (do
          document ← get host request.body "documentJson"
          if truthy document
              then (do
                response ← call host current_user "securityAnalytics.updateDecoder" (
                    object (
                      ("body", str ("{\"resource\":" & to_text document & "}"))
                      ∷ ("decoderId", opt request.params "decoderId")
                      ∷ []))
                pure (succeed response))
              else pure (fail (str "Decoder document is required")))
        (error_body_message host)

  unfoldable pub delete_decoder : Request → Action Reply
  delete_decoder request =
      handle
        (do
          response ←
              call host current_user "securityAnalytics.deleteDecoder"
                (object (("decoderId", opt request.params "decoderId") ∷ []))
          pure (succeed null))
        (error_body_message host)

  unfoldable pub get_draft_integrations : Request → Action Reply
  get_draft_integrations request =
      handle
        (do
          response ← call host current_user "search" (
              object (
                ("index", str integrations_index)
                ∷ (
                  "body",
                  object (
                      ("size", num 10000)
                      ∷ (
                        "query",
                        object (
                            (
                              "term",
                              object (("space.name", object (("value", str "draft") ∷ [])) ∷ []),
                            )
                            ∷ []),
                      )
                      ∷ ("_source", bool true)
                      ∷ []),
                )
                ∷ []))
          let hits = nullish (path response ("hits" ∷ "hits" ∷ [])) (array [])
          pure (succeed (object (("total", js_length hits) ∷ ("items", hits) ∷ []))))
        (error_body_message host)
