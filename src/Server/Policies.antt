-- ===== src/Server/Policies.antt =====
-- server/services/PoliciesService.ts: every handler of the class.
pub mod Lookup
pub mod Replies
use wazuh_dashboard_security.Base.{
  String, Bool, true, List, [], ◌∷◌, ◌++◌, if◌then◌else◌, length, map, Option, none, some,
}
use wazuh_dashboard_security.Json.{
  Json, undefined, null, bool, num, str, arr, obj, end, elems, Fields, field, object, array,
  text_array, truthy, nullish, default, opt, path, set_field, assign, spread, same_value,
  is_nullish, at_zero,
}
use wazuh_dashboard_security.Json.Members.{data_member, Members, method_of}
use wazuh_dashboard_security.Json.Text.{to_text, js_length}
use wazuh_dashboard_security.Server.Client.{
  Target, Host, Request, Reply, succeed, fail, Action, pure, raise, get_client, ◌>>=◌, try_catch,
  call, get, each, map_each, error_body_message, error_message, handle,
}
use wazuh_dashboard_security.Server.SpaceCaps.{get_space_field_caps}
use wazuh_dashboard_security.Server.SpaceFilter.{apply_space_filter}

abbrev pub policies_index : String
policies_index = "wazuh-threatintel-policies"

abbrev pub integrations_index : String
integrations_index = "wazuh-threatintel-integrations"

-- Map<string, any>: integration id to its document.
abbrev pub IntegrationMap : Type 0
IntegrationMap = List (Json × Json)

unfoldable pub find_integration : Json → IntegrationMap → Option Json
unfolding same_value
find_integration id [] = none
find_integration id ((k, v) ∷ m) = if same_value k id then some v else find_integration id m

-- Map.prototype.set
unfoldable pub put_integration : Json → Json → IntegrationMap → IntegrationMap
unfolding same_value
put_integration id v [] = (id, v) ∷ []
put_integration id v ((k, w) ∷ m) =
    if same_value k id then (k, v) ∷ m else (k, w) ∷ put_integration id v m

-- new Map(pairs)
unfoldable pub map_of : List (Json × Json) → IntegrationMap → IntegrationMap
unfolding put_integration
map_of [] m = m
map_of ((id, v) ∷ pairs) m = map_of pairs (put_integration id v m)

-- Array.prototype.flat()
unfoldable pub flat : List Json → List Json
flat [] = []
flat (arr vs ∷ rest) = elems vs ++ flat rest
flat (v ∷ rest) = v ∷ flat rest

-- typeof total === 'number' ? total : total?.value ?? count
unfoldable pub total_of : Json → List Json → Json
unfolding path opt
total_of response found = elim (path response ("hits" ∷ "total" ∷ [])) [
  | num n ↦ num n
  | other ↦ nullish (opt other "value") (num (length found))
]

abbrev pub default_integration_source : Json
default_integration_source = object (
    (
      "includes",
      text_array (
          "document.id" ∷ "document.metadata.title" ∷ "document.category" ∷ "document.rules"
          ∷ "document.decoders" ∷ "document.kvdbs" ∷ "space.name" ∷ []),
    )
    ∷ [])

module _ (host : Host) where
  -- [hit?._source?.document?.id, { _id: hit._id, ...hit._source }]
  unfoldable pub integration_pairs : List Json → Action (List (Json × Json))
  integration_pairs [] = pure []
  integration_pairs (hit ∷ hits) = do
    _id ← get host hit "_id"
    source ← get host hit "_source"
    rest ← integration_pairs hits
    pure (
        (path source ("document" ∷ "id" ∷ []), obj (assign (field "_id" _id end) (spread source)))
        ∷ rest)

  -- The ids are what the caller passes: reading their length throws on undefined.
  unfoldable pub fetch_integration_map :
      Target → Json → Json → Json → Action (IntegrationMap × Json)
  fetch_integration_map client space ids options =
      if is_nullish ids
      then raise host.type_error
      else (if truthy (js_length ids)
          then (do
            caps ← get_space_field_caps host client policies_index
            try_catch
                (do
                  response ← call host client "search" (
                      object (
                        ("index", str integrations_index)
                        ∷ (
                          "body",
                          object (
                              ("size", js_length ids)
                              ∷ ("track_total_hits", bool true)
                              ∷ (
                                "query",
                                apply_space_filter
                                    (object (("terms", object (("document.id", ids) ∷ [])) ∷ []))
                                    space caps.search_fields,
                              )
                              ∷ (
                                "_source",
                                nullish (opt options "_source") default_integration_source,
                              )
                              ∷ []),
                        )
                        ∷ []))
                  hits ← each host (nullish (path response ("hits" ∷ "hits" ∷ [])) (array []))
                  pairs ← integration_pairs hits
                  pure (map_of pairs [], total_of response hits))
                (λ error. pure ([], num 0)))
          else pure ([], num 0))

  -- doc.rules?.length ?? 0
  abbrev pub count_of : Json → String → Json
  count_of doc k = nullish (js_length (opt doc k)) (num 0)

  -- The entry of one integration of a policy, as its table shows it.
  unfoldable pub table_entry : Json → Json
  unfolding opt js_length
  table_entry integration =
      let doc = nullish (opt integration "document") (obj end) in
      object (
        ("_id", opt integration "_id")
        ∷ (
          "document",
          object (
              ("metadata", nullish (opt doc "metadata") (obj end))
              ∷ ("category", nullish (opt doc "category") (str ""))
              ∷ ("rulesCount", count_of doc "rules")
              ∷ ("decodersCount", count_of doc "decoders")
              ∷ ("kvdbsCount", count_of doc "kvdbs")
              ∷ []),
        )
        ∷ ("space", nullish (opt integration "space") (obj end))
        ∷ [])

  -- Object.fromEntries(ids.filter(has).map(…))
  unfoldable pub entries_of : IntegrationMap → List Json → Fields → Fields
  unfolding find_integration table_entry set_field to_text
  entries_of m [] out = out
  entries_of m (id ∷ ids) out = entries_of m ids (elim (find_integration id m) [
    | none ↦ out
    | some integration ↦ set_field (to_text id) (table_entry integration) out
  ])

  unfoldable pub policy_item : Bool → IntegrationMap → Json → Json → Action Json
  policy_item with_map m total hit = do
    _id ← get host hit "_id"
    source ← get host hit "_source"
    ids ←
        (if with_map
          then each host (nullish (path source ("document" ∷ "integrations" ∷ [])) (array []))
          else pure [])
    pure (
        obj (
          set_field "integrationsMap" (obj (entries_of m ids end))
            (set_field "integrationsTotal" total (assign (field "id" _id end) (spread source)))))

-- _source === undefined ? { includes: ['document', 'space'] } : _source
abbrev pub default_source : Json
default_source = object (("includes", text_array ("document" ∷ "space" ∷ [])) ∷ [])

-- The members of the object { integrations, total } that fetchIntegrationMap gives. The Map has a
-- get; the object that holds it has none.
abbrev pub fetched_members : Members
fetched_members = ("integrations", data_member) ∷ ("total", data_member) ∷ []

-- o.name(argument)
unfoldable pub invoke : Host → String → Members → Json → Action Json
unfolding method_of
invoke host name members argument = elim (method_of name members) [
  | none ↦ raise host.type_error
  | some f ↦ pure (f argument)
]

module _ (data_source_enabled : Bool) (host : Host) where
  unfoldable pub search_policies : Request → Action Reply
  search_policies request =
      let body = nullish request.body (obj end) in
      let space = path request.query ("space" ∷ []) in
      let with_map = truthy (default (opt body "includeIntegrationsMap") (bool true)) in
      let client = get_client data_source_enabled request in
      handle
        (do
          caps ← get_space_field_caps host client policies_index
          response ← call host client "search" (
              object (
                ("index", str policies_index)
                ∷ (
                  "body",
                  object (
                      ("from", default (opt body "from") (num 0))
                      ∷ ("size", default (opt body "size") (num 25))
                      ∷ ("sort", opt body "sort")
                      ∷ ("track_total_hits", bool true)
                      ∷ ("_source", default (opt body "_source") default_source)
                      ∷ ("query", apply_space_filter (opt body "query") space caps.search_fields)
                      ∷ []),
                )
                ∷ []))
          let found = nullish (path response ("hits" ∷ "hits" ∷ [])) (array [])
          hits ← each host found
          fetched ←
              (if with_map
                then fetch_integration_map host client space
                    (array (
                      flat (
                        map (λ hit. path hit ("_source" ∷ "document" ∷ "integrations" ∷ [])) hits)))
                    (object (("_source", opt body "includeIntegrationFields") ∷ []))
                else pure ([], num 0))
          found_items ← map_each host (policy_item host with_map fetched.0 fetched.1) hits
          pure (
              succeed (
                object
                  (("total", total_of response found_items) ∷ ("items", array found_items) ∷ []))))
        (error_message host)

  -- The search for the policy, in its space.
  unfoldable pub policy_search : Request → Action Json
  policy_search request = do
    caps ← get_space_field_caps host (get_client data_source_enabled request) policies_index
    call host (get_client data_source_enabled request) "search" (
        object (
          ("index", str policies_index)
          ∷ (
            "body",
            object (
                ("size", num 1)
                ∷ (
                  "query",
                  apply_space_filter
                      (object (
                        (
                          "ids",
                          object (("values", array (opt request.params "policyId" ∷ [])) ∷ []),
                        )
                        ∷ []))
                      (path request.query ("space" ∷ [])) caps.search_fields,
                )
                ∷ []),
          )
          ∷ []))

  -- The reply for what was found. fetchIntegrationMap is called with the ids in the place of the
  -- space, and no ids.
  unfoldable pub policy_reply : Request → Json → Action Reply
  policy_reply request response =
      let hit = at_zero (path response ("hits" ∷ "hits" ∷ [])) in
      if truthy hit
      then (do
        _id ← get host hit "_id"
        fetched ←
            fetch_integration_map host (get_client data_source_enabled request) (array (_id ∷ []))
              undefined undefined
        source ← get host hit "_source"
        integrations ← invoke host "get" fetched_members _id
        pure (
            succeed (
              object (
                (
                  "item",
                  obj (
                      set_field "integrations" (nullish integrations (array []))
                        (assign (field "id" _id end) (spread source))),
                )
                ∷ []))))
      else pure (fail (str "Policy not found"))

  unfoldable pub get_policy : Request → Action Reply
  get_policy request =
      handle (do response ← policy_search request; policy_reply request response)
        (error_message host)

  unfoldable pub update_policy : Request → Action Reply
  update_policy request =
      handle
        (do
          response ←
              call host (get_client data_source_enabled request) "securityAnalytics.updatePolicy" (
                object (
                  ("space", opt request.params "space")
                  ∷ ("body", object (("resource", request.body) ∷ []))
                  ∷ []))
          pure (succeed response))
        (error_body_message host)

  unfoldable pub delete_space : Request → Action Reply
  delete_space request =
      handle
        (do
          response ←
              call host (get_client data_source_enabled request) "securityAnalytics.deleteSpace"
                (object (("space", opt request.params "space") ∷ []))
          pure (succeed null))
        (error_body_message host)
