-- ===== src/Server/Integrations.antt =====
-- server/services/IntegrationService.ts: every handler of the class, and resolvePromoteEntity.
pub mod Replies
pub mod Rejects
use Prim.Native.Char.{code}
use Prim.Native.String
use wazuh_dashboard_security.Base.{
  String, Bool, false, not, List, [], ◌∷◌, ◌&&◌, if◌then◌else◌, Option, none, some, keep, nat_eq,
  ltb,
}
use wazuh_dashboard_security.Json.{
  Json, bool, num, str, obj, end, Fields, object, array, text_array, truthy, nullish, get_field,
  set_field, assign, spread, omit,
}
use wazuh_dashboard_security.Json.Text.{to_text, js_length, is_word}
use wazuh_dashboard_security.Server.Client.{
  Target, Host, Request, Reply, succeed, Action, pure, ◌>>=◌, raise, get_client, call, get,
  get_length, each, error_body, error_body_message, error_message, error_body_message_unguarded,
  handle,
}
use wazuh_dashboard_security.Spaces.{get_next_space}

-- id.replace(/^\w_/, '')
unfoldable pub strip_prefix : String → String
unfolding is_word
strip_prefix (String.◌∷◌ c (String.◌∷◌ d rest)) =
    if is_word (code c) && nat_eq (code d) 95 then rest else String.◌∷◌ c (String.◌∷◌ d rest)
strip_prefix s = s

-- length > 0, where a length is a number or missing
abbrev pub is_positive : Json → Bool
is_positive (num n) = ltb 0 n
is_positive _ = false

-- The index, the space and the properties of a lookup.
pub record EntityQuery : Type 0 where
  pub index : String
  pub space : Json
  pub name_prop : String
  pub id_prop : String

-- lodash's get is `lodash_get`.
module _ (host : Host) (lodash_get : Json → String → Json) where
  -- promoteEntityData.map(({ id }) => id.replace(…)): only a text has a replace.
  unfoldable pub strip_id : Json → Action String
  unfolding strip_prefix
  strip_id (str id) = pure (strip_prefix id)
  strip_id _ = raise host.type_error

  unfoldable pub entity_ids : List Json → Action (List String)
  entity_ids [] = pure []
  entity_ids (entity ∷ entities) = do
    id ← get host entity "id"
    stripped ← strip_id id
    rest ← entity_ids entities
    pure (stripped ∷ rest)

  -- Object.fromEntries(hits.map(({ _source }) => [id, name]))
  unfoldable pub names_of : EntityQuery → List Json → Fields → Action Fields
  unfolding set_field to_text
  names_of q [] out = pure out
  names_of q (hit ∷ hits) out = do
    source ← get host hit "_source"
    names_of q hits
        (set_field (to_text (lodash_get source q.id_prop)) (lodash_get source q.name_prop) out)

  unfoldable pub search_entity_by_ids_and_space :
      Target → EntityQuery → List String → Json → Action Fields
  search_entity_by_ids_and_space client q [] space = pure end
  search_entity_by_ids_and_space client q (id ∷ ids) space = do
    response ← call host client "search" (
        object (
          ("index", str q.index)
          ∷ (
            "body",
            object (
                ("size", num 10000)
                ∷ ("_source", text_array (q.name_prop ∷ q.id_prop ∷ []))
                ∷ (
                  "query",
                  object (
                      (
                        "bool",
                        object (
                            (
                              "must",
                              array (
                                  object (
                                    ("terms", object ((q.id_prop, text_array (id ∷ ids)) ∷ []))
                                    ∷ [])
                                  ∷ object (("term", object (("space.name", space) ∷ [])) ∷ [])
                                  ∷ []),
                            )
                            ∷ []),
                      )
                      ∷ []),
                )
                ∷ []),
          )
          ∷ []))
    outer ← get host response "hits"
    inner ← get host outer "hits"
    hits ← each host inner
    names_of q hits end

  -- ids.filter((id) => !entities[id])
  unfoldable pub unresolved : Fields → List String → List String
  unfolding get_field
  unresolved entities ids = keep (λ id. not (truthy (get_field id entities))) ids

  -- The names of the entities, those of the current space first, then those of the target's that
  -- the current space does not have.
  unfoldable pub in_target_space :
      Target → EntityQuery → List String → Fields → String → Action Fields
  unfolding assign
  in_target_space client q [] current target = pure current
  in_target_space client q (id ∷ ids) current target = do
    others ← search_entity_by_ids_and_space client q (id ∷ ids) (str target)
    pure (assign (assign end others) current)

  unfoldable pub resolve_promote_entity :
      Target → Json → EntityQuery → Option String → Action Fields
  unfolding unresolved
  resolve_promote_entity client entity_data q target_space = do
    entities ← each host entity_data
    ids ← entity_ids entities
    current ← search_entity_by_ids_and_space client q ids q.space
    elim target_space [
      | none ↦ pure current
      | some target ↦ in_target_space client q (unresolved current ids) current target
    ]

  -- One kind of entity of the promotion: its changes, where there are any, resolved to names.
  unfoldable pub promote_entities : Target → Json → EntityQuery → Option String → Json → Action Json
  promote_entities client entity_data q target_space count =
      if is_positive count
      then (do names ← resolve_promote_entity client entity_data q target_space; pure (obj names))
      else pure (obj end)

abbrev pub next_of : Json → Option String
next_of (str space) = get_next_space space
next_of _ = none

module _ (data_source_enabled : Bool) (host : Host) (lodash_get : Json → String → Json) where
  unfoldable pub create_integration : Request → Action Reply
  create_integration request =
      handle
        (do
          document ← get host request.body "document"
          response ←
              call host (get_client data_source_enabled request)
                "securityAnalytics.createIntegration"
                (object (("body", object (("resource", document) ∷ [])) ∷ []))
          pure (succeed response))
        (error_body host)

  unfoldable pub search_integrations : Request → Action Reply
  search_integrations request =
      handle
        (do
          response ← call host (get_client data_source_enabled request) "search" (
              object (
                ("index", str "wazuh-threatintel-integrations")
                ∷ (
                  "body",
                  object (
                      ("size", num 10000)
                      ∷ ("query", nullish request.body (object (("match_all", object []) ∷ [])))
                      ∷ []),
                )
                ∷ []))
          pure (succeed response))
        (error_message host)

  -- const { document: { id, date, modified, ...document } } = request.body
  unfoldable pub update_integration : Request → Action Reply
  unfolding omit
  update_integration request =
      handle
        (do
          whole ← get host request.body "document"
          id ← get host whole "id"
          integration_id ← get host request.params "integrationId"
          response ←
              call host (get_client data_source_enabled request)
                "securityAnalytics.updateIntegration"
                (object (
                  (
                    "body",
                    object (
                        ("resource", obj (omit "modified" (omit "date" (omit "id" (spread whole)))))
                        ∷ []),
                  )
                  ∷ ("integrationId", integration_id)
                  ∷ []))
          pure (succeed response))
        (error_body_message_unguarded host)

  unfoldable pub available_promotions : Target → Json → Json → Option String → Action Json
  available_promotions client space changes target_space =
      let query : String → String → EntityQuery = λ index name_prop. record {
        index = index;
        space = space;
        name_prop = name_prop;
        id_prop = "document.id";
      } in
      do
        integrations ← get host changes "integrations"
        integrations_count ← get_length host integrations
        integration_names ←
            promote_entities host lodash_get client integrations
              (query "wazuh-threatintel-integrations" "document.metadata.title") target_space
              integrations_count
        decoders ← get host changes "decoders"
        decoders_count ← get_length host decoders
        decoder_names ←
            promote_entities host lodash_get client decoders
              (query "wazuh-threatintel-decoders" "document.name") target_space decoders_count
        kvdbs ← get host changes "kvdbs"
        kvdbs_count ← get_length host kvdbs
        kvdb_names ←
            promote_entities host lodash_get client kvdbs
              (query "wazuh-threatintel-kvdbs" "document.metadata.title") target_space kvdbs_count
        filters ← get host changes "filters"
        filters_count ← get_length host filters
        filter_names ←
            promote_entities host lodash_get client filters
              (query "wazuh-threatintel-filters" "document.metadata.title") target_space
              filters_count
        policy ← get host changes "policy"
        policy_count ← get_length host policy
        policy_names ←
            promote_entities host lodash_get client policy
              (query "wazuh-threatintel-policies" "document.metadata.title") target_space
              policy_count
        rules ← get host changes "rules"
        rule_names ←
            promote_entities host lodash_get client rules
              (query "wazuh-threatintel-rules" "document.metadata.title") target_space
              (js_length rules)
        pure (
            object (
              ("integrations", integration_names)
              ∷ ("decoders", decoder_names)
              ∷ ("kvdbs", kvdb_names)
              ∷ ("filters", filter_names)
              ∷ ("policy", policy_names)
              ∷ ("rules", rule_names)
              ∷ []))

  unfoldable pub get_promote_by_space : Request → Action Reply
  get_promote_by_space request =
      handle
        (do
          space ← get host request.params "space"
          let client = get_client data_source_enabled request
          promote ←
              call host client "securityAnalytics.getPromoteBySpace"
                (object (("space", space) ∷ []))
          changes ← get host promote "changes"
          available ← available_promotions client space changes (next_of space)
          pure (succeed (object (("promote", promote) ∷ ("available_promotions", available) ∷ []))))
        (error_body host)

  unfoldable pub promote_integration : Request → Action Reply
  promote_integration request =
      handle
        (do
          response ←
              call host (get_client data_source_enabled request)
                "securityAnalytics.promoteIntegration" (object (("body", request.body) ∷ []))
          pure (succeed response))
        (error_body_message host)

  unfoldable pub delete_integration : Request → Action Reply
  delete_integration request =
      handle
        (do
          integration_id ← get host request.params "integrationId"
          response ←
              call host (get_client data_source_enabled request)
                "securityAnalytics.deleteIntegration"
                (object (("integrationId", integration_id) ∷ []))
          pure (succeed response))
        (error_body host)
