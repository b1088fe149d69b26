-- ===== src/Server/FieldMappings.antt =====
-- server/services/FieldMappingService.ts: every handler of the class, and extractFieldsFromMappings
-- of common/helpers.ts. Mappings are objects, whose fields have the property `properties` or have
-- not.
pub mod Replies
use wazuh_dashboard_security.Base.{Bool, not, String, List, [], ◌∷◌, ◌++◌, ◌==◌, if◌then◌else◌}
use wazuh_dashboard_security.Json.{
  Json, undefined, null, arr, obj, Items, nil, cons, Fields, end, field, object, text_array, opt,
  or_else, path,
}
use wazuh_dashboard_security.Json.Text.{◌&◌}
use wazuh_dashboard_security.Server.Client.{
  Outcome, return, throw, Host, Request, Reply, succeed, Action, pure, raise, get_client, ◌>>=◌,
  call, get, error_message, handle,
}
use wazuh_dashboard_security.Server.Forward.{forward}

-- parentField ? `${parentField}.${field}` : field
abbrev pub full_name : String → String → String
full_name parent name = if parent == "" then name else parent & "." & name

abbrev pub both : Outcome (List String) → Outcome (List String) → Outcome (List String)
both (return xs) (return ys) = return (xs ++ ys)
both (return xs) (throw error) = throw error
both (throw error) r = throw error

module _ (type_error : Json) where
  unfoldable mutual
    -- extractFieldsFromMappings, which adds to the fields that were found before.
    pub extract_fields_from_mappings : String → Fields → Outcome (List String)
    extract_fields_from_mappings parent end = return []
    extract_fields_from_mappings parent (field name v rest) =
        both (fields_at (full_name parent name) v) (extract_fields_from_mappings parent rest)

    -- The fields of one property, which throws where it is null.
    pub fields_at : String → Json → Outcome (List String)
    fields_at name undefined = throw type_error
    fields_at name null = throw type_error
    fields_at name (obj fs) = fields_inside name fs
    fields_at name v = return (name ∷ [])

    -- Those of its `properties`, or itself where it has none.
    pub fields_inside : String → Fields → Outcome (List String)
    fields_inside name end = return (name ∷ [])
    fields_inside name (field k v rest) =
        if k == "properties" then nested_fields name v else fields_inside name rest

    pub nested_fields : String → Json → Outcome (List String)
    nested_fields name undefined = throw type_error
    nested_fields name null = throw type_error
    nested_fields name (obj fs) = extract_fields_from_mappings name fs
    nested_fields name v = return []

-- Object.values(v)[0]
abbrev pub first_value : Json → Json
first_value (obj (field k v fs)) = v
first_value (arr (cons v vs)) = v
first_value _ = undefined

abbrev pub properties_of : Json → Fields
properties_of (obj fs) = fs
properties_of _ = end

-- What was returned, or thrown.
abbrev pub settle : Outcome (List String) → Action (List String)
settle (return names) = pure names
settle (throw error) = raise error

module _ (data_source_enabled : Bool) (host : Host) where
  unfoldable pub get_mappings_view : Request → Action Reply
  get_mappings_view request =
      handle
        (do
          index_name ← get host request.query "indexName"
          forward host (get_client data_source_enabled request)
              "securityAnalytics.getFieldMappingsView"
              (object
                (("indexName", index_name) ∷ ("ruleTopic", opt request.query "ruleTopic") ∷ [])))
        (error_message host)

  unfoldable pub create_mappings : Request → Action Reply
  create_mappings request =
      handle
        (forward host (get_client data_source_enabled request) "securityAnalytics.createMappings"
          (object (("body", request.body) ∷ [])))
        (error_message host)

  unfoldable pub get_mappings : Request → Action Reply
  get_mappings request =
      handle
        (do
          index_name ← get host request.query "indexName"
          forward host (get_client data_source_enabled request) "securityAnalytics.getMappings"
              (object (("indexName", index_name) ∷ [])))
        (error_message host)

  unfoldable pub get_index_alias_fields : Request → Action Reply
  unfolding extract_fields_from_mappings
  get_index_alias_fields request =
      handle
        (do
          index_name ← get host request.params "indexName"
          response ←
              call host (get_client data_source_enabled request)
                "securityAnalytics.getIndexAliasMappings" (object (("indexName", index_name) ∷ []))
          -- Object.values throws on what has no properties.
          _ ← get host response "mappings"
          let mappings = path (first_value response) ("mappings" ∷ "properties" ∷ [])
          names ← settle (
              extract_fields_from_mappings host.type_error ""
                (properties_of (or_else mappings (object []))))
          pure (succeed (text_array names)))
        (error_message host)
