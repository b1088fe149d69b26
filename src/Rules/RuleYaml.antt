-- ===== src/Rules/RuleYaml.antt =====
-- public/pages/WazuhRules/utils/mappers.ts: a rule as the object that is shown as YAML, and back.
-- What is read from YAML may be any value.
pub mod RoundTrip
use wazuh_dashboard_security.Base.{
  String, Bool, true, List, [], ◌∷◌, ◌==◌, ◌||◌, if◌then◌else◌, Option, none, some, keep, map,
}
use wazuh_dashboard_security.Json.{
  Json, undefined, bool, str, arr, obj, Fields, end, field, elems, array, text_array, object,
  truthy, nullish, or_else, opt, set_field, omit, spread, is_nullish,
}
use wazuh_dashboard_security.Json.Text.{trim}
use wazuh_dashboard_security.Server.Client.{Outcome, return, throw}
use wazuh_dashboard_security.Rules.Loaded.{JsYaml}
use wazuh_dashboard_security.Rules.WazuhEditor.{Value, Rule, RuleMetadata, or_default, values_or}

-- rule.metadata?.f
abbrev pub metadata_of : {A : Type 0} → Option RuleMetadata → (RuleMetadata → Option A) → Option A
metadata_of none f = none
metadata_of (some m) f = f m

-- vs?.length ? vs : ['']
abbrev pub or_blank : Option (List String) → List String
or_blank none = "" ∷ []
or_blank (some []) = "" ∷ []
or_blank (some (v ∷ vs)) = v ∷ vs

-- if (v) fields.k = v
abbrev pub with_truthy : String → Json → Fields → Fields
with_truthy k v fs = if truthy v then set_field k v fs else fs

abbrev pub text_or_missing : Option String → Json
text_or_missing none = undefined
text_or_missing (some s) = str s

abbrev pub metadata_base : Option RuleMetadata → Fields
metadata_base metadata = spread (
    object (
      ("title", str (or_default (metadata_of metadata (λ m. m.title)) ""))
      ∷ ("author", str (or_default (metadata_of metadata (λ m. m.author)) ""))
      ∷ ("description", str (or_default (metadata_of metadata (λ m. m.description)) ""))
      ∷ ("references", text_array (or_blank (metadata_of metadata (λ m. m.references))))
      ∷ ("documentation", str (or_default (metadata_of metadata (λ m. m.documentation)) ""))
      ∷ ("supports", text_array (or_blank (metadata_of metadata (λ m. m.supports))))
      ∷ []))

unfoldable pub metadata_fields : Option RuleMetadata → Fields
unfolding set_field
metadata_fields metadata =
    with_truthy "modified" (text_or_missing (metadata_of metadata (λ m. m.modified)))
      (metadata_base metadata)

-- What the object of a rule always has.
abbrev pub yaml_base : Rule → (detection : Json) → Fields
yaml_base rule detection = spread (
    object (
      ("id", str rule.id)
      ∷ ("logsource", object (("product", str rule.category) ∷ []))
      ∷ ("tags", text_array (values_or rule.tags []))
      ∷ ("falsepositives", text_array (values_or rule.false_positives []))
      ∷ ("level", str rule.level)
      ∷ ("status", str rule.status)
      ∷ ("enabled", bool (or_default rule.enabled true))
      ∷ ("detection", detection)
      ∷ ("metadata", obj (metadata_fields rule.metadata))
      ∷ []))

-- The object of a rule whose sections have been read.
unfoldable pub yaml_fields : Rule → (detection mitre compliance : Json) → Fields
unfolding set_field metadata_fields
yaml_fields rule detection mitre compliance =
    with_truthy "compliance" compliance (with_truthy "mitre" mitre (yaml_base rule detection))

-- What is read of a text that may be missing.
abbrev pub or_undefined : Outcome Json → Json
or_undefined (return v) = v
or_undefined (throw error) = undefined

-- v.filter(Boolean), where v is no array a TypeError.
abbrev pub filtered : Json → Json → Outcome (List Json)
filtered type_error (arr vs) = return (keep truthy (elems vs))
filtered type_error _ = throw type_error

-- ({ value: v })
abbrev pub value_object : Json → Json
value_object v = object (("value", v) ∷ [])

abbrev pub next : {A B : Type 0} → Outcome A → (A → Outcome B) → Outcome B
next (return a) f = f a
next (throw error) f = throw error

abbrev pub text_or_empty : Outcome String → String
text_or_empty (return text) = text
text_or_empty (throw error) = ""

module _ (js_yaml : JsYaml) where
  unfoldable pub safe_load : String → Json
  unfolding trim
  safe_load text =
      if text == "" || trim text == "" then undefined else or_undefined (js_yaml.load (str text))

  abbrev pub safe_load_of : Option String → Json
  safe_load_of none = undefined
  safe_load_of (some text) = safe_load text

  unfoldable pub safe_dump : Json → String
  safe_dump (str text) = text
  safe_dump v = if truthy v then text_or_empty (js_yaml.dump v) else ""

  -- An object without a detection is printed without that property.
  unfoldable pub map_yaml_object_to_yaml_string : Json → String
  unfolding opt omit
  map_yaml_object_to_yaml_string v =
      if is_nullish v
      then ""
      else text_or_empty (
          js_yaml.dump
            (if truthy (opt v "detection") then v else obj (omit "detection" (spread v))))

  unfoldable pub map_rule_to_yaml_object : Rule → Json
  unfolding safe_load yaml_fields
  map_rule_to_yaml_object rule = obj (
      yaml_fields rule (safe_load rule.detection) (safe_load_of rule.mitre)
        (safe_load rule.compliance))

  -- The rule that is made of an object, when its lists have been filtered.
  unfoldable pub rule_object :
      Json → Json → (references supports tags false_positives : List Json) → Json
  unfolding safe_dump opt
  rule_object v meta references supports tags false_positives =
      let source = opt v "logsource" in
      object (
        ("id", opt v "id")
        ∷ ("category", if truthy source then opt source "product" else undefined)
        ∷ ("log_source", object [])
        ∷ ("tags", array (map value_object tags))
        ∷ ("false_positives", array (map value_object false_positives))
        ∷ ("level", opt v "level")
        ∷ ("status", opt v "status")
        ∷ ("enabled", nullish (opt v "enabled") (bool true))
        ∷ ("detection", str (safe_dump (opt v "detection")))
        ∷ (
          "metadata",
          object (
              ("title", or_else (opt meta "title") (str ""))
              ∷ ("author", or_else (opt meta "author") (str ""))
              ∷ ("description", or_else (opt meta "description") (str ""))
              ∷ ("references", array references)
              ∷ ("date", opt meta "date")
              ∷ ("modified", opt meta "modified")
              ∷ ("documentation", opt meta "documentation")
              ∷ ("supports", array supports)
              ∷ []),
        )
        ∷ ("mitre", str (safe_dump (opt v "mitre")))
        ∷ ("compliance", str (safe_dump (opt v "compliance")))
        ∷ [])

  module _ (type_error : Json) where
    abbrev pub listed : Json → String → Outcome (List Json)
    listed v k = filtered type_error (nullish (opt v k) (array []))

    unfoldable pub map_yaml_object_to_rule : Json → Outcome Json
    unfolding rule_object opt
    map_yaml_object_to_rule v =
        if is_nullish v
        then throw type_error
        else let meta = nullish (opt v "metadata") (object []) in
          next (listed meta "references") (λ references. next (listed meta "supports") (λ supports.
            next (listed v "tags") (λ tags. next (listed v "falsepositives") (λ false_positives.
              return (rule_object v meta references supports tags false_positives)))))
