-- ===== src/Server/WazuhRules/Resource.antt =====
-- buildRuleResource and parseYamlField: the resource that a rule is sent as.
use wazuh_dashboard_security.Base.{
  String, Bool, true, false, not, ◌&&◌, ◌==◌, List, [], ◌∷◌, if◌then◌else◌,
}
use wazuh_dashboard_security.Json.{
  Json, undefined, bool, str, obj, Fields, object, array, truthy, nullish, opt, set_field, spread,
}
use wazuh_dashboard_security.Json.Text.{js_length, trim}
use wazuh_dashboard_security.Server.Client.{
  Outcome, return, throw, Host, Action, pure, ◌>>=◌, get, each, map_each,
}
use wazuh_dashboard_security.Server.SpaceFilter.{has_no_keys}
use wazuh_dashboard_security.Server.Yaml.{lift}

-- Object.keys(log_source).length > 0, where it is truthy
abbrev pub has_log_source : Json → Bool
has_log_source source = truthy source && not (has_no_keys source)

-- Written where the value is truthy.
abbrev pub set_if : Bool → String → Json → Fields → Fields
set_if true k v fs = set_field k v fs
set_if false k v fs = fs

unfoldable pub rule_metadata : Json → Json
unfolding opt set_field js_length
rule_metadata given =
    let references = opt given "references" in
    let supports = opt given "supports" in
    obj (
      set_if (truthy (js_length supports)) "supports" supports (
        set_if (truthy (opt given "documentation")) "documentation" (opt given "documentation") (
          set_if (truthy (opt given "modified")) "modified" (opt given "modified") (
            set_if (truthy (opt given "date")) "date" (opt given "date") (
              spread (
                object (
                  ("title", opt given "title")
                  ∷ ("author", opt given "author")
                  ∷ ("description", opt given "description")
                  ∷ ("references", if truthy (js_length references) then references else array [])
                  ∷ [])))))))

module _ (load : Json → Outcome Json) where
  -- An exception of load is caught, and gives undefined.
  abbrev pub loaded_or_undefined : Outcome Json → Json
  loaded_or_undefined (return v) = v
  loaded_or_undefined (throw error) = undefined

  unfoldable pub parse_yaml_field : Json → Json
  unfolding trim
  parse_yaml_field (str s) = if trim s == "" then undefined else loaded_or_undefined (load (str s))
  parse_yaml_field v = if truthy v then v else undefined

module _ (host : Host) (load : Json → Outcome Json) where
  -- list.map((x) => x.value), where the list has a length.
  unfoldable pub values_of : Json → Action (List Json)
  values_of list =
      if truthy (js_length list)
      then (do found ← each host list; map_each host (λ v. get host v "value") found)
      else pure []

  unfoldable pub build_rule_resource : Json → Action Json
  unfolding rule_metadata parse_yaml_field
  build_rule_resource rule = do
    detection ← lift (load (opt rule "detection"))
    tags ← values_of (opt rule "tags")
    false_positives ← values_of (opt rule "false_positives")
    let log_source = opt rule "log_source"
    let mitre = parse_yaml_field load (opt rule "mitre")
    let compliance = parse_yaml_field load (opt rule "compliance")
    pure (
        obj (
          set_if (truthy compliance) "compliance" compliance (
            set_if (truthy mitre) "mitre" mitre (
              set_field "metadata" (rule_metadata (opt rule "metadata")) (
                set_if (truthy (js_length (opt rule "false_positives"))) "falsepositives"
                  (array false_positives)
                  (set_if (truthy (js_length (opt rule "tags"))) "tags" (array tags) (
                    spread (
                      object (
                        ("level", opt rule "level")
                        ∷ ("status", opt rule "status")
                        ∷ (
                          "logsource",
                          if has_log_source log_source
                              then log_source
                              else object (("product", opt rule "category") ∷ []),
                        )
                        ∷ ("detection", detection)
                        ∷ ("enabled", nullish (opt rule "enabled") (bool true))
                        ∷ [])))))))))
