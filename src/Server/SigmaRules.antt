-- ===== src/Server/SigmaRules.antt =====
-- server/services/RuleService.ts: every handler of the class. js-yaml, encodeURIComponent and the
-- date of today are parameters.
pub mod Replies
use wazuh_dashboard_security.Base.{Bool, String, List, [], ◌∷◌, if◌then◌else◌}
use wazuh_dashboard_security.Json.{
  Json, str, obj, array, object, Fields, opt, or_else, spread, set_field,
}
use wazuh_dashboard_security.Server.Client.{
  Outcome, return, throw, Host, Request, Reply, succeed, Action, pure, get_client, ◌>>=◌, call, get,
  get_length, each, map_each, error_message, handle,
}
use wazuh_dashboard_security.Server.Forward.{forward}
use wazuh_dashboard_security.Server.Integrations.{is_positive}
use wazuh_dashboard_security.Server.Yaml.{lift}

pub record RuleLibrary : Type 0 where
  pub load : Json → Outcome Json
  pub dump : Json → Outcome Json
  pub encode : Json → Outcome Json
  pub today : Json

abbrev pub default_rule_uuid : Json
default_rule_uuid = str "25b9c01c-350d-4b95-bed1-836d04a4f324"

module _ (host : Host) where
  -- if (list.length > 0) payload[key] = list.map((x) => x.value)
  unfoldable pub with_values : String → Json → Fields → Action Fields
  with_values key values payload = do
    count ← get_length host values
    if is_positive count
        then (do
          listed ← each host values
          found ← map_each host (λ v. get host v "value") listed
          pure (set_field key (array found) payload))
        else pure payload

  unfoldable pub rule_payload : RuleLibrary → Json → Json → Action Json
  unfolding with_values
  rule_payload library rule id = do
    title ← get host rule "title"
    detection ← lift (library.load (opt rule "detection"))
    let payload = spread (
        object (
          ("id", id)
          ∷ ("title", title)
          ∷ ("description", or_else (opt rule "description") title)
          ∷ ("status", opt rule "status")
          ∷ ("author", opt rule "author")
          ∷ ("date", library.today)
          ∷ ("modified", library.today)
          ∷ ("logsource", object (("category", opt rule "category") ∷ []))
          ∷ ("level", opt rule "level")
          ∷ ("detection", detection)
          ∷ []))
    tagged ← with_values "tags" (opt rule "tags") payload
    referenced ← with_values "references" (opt rule "references") tagged
    whole ← with_values "falsepositives" (opt rule "false_positives") referenced
    lift (library.dump (obj whole))

module _ (data_source_enabled : Bool) (host : Host) (library : RuleLibrary) where
  unfoldable pub create_rule : Request → Action Reply
  unfolding rule_payload
  create_rule request =
      handle
        (do
          rule ← get host request.body "rule"
          id ← get host rule "id"
          body ← rule_payload host library rule (or_else id default_rule_uuid)
          category ← lift (library.encode (opt rule "category"))
          forward host (get_client data_source_enabled request) "securityAnalytics.createWazuhRule"
              (object (("body", body) ∷ ("category", category) ∷ [])))
        (error_message host)

  unfoldable pub get_rules : Request → Action Reply
  get_rules request =
      handle
        (do
          pre_packaged ← get host request.query "prePackaged"
          forward host (get_client data_source_enabled request) "securityAnalytics.getWazuhRules"
              (object (("prePackaged", pre_packaged) ∷ ("body", request.body) ∷ [])))
        (error_message host)

  unfoldable pub delete_rule : Request → Action Reply
  delete_rule request =
      handle
        (forward host (get_client data_source_enabled request) "securityAnalytics.deleteWazuhRule"
          request.params)
        (error_message host)

  unfoldable pub update_rule : Request → Action Reply
  unfolding rule_payload
  update_rule request =
      handle
        (do
          id ← get host request.body "id"
          rule_id ← get host request.params "ruleId"
          body ← rule_payload host library request.body id
          forward host (get_client data_source_enabled request) "securityAnalytics.updateWazuhRule"
              (object (
                ("body", body)
                ∷ ("category", opt request.body "category")
                ∷ ("ruleId", rule_id)
                ∷ [])))
        (error_message host)
