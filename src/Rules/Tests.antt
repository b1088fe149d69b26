-- ===== src/Rules/Tests.antt =====
-- Forms of the rule editors, submitted and opened again.
use wazuh_dashboard_security.Base.{
  String, true, [], ◌∷◌, ◌≡◌, ◌≢◌, refl, arith, eq_iff, none, some, inl, inr, if◌then◌else◌, ◌==◌,
}
use wazuh_dashboard_security.Json.{Json, str, obj, Fields, field, end}
use wazuh_dashboard_security.Server.Client.{return}
use wazuh_dashboard_security.Rules.Loaded.{JsYaml, IsReadBack}
use wazuh_dashboard_security.Rules.LogSource.{LogSource, text_or, get_log_type_from_log_source}
use wazuh_dashboard_security.Rules.Mitre.{MitreState, mitre_object}
use wazuh_dashboard_security.Rules.Compliance.{
  ComplianceState, compliance_keys, write_sections, dump_compliance_yml, parse_compliance_yml,
}
use wazuh_dashboard_security.Rules.Compliance.RoundTrip.{kept_sections, parse-dump_compliance_yml}
use wazuh_dashboard_security.Rules.WazuhEditor
use wazuh_dashboard_security.Rules.WazuhEditor.{default_metadata}
use wazuh_dashboard_security.Rules.WazuhEditor.RoundTrip.{saved, map_rule_to_form-map_form_to_rule}
use wazuh_dashboard_security.Rules.SigmaEditor
use wazuh_dashboard_security.Rules.SigmaEditor.RoundTrip.{map_rule_to_form-sigma_rule}
use wazuh_dashboard_security.Rules.RuleYaml.{map_rule_to_yaml_object, map_yaml_object_to_rule}
use wazuh_dashboard_security.Rules.RuleYaml.RoundTrip.{
  IsPrinted, plain, map_yaml_object_to_rule-map_rule_to_yaml_object,
}
use wazuh_dashboard_security.Json.Text.{trim, trim_start, trim_end, is_space}

-- A printer that knows one value.
abbrev yaml_of : Json → JsYaml
yaml_of v = record { load = λ text. return v; dump = λ w. return "printed" }

printed_non_empty : ◌≢◌ {A = String} "printed" ""
printed_non_empty e = ground (arith, e, eq_iff "printed" "")

abbrev read_back : (v : Json) → IsReadBack (yaml_of v) v
read_back v = record {
  text = "printed";
  printed = refl;
  parsed = refl;
  non_empty = printed_non_empty;
}

abbrev no_source : LogSource
no_source = record { product = none; category = some "process"; service = none }

abbrev mitre : MitreState
mitre = record {
  tactic =
      record { id = str "TA0001"; name = str "Initial Access" }
      ∷ record { id = str ""; name = str "" }
      ∷ [];
  technique = [];
  subtechnique = [];
}

abbrev form : WazuhEditor.RuleEditorFormModel
form = record {
  id = "1";
  log_source = no_source;
  integration = "sshd";
  status = "stable";
  tags = "attack.t1078" ∷ [];
  detection = "condition: selection";
  level = "high";
  false_positives = [];
  mitre = mitre;
  compliance = "";
  enabled = true;
  metadata = record default_metadata { title = "Login" };
}

map_rule_to_form-map_form_to_rule_example :
    (rule : WazuhEditor.Rule) × (WazuhEditor.map_form_to_rule
        (yaml_of (obj (mitre_object mitre)))
        form
      ≡ return rule)
    × (WazuhEditor.map_rule_to_form (yaml_of (obj (mitre_object mitre))) ("sshd" ∷ []) rule
        ≡ saved form)
map_rule_to_form-map_form_to_rule_example =
    map_rule_to_form-map_form_to_rule (yaml_of (obj (mitre_object mitre))) ("sshd" ∷ []) form
      (λ e. ground (arith, e, eq_iff "sshd" "")) ((refl, refl), tt) tt tt
      (read_back (obj (mitre_object mitre)))

abbrev sections : ComplianceState
sections = ("gdpr", str "IV_35.7.d" ∷ str "" ∷ []) ∷ []

parse-dump_compliance_yml_example :
    (text : String) × (dump_compliance_yml
        (yaml_of (obj (write_sections compliance_keys sections)))
        sections
      ≡ return text)
    × (parse_compliance_yml (yaml_of (obj (write_sections compliance_keys sections))) text
        ≡ kept_sections compliance_keys sections)
parse-dump_compliance_yml_example =
    parse-dump_compliance_yml (yaml_of (obj (write_sections compliance_keys sections))) sections
      (read_back (obj (write_sections compliance_keys sections)))

abbrev sigma_form : SigmaEditor.RuleEditorFormModel
sigma_form = record {
  id = "1";
  log_source = no_source;
  log_type = "";
  name = "Login";
  description = "";
  status = "test";
  author = "W";
  references = "https://example.org" ∷ [];
  tags = [];
  detection = "";
  level = "low";
  false_positives = "admin" ∷ [];
}

map_rule_to_form-sigma_rule_example :
    SigmaEditor.map_rule_to_form ("process" ∷ []) (SigmaEditor.map_form_to_rule sigma_form)
    ≡ record sigma_form {
      log_type =
          if sigma_form.log_type == ""
          then text_or (get_log_type_from_log_source ("process" ∷ []) sigma_form.log_source) ""
          else sigma_form.log_type;
    }
map_rule_to_form-sigma_rule_example = map_rule_to_form-sigma_rule ("process" ∷ []) sigma_form

abbrev detection_fields : Fields
detection_fields = field "condition" (str "selection") end

abbrev rule : WazuhEditor.Rule
rule = record {
  id = "1";
  category = "sshd";
  status = "stable";
  tags = some (WazuhEditor.boxed "attack.t1078" ∷ WazuhEditor.boxed "" ∷ []);
  log_source = no_source;
  detection = "printed";
  level = "high";
  false_positives = none;
  metadata = none;
  mitre = none;
  compliance = "";
  enabled = none;
}

detection-IsPrinted : IsPrinted (yaml_of (obj detection_fields)) "printed"
unfolding trim trim_start trim_end is_space
detection-IsPrinted = record {
  value = detection_fields;
  visible = printed_non_empty;
  filled = printed_non_empty;
  loaded = refl;
  dumped = refl;
}

map_yaml_object_to_rule-map_rule_to_yaml_object_example :
    map_yaml_object_to_rule
      (yaml_of (obj detection_fields))
      (str "TypeError")
      (map_rule_to_yaml_object (yaml_of (obj detection_fields)) rule)
    ≡ return (plain rule "printed" "" "")
map_yaml_object_to_rule-map_rule_to_yaml_object_example =
    map_yaml_object_to_rule-map_rule_to_yaml_object (yaml_of (obj detection_fields))
      (str "TypeError") rule (inr detection-IsPrinted) (inl refl) (inl refl)
