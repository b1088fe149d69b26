-- ===== src/Rules/WazuhEditor/RoundTrip.antt =====
-- A form of the rule editor, submitted as a rule and opened again.
use wazuh_dashboard_security.Base.{
  String, List, [], ◌∷◌, ◌≡◌, ◌≢◌, refl, ap, ◌==◌, All, keep, map, some, arith, eq_iff,
  if◌then◌else◌,
}
use wazuh_dashboard_security.Json.{obj}
use wazuh_dashboard_security.Server.Client.{return}
use wazuh_dashboard_security.Rules.Loaded.{JsYaml, IsReadBack, not_empty}
use wazuh_dashboard_security.Rules.Mitre.{is_filled, mitre_object}
use wazuh_dashboard_security.Rules.Mitre.RoundTrip.{IsPresent, filled, parse-dump_mitre_yml}
use wazuh_dashboard_security.Rules.WazuhEditor.{
  boxed, Rule, RuleEditorFormModel, with_product, rule_of, values_or_if_empty, with_dumped,
  map_form_to_rule, map_rule_to_form,
}

-- s || ''
pub or_empty : (s : String) → (if s == "" then "" else s) ≡ s
or_empty s = ground (arith, eq_iff s "")

pub map-boxed : (ts : List String) → map (λ v. v.value) (map boxed ts) ≡ ts
map-boxed [] = refl
map-boxed (t ∷ ts) = ap (λ l. t ∷ l) (map-boxed ts)

pub values_or_if_empty-boxed : (ts : List String) → values_or_if_empty (some (map boxed ts)) [] ≡ ts
values_or_if_empty-boxed [] = refl
values_or_if_empty-boxed (t ∷ ts) = map-boxed (t ∷ ts)

-- What the editor shows of a form once it is saved: the log source has a product, and the MITRE
-- section no empty entries.
abbrev pub saved : RuleEditorFormModel → RuleEditorFormModel
saved form = record form {
  log_source = with_product form.integration form.log_source;
  mitre = filled form.mitre;
}

module _ (js_yaml : JsYaml) (known : List String) (form : RuleEditorFormModel) where
  -- A form that names an integration, and whose filled MITRE entries have an id and a name that are
  -- not null or undefined, is submitted as a rule; the editor opens that rule as the same form,
  -- with the integration as the product of a log source that has none and without the MITRE entries
  -- in which both fields are empty. js-yaml is to read back the MITRE object that it is given.
  pub map_rule_to_form-map_form_to_rule :
      form.integration ≢ ""
      → All IsPresent (keep is_filled form.mitre.tactic)
      → All IsPresent (keep is_filled form.mitre.technique)
      → All IsPresent (keep is_filled form.mitre.subtechnique)
      → IsReadBack js_yaml (obj (mitre_object form.mitre))
      → (rule : Rule) × (map_form_to_rule js_yaml form ≡ return rule)
        × (map_rule_to_form js_yaml known rule ≡ saved form)
  unfolding map_form_to_rule map_rule_to_form rule_of
  map_rule_to_form-map_form_to_rule named a b c back =
      let printed = parse-dump_mitre_yml js_yaml form.mitre a b c back in
      (
        rule_of form printed.0,
        ap (with_dumped js_yaml form) printed.1,
        rw
            (
              not_empty form.integration named,
              map-boxed form.tags,
              values_or_if_empty-boxed form.false_positives,
            )
            (rw (or_empty printed.0, printed.2) refl),
      )
