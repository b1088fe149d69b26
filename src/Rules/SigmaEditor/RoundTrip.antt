-- ===== src/Rules/SigmaEditor/RoundTrip.antt =====
-- A form of the editor of Sigma rules, submitted as a rule and opened again.
use wazuh_dashboard_security.Base.{String, List, [], ◌∷◌, ◌≡◌, refl, ◌==◌, if◌then◌else◌}
use wazuh_dashboard_security.Rules.LogSource.{text_or, get_log_type_from_log_source}
use wazuh_dashboard_security.Rules.WazuhEditor.RoundTrip.{map-boxed, values_or_if_empty-boxed}
use wazuh_dashboard_security.Rules.SigmaEditor.{
  RuleEditorFormModel, unless_empty, map_form_to_rule, map_rule_to_form,
}

unless_empty-nil : (rs : List String) → unless_empty rs [] ≡ rs
unless_empty-nil [] = refl
unless_empty-nil (r ∷ rs) = refl

-- A form that names a log type is submitted as a rule that the editor opens as the same form; one
-- that names none is opened with the log type that its log source names, if any, and otherwise
-- unchanged.
pub map_rule_to_form-sigma_rule :
    (known : List String) (form : RuleEditorFormModel)
    → map_rule_to_form known (map_form_to_rule form) ≡ record form {
      log_type =
          if form.log_type == ""
          then text_or (get_log_type_from_log_source known form.log_source) ""
          else form.log_type;
    }
unfolding map_form_to_rule map_rule_to_form
map_rule_to_form-sigma_rule known form =
    rw
      (
        map-boxed form.references,
        unless_empty-nil form.references,
        values_or_if_empty-boxed form.tags,
        values_or_if_empty-boxed form.false_positives,
      )
      refl
