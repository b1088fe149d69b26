-- ===== src/Rules/WazuhEditor.antt =====
-- public/pages/WazuhRules/components/RuleEditor/mappers.ts and RuleEditorFormModel.ts: the form of
-- the rule editor. What the code guards with `?.`, `??` or `||` may be missing in a rule.
pub mod RoundTrip
use wazuh_dashboard_security.Base.{
  String, Bool, true, not, List, [], ◌∷◌, ◌==◌, ◌&&◌, if◌then◌else◌, Option, none, some, map,
}
use wazuh_dashboard_security.Server.Client.{Outcome, return, throw}
use wazuh_dashboard_security.Rules.Loaded.{JsYaml}
use wazuh_dashboard_security.Rules.LogSource.{
  LogSource, has_text, text_or, get_log_type_from_log_source,
}
use wazuh_dashboard_security.Rules.Mitre.{MitreState, empty_mitre, parse_mitre_yml, dump_mitre_yml}

-- { value }
pub record Value : Type 0 where
  pub value : String

abbrev pub boxed : String → Value
boxed s = record { value = s }

pub record RuleMetadata : Type 0 where
  pub title : Option String
  pub author : Option String
  pub description : Option String
  pub references : Option (List String)
  pub documentation : Option String
  pub supports : Option (List String)
  pub date : Option String
  pub modified : Option String

pub record Rule : Type 0 where
  pub id : String
  pub category : String
  pub status : String
  pub tags : Option (List Value)
  pub log_source : LogSource
  pub detection : String
  pub level : String
  pub false_positives : Option (List Value)
  pub metadata : Option RuleMetadata
  pub mitre : Option String
  pub compliance : String
  pub enabled : Option Bool

pub record FormMetadata : Type 0 where
  pub title : String
  pub author : String
  pub description : String
  pub references : List String
  pub supports : List String
  pub documentation : String

pub record RuleEditorFormModel : Type 0 where
  pub id : String
  pub log_source : LogSource
  pub integration : String
  pub status : String
  pub tags : List String
  pub detection : String
  pub level : String
  pub false_positives : List String
  pub mitre : MitreState
  pub compliance : String
  pub enabled : Bool
  pub metadata : FormMetadata

abbrev pub default_metadata : FormMetadata
default_metadata = record {
  title = "";
  author = "";
  description = "";
  references = [];
  supports = [];
  documentation = "";
}

abbrev pub rule_editor_state_default_value : RuleEditorFormModel
rule_editor_state_default_value = record {
  id = "";
  log_source = record { product = none; category = none; service = none };
  integration = "";
  status = "experimental";
  tags = [];
  detection = "";
  level = "";
  false_positives = [];
  mitre = empty_mitre;
  compliance = "";
  enabled = true;
  metadata = default_metadata;
}

-- A copy of the log source, whose product is the integration where it has none.
unfoldable pub with_product : String → LogSource → LogSource
with_product integration source =
    if not (has_text source.product) && not (integration == "")
    then record source { product = some integration }
    else source

unfoldable pub rule_of : RuleEditorFormModel → String → Rule
unfolding with_product
rule_of form mitre = record {
  id = form.id;
  category = form.integration;
  status = form.status;
  tags = some (map boxed form.tags);
  log_source = with_product form.integration form.log_source;
  detection = form.detection;
  level = form.level;
  false_positives = some (map boxed form.false_positives);
  metadata = some (record {
    title = some form.metadata.title;
    author = some form.metadata.author;
    description = some form.metadata.description;
    references = some form.metadata.references;
    documentation = some form.metadata.documentation;
    supports = some form.metadata.supports;
    date = none;
    modified = none;
  });
  mitre = some mitre;
  compliance = form.compliance;
  enabled = some form.enabled;
}

-- a ?? b
abbrev pub or_default {ℓ} : {A : Type ℓ} → Option A → A → A
or_default none d = d
or_default (some a) d = a

-- rule.metadata?.f ?? the default.
abbrev pub metadata_field : {A : Type 0} → Option RuleMetadata → (RuleMetadata → Option A) → A → A
metadata_field none f d = d
metadata_field (some m) f d = or_default (f m) d

abbrev pub values_or : Option (List Value) → List String → List String
values_or none d = d
values_or (some vs) d = map (λ v. v.value) vs

-- vs?.length ? … : the default.
abbrev pub values_or_if_empty : Option (List Value) → List String → List String
values_or_if_empty none d = d
values_or_if_empty (some []) d = d
values_or_if_empty (some (v ∷ vs)) d = map (λ x. x.value) (v ∷ vs)

module _ (js_yaml : JsYaml) where
  abbrev pub with_dumped : RuleEditorFormModel → Outcome String → Outcome Rule
  with_dumped form (return mitre) = return (rule_of form mitre)
  with_dumped form (throw error) = throw error

  unfoldable pub map_form_to_rule : RuleEditorFormModel → Outcome Rule
  unfolding dump_mitre_yml rule_of
  map_form_to_rule form = with_dumped form (dump_mitre_yml js_yaml form.mitre)

  unfoldable pub map_rule_to_form : List String → Rule → RuleEditorFormModel
  unfolding get_log_type_from_log_source parse_mitre_yml
  map_rule_to_form known rule = record {
    id = rule.id;
    log_source = rule.log_source;
    integration =
        if rule.category == ""
        then text_or (get_log_type_from_log_source known rule.log_source) ""
        else rule.category;
    status = rule.status;
    tags = values_or rule.tags rule_editor_state_default_value.tags;
    detection = rule.detection;
    level = rule.level;
    false_positives =
        values_or_if_empty rule.false_positives rule_editor_state_default_value.false_positives;
    mitre = parse_mitre_yml js_yaml (text_or rule.mitre "");
    compliance = rule.compliance;
    enabled = or_default rule.enabled true;
    metadata = record {
      title = metadata_field rule.metadata (λ m. m.title) default_metadata.title;
      author = metadata_field rule.metadata (λ m. m.author) default_metadata.author;
      description = metadata_field rule.metadata (λ m. m.description) default_metadata.description;
      references = metadata_field rule.metadata (λ m. m.references) default_metadata.references;
      supports = metadata_field rule.metadata (λ m. m.supports) default_metadata.supports;
      documentation =
          metadata_field rule.metadata (λ m. m.documentation) default_metadata.documentation;
    };
  }
