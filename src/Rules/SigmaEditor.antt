-- ===== src/Rules/SigmaEditor.antt =====
-- public/pages/Rules/components/RuleEditor/mappers.ts and RuleEditorFormModel.ts: the form of the
-- editor of Sigma rules. What the code guards with `?.`, `??` or `||` may be missing in a rule.
pub mod RoundTrip
use wazuh_dashboard_security.Base.{
  String, List, [], ◌∷◌, ◌==◌, if◌then◌else◌, Option, none, some, map,
}
use wazuh_dashboard_security.Rules.LogSource.{LogSource, text_or, get_log_type_from_log_source}
use wazuh_dashboard_security.Rules.WazuhEditor.{Value, boxed, or_default, values_or_if_empty}

pub record RuleMetadata : Type 0 where
  pub title : Option String
  pub author : Option String
  pub description : Option String
  pub references : Option (List String)
  pub documentation : Option String
  pub supports : Option (List String)

pub record Rule : Type 0 where
  pub id : String
  pub category : String
  pub title : String
  pub description : String
  pub status : String
  pub author : String
  pub references : Option (List Value)
  pub tags : Option (List Value)
  pub log_source : LogSource
  pub detection : String
  pub level : String
  pub false_positives : Option (List Value)
  pub metadata : Option RuleMetadata

pub record RuleEditorFormModel : Type 0 where
  pub id : String
  pub log_source : LogSource
  pub log_type : String
  pub name : String
  pub description : String
  pub status : String
  pub author : String
  pub references : List String
  pub tags : List String
  pub detection : String
  pub level : String
  pub false_positives : List String

-- The default of references, tags and falsePositives.
abbrev pub default_list : List String
default_list = []

unfoldable pub map_form_to_rule : RuleEditorFormModel → Rule
map_form_to_rule form =
    let references = map boxed form.references in
    let refs = map (λ r. r.value) references in
    record {
      id = form.id;
      category = form.log_type;
      title = form.name;
      description = form.description;
      status = form.status;
      author = form.author;
      references = some references;
      tags = some (map boxed form.tags);
      log_source = form.log_source;
      detection = form.detection;
      level = form.level;
      false_positives = some (map boxed form.false_positives);
      metadata = some (record {
        title = some form.name;
        author = some form.author;
        description = some form.description;
        references = some refs;
        documentation = some "";
        supports = some [];
      });
    }

-- rule.metadata?.f ?? fallback
abbrev pub metadata_or : {A : Type 0} → Option RuleMetadata → (RuleMetadata → Option A) → A → A
metadata_or none f d = d
metadata_or (some m) f d = or_default (f m) d

-- rule.metadata?.references ?? rule.references?.map((r) => r.value) ?? []
abbrev pub values_of : Option (List Value) → List String
values_of none = []
values_of (some vs) = map (λ v. v.value) vs

-- refs.length ? refs : the default.
abbrev pub unless_empty : List String → List String → List String
unless_empty [] d = d
unless_empty (r ∷ rs) d = r ∷ rs

unfoldable pub map_rule_to_form : List String → Rule → RuleEditorFormModel
unfolding get_log_type_from_log_source
map_rule_to_form known rule = record {
  id = rule.id;
  log_source = rule.log_source;
  log_type =
      if rule.category == ""
      then text_or (get_log_type_from_log_source known rule.log_source) ""
      else rule.category;
  name = metadata_or rule.metadata (λ m. m.title) rule.title;
  description = metadata_or rule.metadata (λ m. m.description) rule.description;
  status = rule.status;
  author = metadata_or rule.metadata (λ m. m.author) rule.author;
  references =
      unless_empty (metadata_or rule.metadata (λ m. m.references) (values_of rule.references))
        default_list;
  tags = values_or_if_empty rule.tags default_list;
  detection = rule.detection;
  level = rule.level;
  false_positives = values_or_if_empty rule.false_positives default_list;
}
