-- ===== src/Rules/Mitre.antt =====
-- public/pages/WazuhRules/utils/mitre.ts: the MITRE section of a rule, as a form and as YAML. What
-- YAML gives as an id or a name may be any value, whatever the declared type says.
pub mod RoundTrip
use wazuh_dashboard_security.Base.{
  String, Bool, List, [], ◌∷◌, ◌≡◌, ◌&&◌, ◌||◌, ◌==◌, if◌then◌else◌, keep, map,
}
use wazuh_dashboard_security.Json.{
  Json, undefined, null, bool, num, str, arr, obj, Fields, end, field, Items, nil, cons, elems,
  array, nullish, truthy, opt,
}
use wazuh_dashboard_security.Server.Client.{Outcome, return, throw}
use wazuh_dashboard_security.Rules.Loaded.{JsYaml}

pub record MitreEntry : Type 0 where
  pub id : Json
  pub name : Json

pub record MitreState : Type 0 where
  pub tactic : List MitreEntry
  pub technique : List MitreEntry
  pub subtechnique : List MitreEntry

abbrev pub empty_mitre : MitreState
empty_mitre = record { tactic = []; technique = []; subtechnique = [] }

-- Array.isArray(v) ? v : []
abbrev pub list_of : Json → List Json
list_of (arr vs) = elems vs
list_of _ = []

-- The longer of the two lists gives the length; what is missing in the other is an empty text.
unfoldable pub pair_up : List Json → List Json → List MitreEntry
pair_up [] [] = []
pair_up (id ∷ ids) [] = record { id = nullish id (str ""); name = str "" } ∷ pair_up ids []
pair_up [] (name ∷ names) = record { id = str ""; name = nullish name (str "") } ∷ pair_up [] names
pair_up (id ∷ ids) (name ∷ names) =
    record { id = nullish id (str ""); name = nullish name (str "") } ∷ pair_up ids names

unfoldable pub parse_mitre_field : Json → List MitreEntry
unfolding pair_up opt
parse_mitre_field (obj fs) = pair_up (list_of (opt (obj fs) "id")) (list_of (opt (obj fs) "name"))
parse_mitre_field _ = []

unfoldable pub parsed_mitre : Outcome Json → MitreState
unfolding parse_mitre_field opt
parsed_mitre (return parsed) = record {
  tactic = parse_mitre_field (opt parsed "tactic");
  technique = parse_mitre_field (opt parsed "technique");
  subtechnique = parse_mitre_field (opt parsed "subtechnique");
}
parsed_mitre (throw error) = empty_mitre

-- e.id || e.name
abbrev pub is_filled : MitreEntry → Bool
is_filled e = truthy e.id || truthy e.name

-- One round of the loop over the sections: a section with no filled entry is left out.
unfoldable pub dump_section : String → List MitreEntry → Fields → Fields
dump_section key [] rest = rest
dump_section key (e ∷ es) rest =
    field key
      (obj (
        field "id" (array (map (λ x. x.id) (e ∷ es)))
          (field "name" (array (map (λ x. x.name) (e ∷ es))) end)))
      rest

unfoldable pub mitre_object : MitreState → Fields
unfolding dump_section
mitre_object state = dump_section "tactic" (keep is_filled state.tactic) (
    dump_section "technique" (keep is_filled state.technique)
      (dump_section "subtechnique" (keep is_filled state.subtechnique) end))

module _ (js_yaml : JsYaml) where
  unfoldable pub parse_mitre_yml : String → MitreState
  unfolding parsed_mitre
  parse_mitre_yml yml = parsed_mitre (if yml == "" then return null else js_yaml.load (str yml))

  -- dump(obj), unless the object has no key.
  abbrev pub dump_unless_empty : Fields → Outcome String
  dump_unless_empty end = return ""
  dump_unless_empty (field k v fs) = js_yaml.dump (obj (field k v fs))

  unfoldable pub dump_mitre_yml : MitreState → Outcome String
  unfolding mitre_object
  dump_mitre_yml state = dump_unless_empty (mitre_object state)
