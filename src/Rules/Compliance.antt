-- ===== src/Rules/Compliance.antt =====
-- public/pages/WazuhRules/utils/compliance.ts: the requirements of compliance frameworks that a
-- rule names, as a form and as YAML. A requirement that YAML gives may be any value.
pub mod RoundTrip
use wazuh_dashboard_security.Base.{
  String, Bool, List, [], ◌∷◌, ◌==◌, if◌then◌else◌, Option, none, some, keep, Dict, lookup,
}
use wazuh_dashboard_security.Json.{
  Json, str, arr, obj, Fields, end, field, elems, array, object, truthy, opt,
}
use wazuh_dashboard_security.Server.Client.{Outcome, return, throw}
use wazuh_dashboard_security.Rules.Loaded.{JsYaml}

abbrev pub compliance_keys : List String
compliance_keys =
    "pci_dss" ∷ "hipaa" ∷ "gdpr" ∷ "nist_800_53" ∷ "nist_800_171" ∷ "cmmc" ∷ "iso_27001" ∷ "nis2"
    ∷ "tsc" ∷ "fedramp" ∷ []

abbrev pub ComplianceState : Type 0
ComplianceState = Dict (List Json)

-- state[key], of a state that has the key.
unfoldable pub section : String → ComplianceState → List Json
unfolding lookup
section key state = elim (lookup key state) [ none ↦ [] | some found ↦ found ]

abbrev pub with_no_requirement : List String → ComplianceState
with_no_requirement [] = []
with_no_requirement (key ∷ keys) = (key, []) ∷ with_no_requirement keys

abbrev pub empty_compliance : ComplianceState
empty_compliance = with_no_requirement compliance_keys

-- Array.isArray(v) ? v.filter(Boolean) : []
abbrev pub requirements : Json → List Json
requirements (arr vs) = keep truthy (elems vs)
requirements _ = []

unfoldable pub read_sections : List String → Json → ComplianceState
unfolding opt
read_sections [] parsed = []
read_sections (key ∷ keys) parsed = (key, requirements (opt parsed key)) ∷ read_sections keys parsed

unfoldable pub parsed_compliance : Outcome Json → ComplianceState
unfolding read_sections
parsed_compliance (return parsed) = read_sections compliance_keys parsed
parsed_compliance (throw error) = empty_compliance

-- The round of the loop for one key.
abbrev pub write_section : String → List Json → Fields → Fields
write_section key [] rest = rest
write_section key (v ∷ vs) rest = field key (array (v ∷ vs)) rest

unfoldable pub write_sections : List String → ComplianceState → Fields
unfolding section
write_sections [] state = end
write_sections (key ∷ keys) state =
    write_section key (section key state) (write_sections keys state)

module _ (js_yaml : JsYaml) where
  unfoldable pub parse_compliance_yml : String → ComplianceState
  unfolding parsed_compliance
  parse_compliance_yml yml =
      parsed_compliance (if yml == "" then return (object []) else js_yaml.load (str yml))

  -- dump(obj), unless the object has no key.
  abbrev pub dump_or_empty : Fields → Outcome String
  dump_or_empty end = return ""
  dump_or_empty (field k v fs) = js_yaml.dump (obj (field k v fs))

  unfoldable pub dump_compliance_yml : ComplianceState → Outcome String
  unfolding write_sections
  dump_compliance_yml state = dump_or_empty (write_sections compliance_keys state)
