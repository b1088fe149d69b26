-- ===== src/Rules/Compliance/RoundTrip.antt =====
-- dumpComplianceYml, read back by parseComplianceYml.
use wazuh_dashboard_security.Base.{
  String, Bool-cases, inl, inr, true, List, [], ◌∷◌, ◌≡◌, refl, sym, ap, ◌∙◌, ◌==◌, arith, eq_iff,
  All, keep, if◌then◌else◌, includes, ◌||◌,
}
use wazuh_dashboard_security.Json.{
  Json, obj, Fields, end, field, opt, get_field, truthy, elems-items,
}
use wazuh_dashboard_security.Server.Client.{return}
use wazuh_dashboard_security.Rules.Loaded.{JsYaml, IsReadBack, not_empty}
use wazuh_dashboard_security.Rules.Compliance.{
  compliance_keys, ComplianceState, section, requirements, read_sections, parsed_compliance,
  write_section, write_sections, parse_compliance_yml, dump_compliance_yml, dump_or_empty,
}

-- The requirements of the named frameworks that are not empty texts.
abbrev pub kept_sections : List String → ComplianceState → ComplianceState
kept_sections [] state = []
kept_sections (key ∷ keys) state = (key, keep truthy (section key state)) ∷ kept_sections keys state

requirements-write_section :
    (k j : String) (keys : List String) (state : ComplianceState) (vs : List Json) (rest : Fields)
    → section j state ≡ vs
    → requirements (get_field k rest)
      ≡ (if includes k keys then keep truthy (section k state) else [])
    → requirements (get_field k (write_section j vs rest))
      ≡ (if k == j || includes k keys then keep truthy (section k state) else [])
unfolding get_field
requirements-write_section k j keys state [] rest e later = elim (Bool-cases (k == j)) [
  | inl same ↦
      let here : section k state ≡ [] = ap (λ x. section x state) ((eq_iff k j).0 same) ∙ e in
      grind (arith, later, here, same)
  | inr other ↦ rw other later
]
requirements-write_section k j keys state (v ∷ vs) rest e later = elim (Bool-cases (k == j)) [
  | inl same ↦
      let here : section k state ≡ v ∷ vs = ap (λ x. section x state) ((eq_iff k j).0 same) ∙ e in
      rw (same, here, (eq_iff j k).1 (sym ((eq_iff k j).0 same)), elems-items vs) refl
  | inr other ↦ ground (arith, later, other, eq_iff k j, eq_iff j k)
]

requirements-write_sections :
    (k : String) (keys : List String) (state : ComplianceState)
    → requirements (get_field k (write_sections keys state))
      ≡ (if includes k keys then keep truthy (section k state) else [])
unfolding get_field write_sections includes
requirements-write_sections k [] state = refl
requirements-write_sections k (j ∷ keys) state =
    requirements-write_section k j keys state (section j state) (write_sections keys state) refl
      (requirements-write_sections k keys state)

read-write_sections :
    (asked keys : List String) (state : ComplianceState)
    → All (λ k. includes k keys ≡ true) asked
    → read_sections asked (obj (write_sections keys state)) ≡ kept_sections asked state
unfolding read_sections opt
read-write_sections [] keys state h = refl
read-write_sections (k ∷ asked) keys state h =
    rw (requirements-write_sections k keys state, h.0, read-write_sections asked keys state h.1)
      refl

module _ (js_yaml : JsYaml) (state : ComplianceState) where
  -- The requirements of the editor are printed, and what is printed is read back as the same ones
  -- without the empty texts, for each framework that the editor knows, provided that js-yaml reads
  -- back the object it is given.
  pub parse-dump_compliance_yml :
      IsReadBack js_yaml (obj (write_sections compliance_keys state))
      → (text : String) × (dump_compliance_yml js_yaml state ≡ return text)
        × (parse_compliance_yml js_yaml text ≡ kept_sections compliance_keys state)
  unfolding dump_compliance_yml parse_compliance_yml parsed_compliance includes
  parse-dump_compliance_yml back =
      by_keys (write_sections compliance_keys state)
        (read-write_sections compliance_keys compliance_keys state
          (refl, (refl, (refl, (refl, (refl, (refl, (refl, (refl, (refl, (refl, tt)))))))))))
        back
    where
      by_keys :
          (fs : Fields)
          → read_sections compliance_keys (obj fs) ≡ kept_sections compliance_keys state
          → IsReadBack js_yaml (obj fs)
          → (text : String) × (dump_or_empty js_yaml fs ≡ return text)
            × (parse_compliance_yml js_yaml text ≡ kept_sections compliance_keys state)
      by_keys end read printed = ("", refl, read)
      by_keys (field k v fs) read printed = (
        printed.text,
        printed.printed,
        rw (not_empty printed.text printed.non_empty, printed.parsed) read,
      )
