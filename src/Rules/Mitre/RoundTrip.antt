-- ===== src/Rules/Mitre/RoundTrip.antt =====
-- dumpMitreYml, read back by parseMitreYml.
use wazuh_dashboard_security.Base.{
  String, false, List, [], ◌∷◌, ◌≡◌, refl, ap, ◌∙◌, ◌==◌, arith, eq_refl, All, keep, map,
}
use wazuh_dashboard_security.Json.{
  undefined, obj, Fields, end, field, opt, get_field, is_nullish, elems-items,
}
use wazuh_dashboard_security.Server.Client.{return}
use wazuh_dashboard_security.Rules.Loaded.{JsYaml, IsReadBack, not_empty}
use wazuh_dashboard_security.Rules.Mitre.{
  MitreEntry, MitreState, pair_up, parse_mitre_field, parsed_mitre, is_filled, dump_section,
  mitre_object, parse_mitre_yml, dump_mitre_yml, dump_unless_empty,
}

-- Neither the id nor the name is null or undefined.
abbrev pub IsPresent : MitreEntry → Type 0
IsPresent e = (is_nullish e.id ≡ false) × (is_nullish e.name ≡ false)

abbrev pub filled : MitreState → MitreState
filled state = record {
  tactic = keep is_filled state.tactic;
  technique = keep is_filled state.technique;
  subtechnique = keep is_filled state.subtechnique;
}

pair_up-split :
    (es : List MitreEntry)
    → All IsPresent es
    → pair_up (map (λ x. x.id) es) (map (λ x. x.name) es) ≡ es
unfolding pair_up
pair_up-split [] h = refl
pair_up-split (e ∷ es) h = grind (arith, pair_up-split es h.1)

get_field-dump_section-ne :
    (k j : String) (es : List MitreEntry) (rest : Fields)
    → (j == k) ≡ false
    → get_field k (dump_section j es rest) ≡ get_field k rest
unfolding get_field dump_section
get_field-dump_section-ne k j [] rest h = refl
get_field-dump_section-ne k j (e ∷ es) rest h = rw h refl

parse-dump_section :
    (k : String) (es : List MitreEntry) (rest : Fields)
    → All IsPresent es
    → get_field k rest ≡ undefined
    → parse_mitre_field (get_field k (dump_section k es rest)) ≡ es
unfolding get_field dump_section parse_mitre_field opt
parse-dump_section k [] rest h absent = rw absent refl
parse-dump_section k (e ∷ es) rest h absent = rw (eq_refl k) (
    rw (elems-items (map (λ x. x.id) es), elems-items (map (λ x. x.name) es))
      (pair_up-split (e ∷ es) h))

parsed-mitre_object :
    (state : MitreState)
    → All IsPresent (keep is_filled state.tactic)
    → All IsPresent (keep is_filled state.technique)
    → All IsPresent (keep is_filled state.subtechnique)
    → parsed_mitre (return (obj (mitre_object state))) ≡ filled state
unfolding parsed_mitre mitre_object opt
parsed-mitre_object state a b c =
    let last = dump_section "subtechnique" (keep is_filled state.subtechnique) end in
    let later = dump_section "technique" (keep is_filled state.technique) last in
    let tactic_read = parse-dump_section "tactic" (keep is_filled state.tactic) later a (
      get_field-dump_section-ne "tactic" "technique" (keep is_filled state.technique) last refl
      ∙ get_field-dump_section-ne "tactic" "subtechnique" (keep is_filled state.subtechnique) end
          refl) in
    let technique_read =
      ap parse_mitre_field
        (get_field-dump_section-ne "technique" "tactic" (keep is_filled state.tactic) later refl)
      ∙ parse-dump_section "technique" (keep is_filled state.technique) last b (
          get_field-dump_section-ne "technique" "subtechnique" (keep is_filled state.subtechnique)
            end refl) in
    let subtechnique_read =
      ap parse_mitre_field (
        get_field-dump_section-ne "subtechnique" "tactic" (keep is_filled state.tactic) later refl
        ∙ get_field-dump_section-ne "subtechnique" "technique" (keep is_filled state.technique) last
            refl)
      ∙ parse-dump_section "subtechnique" (keep is_filled state.subtechnique) end c refl in
    rw (tactic_read, technique_read, subtechnique_read) refl

module _ (js_yaml : JsYaml) (state : MitreState) where
  -- A MITRE section of the editor whose filled entries have an id and a name that are not null or
  -- undefined is printed, and what is printed is read back as the section without the entries in
  -- which both fields are empty, provided that js-yaml reads back the object it is given.
  pub parse-dump_mitre_yml :
      All IsPresent (keep is_filled state.tactic)
      → All IsPresent (keep is_filled state.technique)
      → All IsPresent (keep is_filled state.subtechnique)
      → IsReadBack js_yaml (obj (mitre_object state))
      → (text : String) × (dump_mitre_yml js_yaml state ≡ return text)
        × (parse_mitre_yml js_yaml text ≡ filled state)
  unfolding dump_mitre_yml parse_mitre_yml
  parse-dump_mitre_yml a b c back =
      by_keys (mitre_object state) (parsed-mitre_object state a b c) back
    where
      by_keys :
          (fs : Fields)
          → parsed_mitre (return (obj fs)) ≡ filled state
          → IsReadBack js_yaml (obj fs)
          → (text : String) × (dump_unless_empty js_yaml fs ≡ return text)
            × (parse_mitre_yml js_yaml text ≡ filled state)
      by_keys end read printed = ("", refl, read)
      by_keys (field k v fs) read printed = (
        printed.text,
        printed.printed,
        rw (not_empty printed.text printed.non_empty, printed.parsed) read,
      )
