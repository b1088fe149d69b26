-- ===== src/Rules/RuleYaml/RoundTrip.antt =====
-- A rule that is shown as YAML and read back.
use wazuh_dashboard_security.Base.{
  String, true, false, not, List, [], ◌∷◌, ◌≡◌, ◌≢◌, refl, sym, ap, ◌∙◌, ◌==◌, arith, eq_iff,
  if◌then◌else◌, Option, none, some, keep, map, Bool-cases, inl, inr, ◌⊎◌,
}
use wazuh_dashboard_security.Json.{
  Json, undefined, null, bool, num, str, arr, obj, or_else, Fields, elems, items, elems-items,
  array, text_array, texts, object, truthy, opt, get_field,
}
use wazuh_dashboard_security.Json.Text.{trim}
use wazuh_dashboard_security.Server.FindingRequests.Labels.{get_field-set_field}
use wazuh_dashboard_security.Server.Client.{return}
use wazuh_dashboard_security.Rules.Loaded.{JsYaml, not_empty}
use wazuh_dashboard_security.Rules.WazuhEditor.{Rule, RuleMetadata, or_default, values_or}
use wazuh_dashboard_security.Rules.RuleYaml.{
  metadata_of, or_blank, yaml_fields, yaml_base, with_truthy, text_or_missing, metadata_fields,
  metadata_base, value_object, safe_load, safe_load_of, safe_dump, map_rule_to_yaml_object,
  rule_object, map_yaml_object_to_rule,
}

-- A text that js-yaml reads as an object, which it prints as the same text.
pub record IsPrinted (js_yaml : JsYaml) (text : String) : Type 0 where
  pub value : Fields
  pub visible : trim text ≢ ""
  pub filled : text ≢ ""
  pub loaded : js_yaml.load (str text) ≡ return (obj value)
  pub dumped : js_yaml.dump (obj value) ≡ return text

abbrev pub IsCanonical : JsYaml → String → Type 0
IsCanonical js_yaml text = (text ≡ "") ⊎ IsPrinted js_yaml text

abbrev pub non_empty : List String → List String
non_empty ss = keep (λ s. not (s == "")) ss

abbrev pub text_of : Option String → String
text_of s = or_default s ""

abbrev pub if_filled : Option String → Json
if_filled none = undefined
if_filled (some s) = if s == "" then undefined else str s

-- The object of a rule with these sections: without its log source and its date, without empty
-- texts in its lists, and with what is missing filled in.
abbrev pub plain_with :
    Rule
    → (detection mitre compliance : String)
    → (references supports tags false_positives : List String) → Json
plain_with rule detection mitre compliance references supports tags false_positives = object (
    ("id", str rule.id)
    ∷ ("category", str rule.category)
    ∷ ("log_source", object [])
    ∷ ("tags", array (map value_object (texts tags)))
    ∷ ("false_positives", array (map value_object (texts false_positives)))
    ∷ ("level", str rule.level)
    ∷ ("status", str rule.status)
    ∷ ("enabled", bool (or_default rule.enabled true))
    ∷ ("detection", str detection)
    ∷ (
      "metadata",
      object (
          ("title", str (text_of (metadata_of rule.metadata (λ m. m.title))))
          ∷ ("author", str (text_of (metadata_of rule.metadata (λ m. m.author))))
          ∷ ("description", str (text_of (metadata_of rule.metadata (λ m. m.description))))
          ∷ ("references", text_array references)
          ∷ ("date", undefined)
          ∷ ("modified", if_filled (metadata_of rule.metadata (λ m. m.modified)))
          ∷ ("documentation", str (text_of (metadata_of rule.metadata (λ m. m.documentation))))
          ∷ ("supports", text_array supports)
          ∷ []),
    )
    ∷ ("mitre", str mitre)
    ∷ ("compliance", str compliance)
    ∷ [])

abbrev pub plain : Rule → (detection mitre compliance : String) → Json
plain rule detection mitre compliance =
    plain_with rule detection mitre compliance
      (non_empty (or_default (metadata_of rule.metadata (λ m. m.references)) []))
      (non_empty (or_default (metadata_of rule.metadata (λ m. m.supports)) []))
      (non_empty (values_or rule.tags [])) (non_empty (values_or rule.false_positives []))

keep-texts : (ss : List String) → keep truthy (texts ss) ≡ texts (non_empty ss)
keep-texts [] = refl
keep-texts (s ∷ ss) = elim (Bool-cases (s == "")) [
  | inl blank ↦ rw blank (keep-texts ss)
  | inr present ↦ rw present (ap (λ l. str s ∷ l) (keep-texts ss))
]

listed-texts : (ss : List String) → keep truthy (elems (items (texts ss))) ≡ texts (non_empty ss)
listed-texts ss = ap (keep truthy) (elems-items (texts ss)) ∙ keep-texts ss

non_empty-or_blank :
    (ss : Option (List String)) → non_empty (or_blank ss) ≡ non_empty (or_default ss [])
non_empty-or_blank none = refl
non_empty-or_blank (some []) = refl
non_empty-or_blank (some (s ∷ ss)) = refl

or_else-str : (s : String) → or_else (str s) (str "") ≡ str s
or_else-str s = elim (Bool-cases (s == "")) [
  | inl blank ↦ rw blank (ap str (sym (ground (arith, blank, eq_iff s ""))))
  | inr present ↦ rw present refl
]

get_field-with_truthy :
    (j k : String) (v : Json) (fs : Fields)
    → (j == k) ≡ false
    → get_field k (with_truthy j v fs) ≡ get_field k fs
unfolding get_field
get_field-with_truthy j k v fs apart = elim (Bool-cases (truthy v)) [
  | inl kept ↦ rw kept (get_field-set_field j k v fs ∙ rw apart refl)
  | inr dropped ↦ rw dropped refl
]

added : Json → Json
added v = if truthy v then v else undefined

get_field-added :
    (k : String) (v : Json) (fs : Fields)
    → get_field k fs ≡ undefined
    → get_field k (with_truthy k v fs) ≡ added v
unfolding added
get_field-added k v fs absent = elim (Bool-cases (truthy v)) [
  | inl kept ↦ rw kept (get_field-set_field k k v fs ∙ rw (eq_refl k) refl)
  | inr dropped ↦ rw dropped absent
]
  where
    eq_refl : (k : String) → (k == k) ≡ true
    eq_refl k = ground (arith, eq_iff k k)

module _ (js_yaml : JsYaml) where
  falsy-safe_dump : (v : Json) → truthy v ≡ false → safe_dump js_yaml v ≡ ""
  unfolding safe_dump
  falsy-safe_dump (str s) h = ground (arith, h, eq_iff s "")
  falsy-safe_dump undefined h = refl
  falsy-safe_dump null h = refl
  falsy-safe_dump (bool b) h = rw h refl
  falsy-safe_dump (num n) h = rw h refl
  falsy-safe_dump (arr vs) h = absurd (ground (arith, h))
  falsy-safe_dump (obj fs) h = absurd (ground (arith, h))

  safe_dump-safe_load :
      (text : String) → IsCanonical js_yaml text → safe_dump js_yaml (safe_load js_yaml text) ≡ text
  unfolding safe_dump safe_load
  safe_dump-safe_load text (inl e) = rw e refl
  safe_dump-safe_load text (inr p) =
      rw (not_empty text p.filled, not_empty (trim text) p.visible, p.loaded) (rw p.dumped refl)

  safe_dump-safe_load_of :
      (text : Option String)
      → IsCanonical js_yaml (text_of text)
      → safe_dump js_yaml (safe_load_of js_yaml text) ≡ text_of text
  unfolding safe_dump
  safe_dump-safe_load_of none h = refl
  safe_dump-safe_load_of (some text) h = safe_dump-safe_load text h

  safe_dump-added : (v : Json) → safe_dump js_yaml (added v) ≡ safe_dump js_yaml v
  unfolding added safe_dump
  safe_dump-added v = elim (Bool-cases (truthy v)) [
    | inl kept ↦ rw kept refl
    | inr dropped ↦ rw dropped (dump_missing ∙ sym (falsy-safe_dump v dropped))
  ]
    where
      dump_missing : safe_dump js_yaml undefined ≡ ""
      dump_missing = refl

module _ (metadata : Option RuleMetadata) where
  metadata_reads :
      (k : String)
      → ("modified" == k) ≡ false
      → opt (obj (metadata_fields metadata)) k ≡ get_field k (metadata_base metadata)
  unfolding opt metadata_fields
  metadata_reads k apart =
      get_field-with_truthy "modified" k (text_or_missing (metadata_of metadata (λ m. m.modified)))
        (metadata_base metadata) apart

  modified_reads :
      opt (obj (metadata_fields metadata)) "modified"
      ≡ added (text_or_missing (metadata_of metadata (λ m. m.modified)))
  unfolding opt metadata_fields get_field
  modified_reads =
      get_field-added "modified" (text_or_missing (metadata_of metadata (λ m. m.modified)))
        (metadata_base metadata) refl

module _ (rule : Rule) (d m c : Json) where
  abbrev whole : Json
  whole = obj (yaml_fields rule d m c)

  whole_reads :
      (k : String)
      → ("compliance" == k) ≡ false
      → ("mitre" == k) ≡ false
      → opt whole k ≡ get_field k (yaml_base rule d)
  unfolding opt yaml_fields
  whole_reads k a b =
      get_field-with_truthy "compliance" k c (with_truthy "mitre" m (yaml_base rule d)) a
      ∙ get_field-with_truthy "mitre" k m (yaml_base rule d) b

  mitre_reads : opt whole "mitre" ≡ added m
  unfolding opt yaml_fields get_field
  mitre_reads =
      get_field-with_truthy "compliance" "mitre" c (with_truthy "mitre" m (yaml_base rule d)) refl
      ∙ get_field-added "mitre" m (yaml_base rule d) refl

  compliance_reads : opt whole "compliance" ≡ added c
  unfolding opt yaml_fields get_field
  compliance_reads =
      get_field-added "compliance" c (with_truthy "mitre" m (yaml_base rule d))
        (get_field-with_truthy "mitre" "compliance" m (yaml_base rule d) refl)

added-if_filled : (s : Option String) → added (text_or_missing s) ≡ if_filled s
unfolding added
added-if_filled none = refl
added-if_filled (some s) = elim (Bool-cases (s == "")) [
  | inl blank ↦ rw blank refl
  | inr present ↦ rw present refl
]

module _ (js_yaml : JsYaml) (type_error : Json) (rule : Rule) where
  module _ (d m c : Json) where
    meta_is : opt (whole rule d m c) "metadata" ≡ obj (metadata_fields rule.metadata)
    unfolding get_field
    meta_is = whole_reads rule d m c "metadata" refl refl

    rule_object-plain :
        (references supports tags false_positives : List String)
        → rule_object js_yaml
            (whole rule d m c)
            (obj (metadata_fields rule.metadata))
            (texts references)
            (texts supports)
            (texts tags)
            (texts false_positives)
          ≡ plain_with rule
              (safe_dump js_yaml d)
              (safe_dump js_yaml m)
              (safe_dump js_yaml c)
              references
              supports
              tags
              false_positives
    unfolding rule_object get_field
    rule_object-plain references supports tags false_positives =
        let own = λ (k : String) (a : ("compliance" == k) ≡ false) (b : ("mitre" == k) ≡ false).
          whole_reads rule d m c k a b in
        rw
          (
            own "id" refl refl,
            own "logsource" refl refl,
            own "level" refl refl,
            own "status" refl refl,
            own "enabled" refl refl,
            own "detection" refl refl,
            mitre_reads rule d m c,
            compliance_reads rule d m c,
            metadata_reads rule.metadata "title" refl,
            metadata_reads rule.metadata "author" refl,
            metadata_reads rule.metadata "description" refl,
            metadata_reads rule.metadata "date" refl,
            metadata_reads rule.metadata "documentation" refl,
            modified_reads rule.metadata,
          )
          (rw
            (
              or_else-str (text_of (metadata_of rule.metadata (λ m. m.title))),
              or_else-str (text_of (metadata_of rule.metadata (λ m. m.author))),
              or_else-str (text_of (metadata_of rule.metadata (λ m. m.description))),
              added-if_filled (metadata_of rule.metadata (λ m. m.modified)),
              safe_dump-added js_yaml m,
              safe_dump-added js_yaml c,
            )
            refl)

    read_parts :
        map_yaml_object_to_rule js_yaml type_error (whole rule d m c)
        ≡ return (plain rule (safe_dump js_yaml d) (safe_dump js_yaml m) (safe_dump js_yaml c))
    unfolding map_yaml_object_to_rule get_field
    read_parts =
        let refs = metadata_of rule.metadata (λ m. m.references) in
        let supported = metadata_of rule.metadata (λ m. m.supports) in
        rw
          (
            meta_is,
            metadata_reads rule.metadata "references" refl,
            metadata_reads rule.metadata "supports" refl,
            whole_reads rule d m c "tags" refl refl,
            whole_reads rule d m c "falsepositives" refl refl,
            listed-texts (or_blank refs),
            listed-texts (or_blank supported),
            listed-texts (values_or rule.tags []),
            listed-texts (values_or rule.false_positives []),
            non_empty-or_blank refs,
            non_empty-or_blank supported,
          )
          (ap return (
            rule_object-plain (non_empty (or_default refs [])) (non_empty (or_default supported []))
              (non_empty (values_or rule.tags [])) (non_empty (values_or rule.false_positives []))))

  -- A rule whose detection, MITRE and compliance texts are empty or printed by js-yaml the way that
  -- they stand is shown as an object from which the same rule is read, but for its log source and
  -- its date, which are dropped, the empty texts in its lists, which are left out, and what is
  -- missing, which is filled in with its default.
  pub map_yaml_object_to_rule-map_rule_to_yaml_object :
      IsCanonical js_yaml rule.detection
      → IsCanonical js_yaml (text_of rule.mitre)
      → IsCanonical js_yaml rule.compliance
      → map_yaml_object_to_rule js_yaml type_error (map_rule_to_yaml_object js_yaml rule)
        ≡ return (plain rule rule.detection (text_of rule.mitre) rule.compliance)
  unfolding map_rule_to_yaml_object
  map_yaml_object_to_rule-map_rule_to_yaml_object detected attacked complied =
      read_parts (safe_load js_yaml rule.detection) (safe_load_of js_yaml rule.mitre)
        (safe_load js_yaml rule.compliance)
      ∙ rw
          (
            safe_dump-safe_load js_yaml rule.detection detected,
            safe_dump-safe_load_of js_yaml rule.mitre attacked,
            safe_dump-safe_load js_yaml rule.compliance complied,
          )
          refl
