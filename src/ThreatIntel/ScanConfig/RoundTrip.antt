-- ===== src/ThreatIntel/ScanConfig/RoundTrip.antt =====
-- A scan configuration, shown in its form and submitted again.
use wazuh_dashboard_security.Base.{
  String, true, List, [], ◌∷◌, ◌++◌, ◌≡◌, refl, sym, ap, ◌∙◌, ◌==◌, if◌then◌else◌, Option, none,
  some, Dict, lookup, insert, values, arith, eq_iff, subst, Bool-cases, inl, inr,
}
use wazuh_dashboard_security.Base.Nested.{
  Entry, or_nil, lookup2, put2, put_all, last_entry, lookup2-put_all, put_all-append,
  put_all-AreNestedObjects, row_entries, entries_of, found_or, last_entry-entries_of,
}
use wazuh_dashboard_security.Json.{omit}
use wazuh_dashboard_security.ThreatIntel.ScanConfig.{
  IocFieldAliases, ThreatIntelScanConfig, LogSourceIocConfig, ThreatIntelLogSource,
  log_sources_by_name, derive_form_model_from_config, new_or_added, add_ioc_type, add_config_map,
  field_aliases_by_ioc_type, config_form_model_to_monitor_payload,
}
use wazuh_dashboard_security.ThreatIntel.ScanConfig.Rows.{
  input_entries, aliases_in, swapped, last_entry-swapped, plain, source_rows, input_rows,
  input_rows-insert, swapped-append, source_rows-log_sources_by_name, AreEnabled, AreDerived,
  log_sources_by_name-AreDerived,
}

abbrev input_row : Option IocFieldAliases → Dict (List String)
input_row none = []
input_row (some input) = input.index_to_fields_map

lookup-input_rows :
    (k : String) (m : Dict IocFieldAliases)
    → or_nil (lookup k (input_rows m)) ≡ input_row (lookup k m)
unfolding lookup
lookup-input_rows k [] = refl
lookup-input_rows k ((j, s) ∷ m) = ground (arith, lookup-input_rows k m)

map-new_or_added :
    (ioc_type name : String) (aliases : List String) (o : Option IocFieldAliases)
    → (new_or_added ioc_type name aliases o).index_to_fields_map ≡ insert name aliases (input_row o)
unfolding insert
map-new_or_added ioc_type name aliases none = refl
map-new_or_added ioc_type name aliases (some input) = refl

input_rows-add_ioc_type :
    (name ioc_type : String) (config : LogSourceIocConfig) (m : Dict IocFieldAliases)
    → config.enabled ≡ true
    → input_rows (add_ioc_type name ioc_type config m)
      ≡ put2 ioc_type name config.field_aliases (input_rows m)
unfolding add_ioc_type put2
input_rows-add_ioc_type name ioc_type config m enabled =
    let added = new_or_added ioc_type name config.field_aliases (lookup ioc_type m) in
    ap (λ b. input_rows (if b then insert ioc_type added m else m)) enabled
    ∙ input_rows-insert ioc_type added m
    ∙ ap (λ d. insert ioc_type d (input_rows m))
        (map-new_or_added ioc_type name config.field_aliases (lookup ioc_type m)
          ∙ ap (insert name config.field_aliases) (sym (lookup-input_rows ioc_type m)))

input_rows-add_config_map :
    (name : String) (d : Dict LogSourceIocConfig) (m : Dict IocFieldAliases)
    → AreEnabled d
    → input_rows (add_config_map name d m)
      ≡ put_all (swapped (row_entries name (plain d))) (input_rows m)
unfolding add_config_map put_all
input_rows-add_config_map name [] m h = refl
input_rows-add_config_map name ((ioc_type, config) ∷ d) m h =
    input_rows-add_config_map name d (add_ioc_type name ioc_type config m) h.1
    ∙ ap (put_all (swapped (row_entries name (plain d))))
        (input_rows-add_ioc_type name ioc_type config m h.0)

input_rows-field_aliases_by_ioc_type :
    (sources : Dict ThreatIntelLogSource) (m : Dict IocFieldAliases)
    → AreDerived sources
    → input_rows (field_aliases_by_ioc_type (values sources) m)
      ≡ put_all (swapped (entries_of (source_rows sources))) (input_rows m)
unfolding field_aliases_by_ioc_type put_all
input_rows-field_aliases_by_ioc_type [] m h = refl
input_rows-field_aliases_by_ioc_type ((k, s) ∷ sources) m h =
    let row = row_entries k (plain s.ioc_config_map) in
    let rest = swapped (entries_of (source_rows sources)) in
    input_rows-field_aliases_by_ioc_type sources (add_config_map s.name s.ioc_config_map m) h.1
    ∙ ap (put_all rest) (
        input_rows-add_config_map s.name s.ioc_config_map m h.0.1
        ∙ ap (λ n. put_all (swapped (row_entries n (plain s.ioc_config_map))) (input_rows m)) h.0.0)
    ∙ sym (put_all-append (swapped row) rest (input_rows m))
    ∙ ap (λ es. put_all es (input_rows m))
        (sym (swapped-append row (entries_of (source_rows sources))))

-- Each input of the payload stands under its type.
abbrev AreTyped : Dict IocFieldAliases → Type 0
AreTyped [] = Unit
AreTyped ((k, input) ∷ m) = (input.ioc_type ≡ k) × AreTyped m

abbrev IsTypedIf : String → Option IocFieldAliases → Type 0
IsTypedIf k none = Unit
IsTypedIf k (some input) = input.ioc_type ≡ k

lookup-IsTypedIf : (k : String) (m : Dict IocFieldAliases) → AreTyped m → IsTypedIf k (lookup k m)
unfolding lookup
lookup-IsTypedIf k [] h = tt
lookup-IsTypedIf k ((j, s) ∷ m) h = elim (Bool-cases (j == k)) [
  | inl same ↦ rw same (h.0 ∙ (eq_iff j k).0 same)
  | inr other ↦ rw other (lookup-IsTypedIf k m h.1)
]

insert-AreTyped :
    (k : String) (input : IocFieldAliases) (m : Dict IocFieldAliases)
    → input.ioc_type ≡ k
    → AreTyped m
    → AreTyped (insert k input m)
unfolding insert
insert-AreTyped k input [] e h = (e, tt)
insert-AreTyped k input ((j, x) ∷ m) e h = elim (Bool-cases (j == k)) [
  | inl same ↦ rw same (e ∙ sym ((eq_iff j k).0 same), h.1)
  | inr other ↦ rw other (h.0, insert-AreTyped k input m e h.1)
]

new_or_added-IsTyped :
    (ioc_type name : String) (aliases : List String) (o : Option IocFieldAliases)
    → IsTypedIf ioc_type o
    → (new_or_added ioc_type name aliases o).ioc_type ≡ ioc_type
new_or_added-IsTyped ioc_type name aliases none h = refl
new_or_added-IsTyped ioc_type name aliases (some input) h = h

add_ioc_type-AreTyped :
    (name ioc_type : String) (config : LogSourceIocConfig) (m : Dict IocFieldAliases)
    → AreTyped m
    → AreTyped (add_ioc_type name ioc_type config m)
unfolding add_ioc_type
add_ioc_type-AreTyped name ioc_type config m h = elim (Bool-cases config.enabled) [
  | inl on ↦
      subst (λ b. AreTyped (if b then insert ioc_type added m else m)) (sym on)
        (insert-AreTyped ioc_type added m
          (new_or_added-IsTyped ioc_type name config.field_aliases (lookup ioc_type m)
            (lookup-IsTypedIf ioc_type m h))
          h)
  | inr off ↦ subst (λ b. AreTyped (if b then insert ioc_type added m else m)) (sym off) h
]
  where
    added : IocFieldAliases
    added = new_or_added ioc_type name config.field_aliases (lookup ioc_type m)

add_config_map-AreTyped :
    (name : String) (d : Dict LogSourceIocConfig) (m : Dict IocFieldAliases)
    → AreTyped m
    → AreTyped (add_config_map name d m)
unfolding add_config_map
add_config_map-AreTyped name [] m h = h
add_config_map-AreTyped name ((ioc_type, config) ∷ d) m h =
    add_config_map-AreTyped name d (add_ioc_type name ioc_type config m)
      (add_ioc_type-AreTyped name ioc_type config m h)

field_aliases_by_ioc_type-AreTyped :
    (sources : List ThreatIntelLogSource) (m : Dict IocFieldAliases)
    → AreTyped m
    → AreTyped (field_aliases_by_ioc_type sources m)
unfolding field_aliases_by_ioc_type
field_aliases_by_ioc_type-AreTyped [] m h = h
field_aliases_by_ioc_type-AreTyped (s ∷ sources) m h =
    field_aliases_by_ioc_type-AreTyped sources (add_config_map s.name s.ioc_config_map m)
      (add_config_map-AreTyped s.name s.ioc_config_map m h)

input_entries-values :
    (m : Dict IocFieldAliases) → AreTyped m → input_entries (values m) ≡ entries_of (input_rows m)
input_entries-values [] h = refl
input_entries-values ((k, input) ∷ m) h =
    ap (λ n. row_entries n input.index_to_fields_map ++ input_entries (values m)) h.0
    ∙ ap (λ es. row_entries k input.index_to_fields_map ++ es) (input_entries-values m h.1)

found_or-none : {A : Type 0} (o : Option A) → found_or o none ≡ o
found_or-none none = refl
found_or-none (some a) = refl

-- The last of the entries of writes to nothing is the last of the writes.
last_entry-put_all :
    (o i : String) (es : List (Entry (List String)))
    → last_entry o i (entries_of (put_all es [])) none ≡ last_entry o i es none
unfolding lookup2 lookup
last_entry-put_all o i es =
    last_entry-entries_of o i (put_all es []) none (put_all-AreNestedObjects es [] (tt, tt))
    ∙ found_or-none (lookup2 o i (put_all es []))
    ∙ lookup2-put_all o i es []

-- A stored configuration, shown in the form and submitted unchanged, keeps all its other
-- properties, in their order, but for one that is called like one of the two lists, and gives each
-- index for each type of indicator the aliases that it had: the last ones, where the stored list
-- has a type and index more than once.
pub monitor_payload-derive_form_model :
    (config : ThreatIntelScanConfig) (ioc_type index : String)
    → ((config_form_model_to_monitor_payload (derive_form_model_from_config config)).details
        ≡ omit "per_ioc_type_scan_input_list" (omit "logSources" config.details))
      × (aliases_in
            (config_form_model_to_monitor_payload
              (derive_form_model_from_config config)).per_ioc_type_scan_input_list
            ioc_type
            index
          ≡ aliases_in config.per_ioc_type_scan_input_list ioc_type index)
unfolding config_form_model_to_monitor_payload derive_form_model_from_config
monitor_payload-derive_form_model config ioc_type index =
    let inputs = config.per_ioc_type_scan_input_list in
    let sources = log_sources_by_name inputs [] in
    let payload = field_aliases_by_ioc_type (values sources) [] in
    let last_at = λ (es : List (Entry (List String))). last_entry ioc_type index es none in
    (
      refl,
      ap last_at (
            input_entries-values payload
              (field_aliases_by_ioc_type-AreTyped (values sources) [] tt))
          ∙ ap (λ m. last_at (entries_of m))
              (input_rows-field_aliases_by_ioc_type sources []
                (log_sources_by_name-AreDerived inputs [] tt))
          ∙ last_entry-put_all ioc_type index (swapped (entries_of (source_rows sources)))
          ∙ last_entry-swapped index ioc_type (entries_of (source_rows sources)) none
          ∙ ap (λ m. last_entry index ioc_type (entries_of m) none)
              (source_rows-log_sources_by_name inputs [])
          ∙ last_entry-put_all index ioc_type (swapped (input_entries inputs))
          ∙ last_entry-swapped ioc_type index (input_entries inputs) none,
    )
