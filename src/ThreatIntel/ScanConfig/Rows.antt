-- ===== src/ThreatIntel/ScanConfig/Rows.antt =====
-- Both forms of a scan configuration as dictionaries of dictionaries, and the loops as writes to
-- them.
use wazuh_dashboard_security.Base.{
  String, true, List, [], ◌∷◌, ◌++◌, ◌≡◌, refl, sym, ap, ◌∙◌, ◌==◌, ◌&&◌, if◌then◌else◌, Option,
  none, some, Dict, lookup, insert, arith, eq_iff, Bool-cases, inl, inr,
}
use wazuh_dashboard_security.Base.Nested.{
  Nested, Entry, or_nil, put2, put_all, last_entry, put_all-append, row_entries,
}
use wazuh_dashboard_security.ThreatIntel.ScanConfig.{
  IocFieldAliases, LogSourceIocConfig, ThreatIntelLogSource, enabled_config, new_or_extended,
  add_log_source, add_index_map, log_sources_by_name,
}

-- The aliases of the indices, type by type.
abbrev pub input_entries : List IocFieldAliases → List (Entry (List String))
input_entries [] = []
input_entries (input ∷ inputs) =
    row_entries input.ioc_type input.index_to_fields_map ++ input_entries inputs

-- The aliases that a list gives for a type and an index: the last ones, where it has several.
abbrev pub aliases_in : List IocFieldAliases → String → String → Option (List String)
aliases_in inputs ioc_type index = last_entry ioc_type index (input_entries inputs) none

abbrev pub swapped : List (Entry (List String)) → List (Entry (List String))
swapped [] = []
swapped ((o, (i, v)) ∷ es) = (i, (o, v)) ∷ swapped es

pub last_entry-swapped :
    (o i : String) (es : List (Entry (List String))) (before : Option (List String))
    → last_entry i o (swapped es) before ≡ last_entry o i es before
unfolding last_entry
last_entry-swapped o i [] before = refl
last_entry-swapped o i ((p, (j, v)) ∷ es) before =
    ap (λ b. last_entry i o (swapped es) (if b then some v else before)) (ground arith)
    ∙ last_entry-swapped o i es (if p == o && j == i then some v else before)

-- The aliases of a form's configurations.
abbrev pub plain : Dict LogSourceIocConfig → Dict (List String)
plain [] = []
plain ((k, c) ∷ d) = (k, c.field_aliases) ∷ plain d

abbrev pub source_rows : Dict ThreatIntelLogSource → Nested (List String)
source_rows [] = []
source_rows ((k, s) ∷ m) = (k, plain s.ioc_config_map) ∷ source_rows m

abbrev pub input_rows : Dict IocFieldAliases → Nested (List String)
input_rows [] = []
input_rows ((k, input) ∷ m) = (k, input.index_to_fields_map) ∷ input_rows m

plain-insert :
    (k : String) (c : LogSourceIocConfig) (d : Dict LogSourceIocConfig)
    → plain (insert k c d) ≡ insert k c.field_aliases (plain d)
unfolding insert
plain-insert k c [] = refl
plain-insert k c ((j, e) ∷ d) = ground (arith, plain-insert k c d)

source_rows-insert :
    (k : String) (s : ThreatIntelLogSource) (m : Dict ThreatIntelLogSource)
    → source_rows (insert k s m) ≡ insert k (plain s.ioc_config_map) (source_rows m)
unfolding insert
source_rows-insert k s [] = refl
source_rows-insert k s ((j, e) ∷ m) = ground (arith, source_rows-insert k s m)

pub input_rows-insert :
    (k : String) (s : IocFieldAliases) (m : Dict IocFieldAliases)
    → input_rows (insert k s m) ≡ insert k s.index_to_fields_map (input_rows m)
unfolding insert
input_rows-insert k s [] = refl
input_rows-insert k s ((j, e) ∷ m) = ground (arith, input_rows-insert k s m)

pub swapped-append :
    (es fs : List (Entry (List String))) → swapped (es ++ fs) ≡ swapped es ++ swapped fs
swapped-append [] fs = refl
swapped-append ((o, (i, v)) ∷ es) fs = ap (λ l. (i, (o, v)) ∷ l) (swapped-append es fs)

abbrev source_row : Option ThreatIntelLogSource → Dict (List String)
source_row none = []
source_row (some s) = plain s.ioc_config_map

lookup-source_rows :
    (k : String) (m : Dict ThreatIntelLogSource)
    → or_nil (lookup k (source_rows m)) ≡ source_row (lookup k m)
unfolding lookup
lookup-source_rows k [] = refl
lookup-source_rows k ((j, s) ∷ m) = ground (arith, lookup-source_rows k m)

plain-new_or_extended :
    (ioc_type index : String) (aliases : List String) (o : Option ThreatIntelLogSource)
    → plain (new_or_extended ioc_type index aliases o).ioc_config_map
      ≡ insert ioc_type aliases (source_row o)
unfolding insert
plain-new_or_extended ioc_type index aliases none = refl
plain-new_or_extended ioc_type index aliases (some s) =
    plain-insert ioc_type (enabled_config aliases) s.ioc_config_map

source_rows-add_log_source :
    (ioc_type index : String) (aliases : List String) (m : Dict ThreatIntelLogSource)
    → source_rows (add_log_source ioc_type index aliases m)
      ≡ put2 index ioc_type aliases (source_rows m)
unfolding add_log_source put2
source_rows-add_log_source ioc_type index aliases m =
    source_rows-insert index (new_or_extended ioc_type index aliases (lookup index m)) m
    ∙ ap (λ d. insert index d (source_rows m))
        (plain-new_or_extended ioc_type index aliases (lookup index m)
          ∙ ap (insert ioc_type aliases) (sym (lookup-source_rows index m)))

source_rows-add_index_map :
    (ioc_type : String) (d : Dict (List String)) (m : Dict ThreatIntelLogSource)
    → source_rows (add_index_map ioc_type d m)
      ≡ put_all (swapped (row_entries ioc_type d)) (source_rows m)
unfolding add_index_map put_all
source_rows-add_index_map ioc_type [] m = refl
source_rows-add_index_map ioc_type ((index, aliases) ∷ d) m =
    source_rows-add_index_map ioc_type d (add_log_source ioc_type index aliases m)
    ∙ ap (put_all (swapped (row_entries ioc_type d)))
        (source_rows-add_log_source ioc_type index aliases m)

pub source_rows-log_sources_by_name :
    (inputs : List IocFieldAliases) (m : Dict ThreatIntelLogSource)
    → source_rows (log_sources_by_name inputs m)
      ≡ put_all (swapped (input_entries inputs)) (source_rows m)
unfolding log_sources_by_name put_all
source_rows-log_sources_by_name [] m = refl
source_rows-log_sources_by_name (input ∷ inputs) m =
    let row = row_entries input.ioc_type input.index_to_fields_map in
    source_rows-log_sources_by_name inputs
      (add_index_map input.ioc_type input.index_to_fields_map m)
    ∙ ap (put_all (swapped (input_entries inputs)))
        (source_rows-add_index_map input.ioc_type input.index_to_fields_map m)
    ∙ sym (put_all-append (swapped row) (swapped (input_entries inputs)) (source_rows m))
    ∙ ap (λ es. put_all es (source_rows m)) (sym (swapped-append row (input_entries inputs)))

-- Each configuration is enabled, as the form of a stored configuration has it.
abbrev pub AreEnabled : Dict LogSourceIocConfig → Type 0
AreEnabled [] = Unit
AreEnabled ((k, c) ∷ d) = (c.enabled ≡ true) × AreEnabled d

abbrev pub AreDerived : Dict ThreatIntelLogSource → Type 0
AreDerived [] = Unit
AreDerived ((k, s) ∷ m) = ((s.name ≡ k) × AreEnabled s.ioc_config_map) × AreDerived m

abbrev IsDerivedIf : String → Option ThreatIntelLogSource → Type 0
IsDerivedIf k none = Unit
IsDerivedIf k (some s) = (s.name ≡ k) × AreEnabled s.ioc_config_map

insert-AreEnabled :
    (k : String) (c : LogSourceIocConfig) (d : Dict LogSourceIocConfig)
    → c.enabled ≡ true
    → AreEnabled d
    → AreEnabled (insert k c d)
unfolding insert
insert-AreEnabled k c [] e h = (e, tt)
insert-AreEnabled k c ((j, x) ∷ d) e h = elim (Bool-cases (j == k)) [
  | inl same ↦ rw same (e, h.1)
  | inr other ↦ rw other (h.0, insert-AreEnabled k c d e h.1)
]

insert-AreDerived :
    (k : String) (s : ThreatIntelLogSource) (m : Dict ThreatIntelLogSource)
    → (s.name ≡ k) × AreEnabled s.ioc_config_map
    → AreDerived m
    → AreDerived (insert k s m)
unfolding insert
insert-AreDerived k s [] e h = (e, tt)
insert-AreDerived k s ((j, x) ∷ m) e h = elim (Bool-cases (j == k)) [
  | inl same ↦ rw same ((e.0 ∙ sym ((eq_iff j k).0 same), e.1), h.1)
  | inr other ↦ rw other (h.0, insert-AreDerived k s m e h.1)
]

lookup-IsDerivedIf :
    (k : String) (m : Dict ThreatIntelLogSource) → AreDerived m → IsDerivedIf k (lookup k m)
unfolding lookup
lookup-IsDerivedIf k [] h = tt
lookup-IsDerivedIf k ((j, s) ∷ m) h = elim (Bool-cases (j == k)) [
  | inl same ↦ rw same (h.0.0 ∙ (eq_iff j k).0 same, h.0.1)
  | inr other ↦ rw other (lookup-IsDerivedIf k m h.1)
]

new_or_extended-IsDerived :
    (ioc_type index : String) (aliases : List String) (o : Option ThreatIntelLogSource)
    → IsDerivedIf index o
    → IsDerivedIf index (some (new_or_extended ioc_type index aliases o))
new_or_extended-IsDerived ioc_type index aliases none h = (refl, (refl, tt))
new_or_extended-IsDerived ioc_type index aliases (some s) h =
    (h.0, insert-AreEnabled ioc_type (enabled_config aliases) s.ioc_config_map refl h.1)

add_index_map-AreDerived :
    (ioc_type : String) (d : Dict (List String)) (m : Dict ThreatIntelLogSource)
    → AreDerived m
    → AreDerived (add_index_map ioc_type d m)
unfolding add_index_map add_log_source
add_index_map-AreDerived ioc_type [] m h = h
add_index_map-AreDerived ioc_type ((index, aliases) ∷ d) m h =
    add_index_map-AreDerived ioc_type d (add_log_source ioc_type index aliases m) (
      insert-AreDerived index (new_or_extended ioc_type index aliases (lookup index m)) m
        (new_or_extended-IsDerived ioc_type index aliases (lookup index m)
          (lookup-IsDerivedIf index m h))
        h)

pub log_sources_by_name-AreDerived :
    (inputs : List IocFieldAliases) (m : Dict ThreatIntelLogSource)
    → AreDerived m
    → AreDerived (log_sources_by_name inputs m)
unfolding log_sources_by_name
log_sources_by_name-AreDerived [] m h = h
log_sources_by_name-AreDerived (input ∷ inputs) m h =
    log_sources_by_name-AreDerived inputs (add_index_map input.ioc_type input.index_to_fields_map m)
      (add_index_map-AreDerived input.ioc_type input.index_to_fields_map m h)
