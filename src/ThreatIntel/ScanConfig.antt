-- ===== src/ThreatIntel/ScanConfig.antt =====
-- deriveFormModelFromConfig and configFormModelToMonitorPayload of
-- public/pages/ThreatIntel/utils/helpers.ts: the scan configuration of the threat intelligence
-- monitor, as it is stored (by the type of an indicator and the index) and as its form shows it (by
-- the index and the type). Values stand for the clones, so that cloneDeep copies nothing here; the
-- record's field of the list is what `delete` removes from a clone. No index and no type is named
-- as a property that every object has, such as `constructor`.
pub mod Rows
pub mod RoundTrip
use wazuh_dashboard_security.Base.{
  String, Bool, true, List, [], ◌∷◌, if◌then◌else◌, Option, none, some, Dict, lookup, insert,
  values,
}
use wazuh_dashboard_security.Json.{Fields, omit}

pub record IocFieldAliases : Type 0 where
  pub ioc_type : String
  pub index_to_fields_map : Dict (List String)

-- `details` are the own properties but per_ioc_type_scan_input_list, in their order.
pub record ThreatIntelScanConfig : Type 0 where
  pub details : Fields
  pub per_ioc_type_scan_input_list : List IocFieldAliases

pub record LogSourceIocConfig : Type 0 where
  pub enabled : Bool
  pub field_aliases : List String

pub record ThreatIntelLogSource : Type 0 where
  pub name : String
  pub ioc_config_map : Dict LogSourceIocConfig

-- `details` are the own properties but logSources.
pub record ThreatIntelScanConfigFormModel : Type 0 where
  pub details : Fields
  pub log_sources : List ThreatIntelLogSource

abbrev pub enabled_config : List String → LogSourceIocConfig
enabled_config aliases = record { enabled = true; field_aliases = aliases }

abbrev pub new_or_extended :
    String → String → List String → Option ThreatIntelLogSource → ThreatIntelLogSource
new_or_extended ioc_type index aliases none = record {
  name = index;
  ioc_config_map = (ioc_type, enabled_config aliases) ∷ [];
}
new_or_extended ioc_type index aliases (some source) = record source {
  ioc_config_map = insert ioc_type (enabled_config aliases) source.ioc_config_map;
}

-- The body of the inner loop of deriveFormModelFromConfig.
unfoldable pub add_log_source :
    String → String → List String → Dict ThreatIntelLogSource → Dict ThreatIntelLogSource
unfolding insert lookup
add_log_source ioc_type index aliases sources =
    insert index (new_or_extended ioc_type index aliases (lookup index sources)) sources

unfoldable pub add_index_map :
    String → Dict (List String) → Dict ThreatIntelLogSource → Dict ThreatIntelLogSource
unfolding add_log_source
add_index_map ioc_type [] sources = sources
add_index_map ioc_type ((index, aliases) ∷ rest) sources =
    add_index_map ioc_type rest (add_log_source ioc_type index aliases sources)

unfoldable pub log_sources_by_name :
    List IocFieldAliases → Dict ThreatIntelLogSource → Dict ThreatIntelLogSource
unfolding add_index_map
log_sources_by_name [] sources = sources
log_sources_by_name (input ∷ inputs) sources =
    log_sources_by_name inputs (add_index_map input.ioc_type input.index_to_fields_map sources)

-- { ...configClone, logSources }: a property of that name among the spread ones is written over.
unfoldable pub derive_form_model_from_config :
    ThreatIntelScanConfig → ThreatIntelScanConfigFormModel
unfolding log_sources_by_name
derive_form_model_from_config config = record {
  details = omit "logSources" config.details;
  log_sources = values (log_sources_by_name config.per_ioc_type_scan_input_list []);
}

abbrev pub new_or_added : String → String → List String → Option IocFieldAliases → IocFieldAliases
new_or_added ioc_type name aliases none = record {
  ioc_type = ioc_type;
  index_to_fields_map = (name, aliases) ∷ [];
}
new_or_added ioc_type name aliases (some input) = record input {
  index_to_fields_map = insert name aliases input.index_to_fields_map;
}

-- The body of the inner loop of configFormModelToMonitorPayload.
unfoldable pub add_ioc_type :
    String → String → LogSourceIocConfig → Dict IocFieldAliases → Dict IocFieldAliases
unfolding insert lookup
add_ioc_type name ioc_type config inputs =
    if config.enabled
    then insert ioc_type (new_or_added ioc_type name config.field_aliases (lookup ioc_type inputs))
        inputs
    else inputs

unfoldable pub add_config_map :
    String → Dict LogSourceIocConfig → Dict IocFieldAliases → Dict IocFieldAliases
unfolding add_ioc_type
add_config_map name [] inputs = inputs
add_config_map name ((ioc_type, config) ∷ rest) inputs =
    add_config_map name rest (add_ioc_type name ioc_type config inputs)

unfoldable pub field_aliases_by_ioc_type :
    List ThreatIntelLogSource → Dict IocFieldAliases → Dict IocFieldAliases
unfolding add_config_map
field_aliases_by_ioc_type [] inputs = inputs
field_aliases_by_ioc_type (source ∷ sources) inputs =
    field_aliases_by_ioc_type sources (add_config_map source.name source.ioc_config_map inputs)

-- { ...formModelClone, per_ioc_type_scan_input_list }, in the same way.
unfoldable pub config_form_model_to_monitor_payload :
    ThreatIntelScanConfigFormModel → ThreatIntelScanConfig
unfolding field_aliases_by_ioc_type
config_form_model_to_monitor_payload form = record {
  details = omit "per_ioc_type_scan_input_list" form.details;
  per_ioc_type_scan_input_list = values (field_aliases_by_ioc_type form.log_sources []);
}
