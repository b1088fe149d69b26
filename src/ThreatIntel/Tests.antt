-- ===== src/ThreatIntel/Tests.antt =====
-- Runs of the forms of threat intelligence: a scan configuration, a file and the errors of a form.
use wazuh_dashboard_security.Base.{
  String, true, false, [], ◌∷◌, ◌++◌, ◌≡◌, refl, some, ◌==◌, if◌then◌else◌,
}
use wazuh_dashboard_security.Json.{Json, null, bool, str, obj, object, Fields, end, field, omit}
use wazuh_dashboard_security.Server.Client.{Outcome, return, throw}
use wazuh_dashboard_security.ThreatIntel.Sources.{
  File, read, invalid_format, split_lines, parsed, read_lines, read_iocs_from_file, CheckState,
  passed_over, has_error_in,
}
use wazuh_dashboard_security.ThreatIntel.Sources.Reading.{
  indicators_of, complaints_of, filled_lines, read_iocs_from_file-splits,
}
use wazuh_dashboard_security.ThreatIntel.Sources.Errors.{
  ErrorIn, Decides, no_null_in, has_error_in-finds,
}
use wazuh_dashboard_security.ThreatIntel.ScanConfig.{
  ThreatIntelScanConfig, derive_form_model_from_config, config_form_model_to_monitor_payload,
}
use wazuh_dashboard_security.ThreatIntel.ScanConfig.Rows.{aliases_in}
use wazuh_dashboard_security.ThreatIntel.ScanConfig.RoundTrip.{monitor_payload-derive_form_model}

-- An object, no JSON, and an empty line.
abbrev uploaded : File
uploaded = record { size = 12; name = "iocs.json"; text = some "{}\nx\n" }

abbrev parse : String → Outcome Json
parse text = if text == "{}" then return (object []) else throw (str "SyntaxError")

reading :
    read_iocs_from_file parse uploaded ≡ invalid_format ∷ read "iocs.json" (object [] ∷ []) ∷ []
unfolding read_iocs_from_file read_lines parsed split_lines
reading = refl

read_iocs_from_file-splits_example :
    read_iocs_from_file parse uploaded
    ≡ complaints_of parse (filled_lines "{}\nx\n")
      ++ read "iocs.json" (indicators_of parse (filled_lines "{}\nx\n")) ∷ []
read_iocs_from_file-splits_example = read_iocs_from_file-splits parse uploaded "{}\nx\n" refl refl

-- The error of the schedule counts, as the source is enabled; that of the bucket does not.
abbrev check_state : CheckState
check_state = record { type = "IOC_UPLOAD"; enabled = true; has_custom_ioc_schema = false }

abbrev errors : Fields
errors =
    field "s3" (obj (field "bucket" (str "Required.") end))
      (field "schedule" (str "Invalid schedule.") end)

errors-no_null : no_null_in errors ≡ true
unfolding no_null_in
errors-no_null = refl

has_error_in-finds_example :
    Decides (has_error_in null check_state errors) (ErrorIn check_state errors)
has_error_in-finds_example = has_error_in-finds null check_state errors errors-no_null

has_error : has_error_in null check_state errors ≡ return true
unfolding has_error_in passed_over
has_error = refl

abbrev config : ThreatIntelScanConfig
config = record {
  details = field "enabled" (bool true) end;
  per_ioc_type_scan_input_list =
      record {
        ioc_type = "ipv4-addr";
        index_to_fields_map =
            ("linux", "src_ip" ∷ "dst_ip" ∷ []) ∷ ("windows", "address" ∷ []) ∷ [];
      }
      ∷ record { ioc_type = "domain-name"; index_to_fields_map = ("linux", "host" ∷ []) ∷ [] }
      ∷ [];
}

monitor_payload-derive_form_model_example :
    ((config_form_model_to_monitor_payload (derive_form_model_from_config config)).details
      ≡ config.details)
    × (aliases_in
          (config_form_model_to_monitor_payload
            (derive_form_model_from_config config)).per_ioc_type_scan_input_list
          "ipv4-addr"
          "windows"
        ≡ aliases_in config.per_ioc_type_scan_input_list "ipv4-addr" "windows")
unfolding omit
monitor_payload-derive_form_model_example =
    monitor_payload-derive_form_model config "ipv4-addr" "windows"
