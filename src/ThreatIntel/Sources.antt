-- ===== src/ThreatIntel/Sources.antt =====
-- public/pages/ThreatIntel/utils/helpers.ts, from readIocsFromFile on: the forms of the sources of
-- threat intelligence. JSON.parse is a parameter, and so are the patterns of names and
-- descriptions. The keys of the errors are no numerals, so that Object.keys gives them in their
-- order.
pub mod Reading
pub mod Errors
use Prim.Native.Char.{Char, code}
use wazuh_dashboard_security.Base.{
  ℕ, String, Bool, true, false, not, ◌&&◌, ◌||◌, List, [], ◌∷◌, ◌++◌, Option, none, some, ◌==◌,
  if◌then◌else◌, nat_eq, ltb, keep,
}
use wazuh_dashboard_security.Json.{
  Json, null, str, num, arr, obj, Items, nil, cons, Fields, end, field, object, truthy, opt, path,
}
use wazuh_dashboard_security.Json.Text.{utf16_length, trim}
use wazuh_dashboard_security.Server.Client.{Outcome, return, throw}

-- A file, and the text that it holds: none where reading it fails.
pub record File : Type 0 where
  pub size : ℕ
  pub name : String
  pub text : Option String

-- The argument of onRead.
pub data ReadResponse : Type 0 where
  read : (file_name : String) (iocs : List Json) → ReadResponse
  unread : (error_message : String) → ReadResponse

abbrev pub ioc_upload_max_file_size : ℕ
ioc_upload_max_file_size = 512000

abbrev pub invalid_format : ReadResponse
invalid_format = unread "Invalid IoC format found, must follow STIX spec."

-- text.split('\n')
abbrev pub in_first_line : Char → List String → List String
in_first_line c [] = []
in_first_line c (line ∷ lines) = String.◌∷◌ c line ∷ lines

unfoldable pub split_lines : String → List String
split_lines String.[] = "" ∷ []
split_lines (String.◌∷◌ c s) =
    let rest = split_lines s in if nat_eq (code c) 10 then "" ∷ rest else in_first_line c rest

-- typeof v === 'object'
abbrev pub is_object : Json → Bool
is_object null = true
is_object (arr vs) = true
is_object (obj fs) = true
is_object _ = false

module _ (parse : String → Outcome Json) where
  unfoldable pub parsed : Outcome Json → Option Json
  parsed (throw error) = none
  parsed (return v) = if is_object v then some v else none

  -- The loop over the lines: the indicators pushed, and the calls of onRead.
  unfoldable pub read_lines :
      List String → List Json → List ReadResponse → List Json × List ReadResponse
  read_lines [] iocs calls = (iocs, calls)
  read_lines (line ∷ lines) iocs calls =
      let pushed : Json → List Json × List ReadResponse =
        λ v. read_lines lines (iocs ++ v ∷ []) calls in
      let refused = read_lines lines iocs (calls ++ invalid_format ∷ []) in
      elim (parsed (parse line)) [ some v ↦ pushed v | none ↦ refused ]

  -- The calls of onRead, in their order; onRead itself does not throw.
  unfoldable pub read_iocs_from_file : File → List ReadResponse
  unfolding read_lines split_lines
  read_iocs_from_file file =
      if ltb ioc_upload_max_file_size file.size
      then unread "File size should be less then 500KB." ∷ []
      else (elim file.text [
        | none ↦ unread "Error reading file." ∷ []
        | some text ↦
            let (iocs, calls) =
              read_lines (keep (λ line. not (line == "")) (split_lines text)) [] [] in
            calls ++ read file.name iocs ∷ []
      ])

  -- The message of the error that is thrown, or nothing.
  unfoldable pub validate_custom_schema : String → Option Json
  unfolding opt
  validate_custom_schema value =
      if value == ""
      then some (str "Custom schema cannot be empty.")
      else (elim (parse value) [ return v ↦ none | throw error ↦ some (opt error "message") ])

unfoldable pub threat_intel_source_item_to_base_payload : Json → Json
unfolding opt
threat_intel_source_item_to_base_payload item = object (
    ("name", opt item "name")
    ∷ ("description", opt item "description")
    ∷ ("format", str "STIX2")
    ∷ ("store_type", str "OS")
    ∷ ("enabled", opt item "enabled")
    ∷ ("ioc_types", opt item "ioc_types")
    ∷ ("enabled_for_scan", opt item "enabled_for_scan")
    ∷ [])

-- `fits` says whether a text matches THREAT_INTEL_SOURCE_NAME_REGEX.
unfoldable pub validate_source_name : (String → Bool) → String → Option String
unfolding trim
validate_source_name fits name =
    if name == ""
    then some "Name is required."
    else (if ltb 128 (utf16_length name)
        then some "Max length can be 128."
        else (if fits (trim name) then none else some "Invalid name."))

unfoldable pub validate_s3_config_field : String → Option String
validate_s3_config_field value = if value == "" then some "Required." else none

unfoldable pub validate_schedule : Json → String
unfolding path opt
validate_schedule schedule =
    if truthy (path schedule ("period" ∷ "interval" ∷ [])) then "" else "Invalid schedule."

-- ThreatIntelSourceItemErrorCheckState
pub record CheckState : Type 0 where
  pub type : String
  pub enabled : Bool
  pub has_custom_ioc_schema : Bool

-- The keys that the loop passes over.
unfoldable pub passed_over : CheckState → String → Bool
passed_over state key =
    (not (state.type == "S3_CUSTOM") && key == "s3")
    || (not (state.type == "IOC_UPLOAD") && key == "fileUpload")
    || (not state.enabled && key == "schedule")
    || (key == "customSchema" && not state.has_custom_ioc_schema)

abbrev pub or_later : Outcome Bool → Outcome Bool → Outcome Bool
or_later (throw error) later = throw error
or_later (return true) later = return true
or_later (return false) later = later

-- Object.keys(null) throws: `type_error`. The keys of an array are its positions, none of which is
-- passed over.
module _ (type_error : Json) (state : CheckState) where
  unfoldable mutual
    unfolding passed_over

    pub has_error_in : Fields → Outcome Bool
    has_error_in end = return false
    has_error_in (field key v errors) =
        let later = has_error_in errors in
        let here = is_error v in if passed_over state key then later else or_later here later

    pub is_error : Json → Outcome Bool
    is_error (str s) = return (not (s == ""))
    is_error (obj errors) = has_error_in errors
    is_error (arr vs) = has_error_among vs
    is_error null = throw type_error
    is_error _ = return false

    pub has_error_among : Items → Outcome Bool
    has_error_among nil = return false
    has_error_among (cons v vs) = let later = has_error_among vs in or_later (is_error v) later
