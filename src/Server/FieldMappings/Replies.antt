-- ===== src/Server/FieldMappings/Replies.antt =====
-- The replies of FieldMappingService, server/services/FieldMappingService.ts.
use wazuh_dashboard_security.Base.{Bool, true, false, String, List, ◌==◌, if◌then◌else◌}
use wazuh_dashboard_security.Json.{
  Json, undefined, null, bool, num, str, arr, obj, Fields, end, field,
}
use wazuh_dashboard_security.Server.Client.{Host, IsRegular, Request, Outcome, return, throw}
use wazuh_dashboard_security.Server.Safe.{
  IsSafe, OnThrow, pure-IsSafe, raise-IsSafe, IsTotal, handle-IsTotal, safe_rules,
  error_message-IsTotal,
}
use wazuh_dashboard_security.Server.Forward.{forward-IsSafe}
use wazuh_dashboard_security.Server.FieldMappings.{
  extract_fields_from_mappings, fields_at, fields_inside, nested_fields, full_name, both, settle,
  get_mappings_view, create_mappings, get_mappings, get_index_alias_fields,
}

module _ {host : Host} (regular : IsRegular host) where
  if-OnThrow :
      (b : Bool) (r q : Outcome (List String))
      → OnThrow r
      → OnThrow q
      → OnThrow (if b then r else q)
  if-OnThrow true r q h k = h
  if-OnThrow false r q h k = k

  both-OnThrow : (r q : Outcome (List String)) → OnThrow r → OnThrow q → OnThrow (both r q)
  both-OnThrow (return xs) (return ys) h k = tt
  both-OnThrow (return xs) (throw e) h k = k
  both-OnThrow (throw e) q h k = h

  mutual
    unfolding extract_fields_from_mappings

    extract_fields-OnThrow :
        (parent : String) (fs : Fields)
        → OnThrow (extract_fields_from_mappings host.type_error parent fs)
    extract_fields-OnThrow parent end = tt
    extract_fields-OnThrow parent (field name v rest) =
        both-OnThrow (fields_at host.type_error (full_name parent name) v)
          (extract_fields_from_mappings host.type_error parent rest)
          (fields_at-OnThrow (full_name parent name) v) (extract_fields-OnThrow parent rest)

    fields_at-OnThrow : (name : String) (v : Json) → OnThrow (fields_at host.type_error name v)
    fields_at-OnThrow name undefined = regular.type_errors
    fields_at-OnThrow name null = regular.type_errors
    fields_at-OnThrow name (obj fs) = fields_inside-OnThrow name fs
    fields_at-OnThrow name (bool b) = tt
    fields_at-OnThrow name (num n) = tt
    fields_at-OnThrow name (str s) = tt
    fields_at-OnThrow name (arr vs) = tt

    fields_inside-OnThrow :
        (name : String) (fs : Fields) → OnThrow (fields_inside host.type_error name fs)
    fields_inside-OnThrow name end = tt
    fields_inside-OnThrow name (field k v rest) =
        if-OnThrow (k == "properties") (nested_fields host.type_error name v)
          (fields_inside host.type_error name rest) (nested_fields-OnThrow name v)
          (fields_inside-OnThrow name rest)

    nested_fields-OnThrow :
        (name : String) (v : Json) → OnThrow (nested_fields host.type_error name v)
    nested_fields-OnThrow name undefined = regular.type_errors
    nested_fields-OnThrow name null = regular.type_errors
    nested_fields-OnThrow name (obj fs) = extract_fields-OnThrow name fs
    nested_fields-OnThrow name (bool b) = tt
    nested_fields-OnThrow name (num n) = tt
    nested_fields-OnThrow name (str s) = tt
    nested_fields-OnThrow name (arr vs) = tt

  settle-IsSafe : (r : Outcome (List String)) → OnThrow r → IsSafe (settle r)
  settle-IsSafe (return names) h = pure-IsSafe names
  settle-IsSafe (throw error) h = raise-IsSafe error h

  pub field_mapping_handlers-IsTotal :
      (enabled : Bool) (request : Request)
      → IsTotal (get_mappings_view enabled host request)
        × IsTotal (create_mappings enabled host request)
        × IsTotal (get_mappings enabled host request)
        × IsTotal (get_index_alias_fields enabled host request)
  unfolding get_mappings_view create_mappings get_mappings get_index_alias_fields
  field_mapping_handlers-IsTotal enabled request =
      let message = error_message-IsTotal regular in
      (
        handle-IsTotal _ _ (search (tt, safe_rules, regular, forward-IsSafe) depth 16) message,
        handle-IsTotal _ _ (search (tt, regular, forward-IsSafe) depth 16) message,
        handle-IsTotal _ _ (search (tt, safe_rules, regular, forward-IsSafe) depth 16) message,
        handle-IsTotal _ _
            (search (tt, safe_rules, regular, settle-IsSafe, extract_fields-OnThrow) depth 16)
            message,
      )
