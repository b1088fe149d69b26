-- ===== src/Server/Tests.antt =====
-- Runs of the request handlers, against a cluster that answers searches and rejects what else it is
-- asked.
use wazuh_dashboard_security.Base.{
  some, String, Bool, true, false, [], ◌∷◌, ◌++◌, ◌≡◌, ◌≢◌, ◌⊎◌, ◌+◌, ◌≤◌, ◌==◌, refl, ap, subst,
  arith, eq_iff, none, length, any,
}
use wazuh_dashboard_security.Json.{
  bool, path, undefined, at_zero, same_value, Json, null, num, str, object, array, text_array, opt,
  get_field, set_field,
}
use wazuh_dashboard_security.Json.Text.{to_text, trim, trim_start, trim_end, is_space}
use wazuh_dashboard_security.Server.Client.{
  current_user, Outcome, return, throw, Host, IsError, IsRegular, Session, Request, fail,
  SpaceFieldCaps, effects, get_client,
}
use wazuh_dashboard_security.Server.Yaml.{Yaml, YamlIsRegular}
use wazuh_dashboard_security.Server.SpaceCaps.{
  caps_of, get_space_field_caps, fetch_space_field_caps, remember,
}
use wazuh_dashboard_security.Server.SpaceCaps.Laws.{
  AreCandidates, get_space_field_caps-once, caps_of-AreCandidates,
}
use wazuh_dashboard_security.Server.SpaceFilter.{apply_space_filter, build_space_filter}
use wazuh_dashboard_security.Server.SpaceFilter.Laws.{
  filters_of, clause, apply_space_filter-filters, apply_space_filter-keeps,
}
use wazuh_dashboard_security.Server.Decoders.{collect_hits, has_value}
use wazuh_dashboard_security.Server.Decoders.Titles.{titles, contributes, collect_hits-lists}
use wazuh_dashboard_security.Server.Policies.{get_policy, policy_search}
use wazuh_dashboard_security.Server.Policies.Lookup.{get_policy-found_fails}
use wazuh_dashboard_security.Server.WazuhRules.{
  build_query, space_or_pre_packaged, entry_of, add_hits, rule_entry, rules_of,
}
use wazuh_dashboard_security.Server.WazuhRules.Entries.{first_listing, add_hits-first}
use wazuh_dashboard_security.Server.Integrations.{update_integration}
use wazuh_dashboard_security.Server.Integrations.Rejects.{update_integration-rejects}
use wazuh_dashboard_security.Server.LogTest.{
  log_test, read_log_test, location_of, format_log_test_service_error, body_text, nested_text,
  text_of, root_reason, first_reason,
}
use wazuh_dashboard_security.Server.LogTest.Guards.{
  IsReady, executed, log_test-calls, log_test-executes,
}
use wazuh_dashboard_security.Server.LogTest.Errors.{
  IsLegible, format_log_test_service_error-IsLegible,
}

abbrev timeout_error : Json
timeout_error = object (("message", str "timeout") ∷ [])

abbrev hit : Json
hit = object (
    ("_id", str "i1")
    ∷ (
      "_source",
      object (
          (
            "document",
            object (
                ("id", str "d1")
                ∷ ("metadata", object (("title", str "Title") ∷ []))
                ∷ ("decoders", text_array ("d1" ∷ "d2" ∷ []))
                ∷ []),
          )
          ∷ []),
    )
    ∷ [])

abbrev found : Json
found = object (("hits", object (("hits", array (hit ∷ [])) ∷ [])) ∷ [])

abbrev answer : Bool → Outcome Json
answer true = return found
answer false = throw timeout_error

abbrev cluster : Host
cluster = record {
  client = λ calls c. answer (c.method == "search");
  type_error = object (("message", str "TypeError") ∷ []);
}

abbrev OnThrown : Outcome Json → Type 0
OnThrown (return v) = Unit
OnThrown (throw error) = IsError error

answer-OnThrown : (b : Bool) → OnThrown (answer b)
answer-OnThrown true = tt
answer-OnThrown false = refl

cluster-IsRegular : IsRegular cluster
cluster-IsRegular = record {
  rejections = λ calls c error e. subst OnThrown e (answer-OnThrown (c.method == "search"));
  type_errors = refl;
}

abbrev plain_yaml : Yaml
plain_yaml = record { parse = λ v. return v; print = λ doc. return (object doc) }

plain_yaml-YamlIsRegular : YamlIsRegular plain_yaml
plain_yaml-YamlIsRegular = record {
  parse_errors = λ v error e. subst OnThrown e tt;
  print_errors = λ doc error e. subst OnThrown e tt;
}

abbrev stringify : Json → Json
stringify v = str (to_text v)

abbrev lodash_get : Json → String → Json
lodash_get v k = opt (opt v "document") k

abbrev request : Request
request = record {
  params = object (("integrationId", str "i1") ∷ ("space", str "draft") ∷ []);
  query = object (("space", str "draft") ∷ []);
  body = object (
      (
        "document",
        object (
            ("queue", num 1)
            ∷ ("event", str "line")
            ∷ ("space", str "test")
            ∷ ("location", str " ")
            ∷ []),
      )
      ∷ []);
}

abbrev start : Session
start = record { calls = []; caps = none }

update_integration-rejects_example :
    (update_integration true cluster lodash_get request start).0 ≡ throw cluster.type_error
unfolding opt get_field get_client
update_integration-rejects_example =
    update_integration-rejects true cluster lodash_get request start timeout_error refl refl refl
      refl refl refl

policy_found : (policy_search true cluster request start).0 ≡ return found
unfolding policy_search get_space_field_caps fetch_space_field_caps remember effects
policy_found = refl

get_policy-found_fails_example :
    get_policy true cluster request start
    ≡ (return (fail (str "TypeError")), (policy_search true cluster request start).1)
unfolding opt get_field path at_zero
get_policy-found_fails_example =
    get_policy-found_fails true cluster request start _ found
      (ap (λ r. (r, (policy_search true cluster request start).1)) policy_found) refl refl

log_test_request :
    (read_log_test cluster request start).0
    ≡ return (
        object (
          ("queue", num 1)
          ∷ ("event", str "line")
          ∷ ("space", str "test")
          ∷ ("location", str "-")
          ∷ ("metadata", object [])
          ∷ []))
unfolding effects read_log_test location_of opt get_field set_field trim trim_start trim_end
    is_space
log_test_request = refl

abbrev completed : Json
completed = object (
    ("queue", num 1)
    ∷ ("event", str "line")
    ∷ ("space", str "test")
    ∷ ("location", str "-")
    ∷ ("metadata", object [])
    ∷ [])

completed-IsReady : IsReady completed
unfolding opt get_field
completed-IsReady = (refl, refl, refl)

log_test-executes_example :
    (log_test true cluster request start).1 ≡ executed true cluster request start completed
log_test-executes_example =
    log_test-executes true cluster request start completed log_test_request completed-IsReady

log_test-calls_example :
    ((log_test true cluster request start).1 ≡ start)
    ⊎ ((test : Json) × IsReady test
        × ((read_log_test cluster request start).0 ≡ return test)
        × ((log_test true cluster request start).1 ≡ executed true cluster request start test))
log_test-calls_example = log_test-calls true cluster request start

abbrev cause_error : Json
cause_error = object (
    (
      "body",
      object (
          (
            "error",
            object (
                ("root_cause", array (null ∷ object (("reason", str " parse failure ") ∷ []) ∷ []))
                ∷ []),
          )
          ∷ []),
    )
    ∷ [])

root_cause_text : format_log_test_service_error cause_error ≡ "parse failure"
unfolding format_log_test_service_error body_text nested_text text_of root_reason first_reason opt
    get_field trim trim_start trim_end is_space
root_cause_text = refl

format_log_test_service_error-IsLegible_example :
    IsLegible (format_log_test_service_error cause_error)
format_log_test_service_error-IsLegible_example =
    format_log_test_service_error-IsLegible cause_error

collect_hits-lists_example :
    has_value (str "Title") (titles (str "d2") (collect_hits (hit ∷ []) []))
    ≡ any (contributes (str "d2") (str "Title")) (hit ∷ [])
collect_hits-lists_example = collect_hits-lists (str "Title") (str "d2") (hit ∷ [])

get_space_field_caps-once_example :
    (caps : SpaceFieldCaps) × ((get_space_field_caps cluster current_user "decoders" start).0
      ≡ return caps)
    × (length (get_space_field_caps cluster current_user "decoders" start).1.calls
        ≤ length start.calls + 1)
    × (get_space_field_caps cluster current_user "decoders"
          (get_space_field_caps cluster current_user "decoders" start).1
        ≡ (return caps, (get_space_field_caps cluster current_user "decoders" start).1))
get_space_field_caps-once_example =
    get_space_field_caps-once cluster "decoders" current_user current_user start

caps_of-AreCandidates_example :
    AreCandidates (caps_of found).search_fields × AreCandidates (caps_of found).agg_fields
caps_of-AreCandidates_example = caps_of-AreCandidates found

abbrev filtered : Json
filtered =
    object
      (("bool", object (("must", str "m") ∷ ("filter", object (("term", str "t") ∷ [])) ∷ [])) ∷ [])

abbrev term : Json
term = object (("term", object (("document.id", str "d1") ∷ [])) ∷ [])

must-ne-filter : ◌≢◌ {A = String} "must" "filter"
must-ne-filter e = ground (arith, eq_iff "must" "filter")

apply_space_filter-filters_example :
    filters_of (apply_space_filter filtered (str "draft") ("space.name" ∷ []))
    ≡ filters_of filtered ++ build_space_filter (str "draft") ("space.name" ∷ []) ∷ []
apply_space_filter-filters_example =
    apply_space_filter-filters (str "draft") ("space.name" ∷ []) refl filtered

apply_space_filter-keeps_example :
    clause (apply_space_filter filtered (str "draft") ("space.name" ∷ [])) "must"
    ≡ clause filtered "must"
unfolding opt get_field
apply_space_filter-keeps_example =
    apply_space_filter-keeps (str "draft") ("space.name" ∷ []) refl filtered "must" must-ne-filter
      refl

decimals : to_text (array (num 0 ∷ num 7 ∷ num 10 ∷ num 305 ∷ [])) ≡ "0,7,10,305"
unfolding to_text
decimals = refl

custom_rules :
    build_query (bool false) undefined undefined
    ≡ object (
        (
          "bool",
          object (
              (
                "filter",
                array (object (("term", object (("space.name", str "custom") ∷ [])) ∷ []) ∷ []),
              )
              ∷ []),
        )
        ∷ [])
unfolding build_query space_or_pre_packaged opt
custom_rules = refl

loads-errors : (text error : Json) → return text ≡ throw error → IsError error
loads-errors text error e = subst OnThrown e tt

abbrev listing : String → Json
listing title = object (
    (
      "_source",
      object (
          (
            "document",
            object (
                ("metadata", object (("title", str title) ∷ []))
                ∷ ("rules", text_array ("r1" ∷ "r2" ∷ []))
                ∷ []),
          )
          ∷ []),
    )
    ∷ [])

add_hits-first_example :
    entry_of (str "r2") (add_hits (listing "First" ∷ listing "Second" ∷ []) [])
    ≡ first_listing (str "r2") (listing "First" ∷ listing "Second" ∷ [])
add_hits-first_example = add_hits-first (str "r2") (listing "First" ∷ listing "Second" ∷ [])

first_entry :
    first_listing (str "r2") (listing "First" ∷ listing "Second" ∷ [])
    ≡ some (rule_entry (listing "First"))
unfolding rules_of path opt get_field same_value
first_entry = refl
